-- ===== src/Export/Routing.antt =====
-- services/integrations/routing.py and the table of integrations that it reads. The rules of an
-- integration stand as its JSON text reads; a missing or empty list is no rule.
use decepti_forge.Base.{
  String, text_append, Bool, true, false, not, ◌&&◌, List, [], ◌∷◌, if◌then◌else◌, leb, any,
  str_mem, str_eq, select,
}
use decepti_forge.Alerting.Types.{Severity, rank}
use decepti_forge.Secrets.Fields.{join}
use decepti_forge.Export.Envelope.{
  Envelope, PayloadProfile, SourceType, coverage_gap, operational_event, source_for_event,
  event_name,
}
use decepti_forge.Export.Profiles.{text_take}

pub record Rules : Type 0 where
  pub event_types : List String
  pub surface_types : List String

-- `SecurityIntegrationRecord`, as far as routing reads it.
pub record Channel : Type 0 where
  pub channel_id : String
  pub organization : String
  pub status : String
  pub routing : Rules
  pub payload_profile : PayloadProfile
  pub include_narrative : Bool
  pub include_coverage : Bool
  pub include_operational : Bool
  pub minimum_severity : Severity

-- `severity_at_least`, over `_ORDER`.
abbrev pub severity_at_least : (value minimum : Severity) → Bool
severity_at_least value minimum = leb (rank minimum) (rank value)

-- The switches for two kinds of sources.
abbrev pub admits_source : (coverage operational : Bool) → SourceType → Bool
admits_source coverage operational coverage_gap = coverage
admits_source coverage operational operational_event = operational
admits_source coverage operational _ = true

-- A list of rules: no rule lets everything through.
abbrev pub admits_type : (event_types : List String) → (name : String) → Bool
admits_type [] name = true
admits_type (t ∷ ts) name = str_mem name (t ∷ ts)

abbrev pub admits_surface : (surface_types surfaces : List String) → Bool
admits_surface [] surfaces = true
admits_surface (t ∷ ts) surfaces = any (λ (s : String). str_mem s (t ∷ ts)) surfaces

unfoldable pub matches : Channel → Envelope → Bool
matches c e =
    if not (severity_at_least e.severity c.minimum_severity)
    then false
    else if not
        (admits_source c.include_coverage c.include_operational (source_for_event e.event_type))
    then false
    else if not (admits_type c.routing.event_types (event_name e.event_type))
    then false
    else admits_surface c.routing.surface_types e.affected_surfaces

-- `idempotency_key`; the decimal text of the version is given.
unfoldable pub idempotency_key :
    (organization integration source version : String) → (event_type : String) → String
unfolding text_take join
idempotency_key organization integration source version event_type =
    text_take 200
      (join ":" (organization ∷ integration ∷ event_type ∷ source ∷ text_append "v" version ∷ []))

-- The condition of the query of `matching_integrations`.
abbrev pub is_listening : (organization : String) → Channel → Bool
is_listening org c = str_eq c.organization org && str_eq c.status "active"

unfoldable pub matching_integrations :
    (organization : String) → Envelope → List Channel → List Channel
unfolding matches
matching_integrations org e channels =
    select (λ (c : Channel). matches c e) (select (is_listening org) channels)
