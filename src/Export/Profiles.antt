-- ===== src/Export/Profiles.antt =====
-- services/integrations/profiles.py: what of an event a profile lets out. The size of the event's
-- JSON text in bytes is a parameter.
use decepti_forge.Base.{ℕ, ◌-◌, String, Bool, [], none, if◌then◌else◌, ltb, ◌==◌}
use decepti_forge.Export.Envelope.{
  Envelope, PayloadProfile, minimal, standard, analyst, compliance_summary,
}

-- `s[:n]`
unfoldable pub text_take : ℕ → String → String
text_take n String.[] = ""
text_take n (String.◌∷◌ c s) =
    let rest = text_take (n - 1) s in if n == 0 then "" else String.◌∷◌ c rest

abbrev pub drop_narrative : (include_narrative : Bool) → Envelope → Envelope
drop_narrative include e = if include then e else record e { narrative_summary = none }

-- The branches on the profile.
abbrev pub shape : PayloadProfile → Envelope → Envelope
shape minimal e = record e {
  summary = "";
  affected_surfaces = [];
  decoy_types = [];
  recommended_actions = [];
  deterministic_evidence_summary = "";
  narrative_summary = none;
  links = [];
  metadata = [];
}
shape standard e = record e { deterministic_evidence_summary = ""; narrative_summary = none }
shape compliance_summary e = record e { narrative_summary = none; metadata = [] }
shape analyst e = e

-- The fields that are dropped where the event is too long.
abbrev pub reduce : Envelope → Envelope
reduce e = record e {
  narrative_summary = none;
  deterministic_evidence_summary = "";
  summary = text_take 256 e.summary;
  metadata = [];
}

abbrev pub bound_size : (size : Envelope → ℕ) → (max_bytes : ℕ) → Envelope → Envelope
bound_size size max_bytes e = if ltb max_bytes (size e) then reduce e else e

unfoldable pub apply_profile :
    (size : Envelope → ℕ)
    → PayloadProfile
    → (include_narrative : Bool) → (max_bytes : ℕ) → Envelope
    → Envelope
apply_profile size profile include max_bytes e =
    bound_size size max_bytes (shape profile (drop_narrative include e))
