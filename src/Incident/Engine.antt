-- ===== src/Incident/Engine.antt =====
-- services/incident_reconstruction/engine.py: the grouping of alerts and the grade of an incident.
-- The order of the texts of two ids (`str(item.alert_id)`) is a parameter; the texts for people, the
-- time line and the sorted views of a group are not modelled.
use decepti_forge.Base.{
  ℕ, ◌+◌, ◌*◌, min, max, String, Bool, true, false, not, ◌&&◌, ◌||◌, List, [], ◌∷◌, ◌++◌,
  if◌then◌else◌, leb, ltb, ◌==◌, str_eq, any, length, take_last,
}
use decepti_forge.Alerting.Types.{
  Alert, MonitorType, file_content, repository, database_payload, text_payload, Severity, rank,
}
use decepti_forge.Alerting.Pipeline.{second}
use decepti_forge.Sensor.Sequence.{severity_at, one_if}

-- `IncidentConfig`
pub record Config : Type 0 where
  pub correlation_window_seconds : ℕ
  pub max_alerts : ℕ

-- A group of related alerts: the first one, and the others in the order of their joining.
pub record Group : Type 0 where
  pub first : Alert
  pub others : List Alert

abbrev pub members : Group → List Alert
members g = g.first ∷ g.others

-- `max(item.last_seen for item in group)`
abbrev pub latest_of : ℕ → List Alert → ℕ
latest_of m [] = m
latest_of m (a ∷ as') = latest_of (max m a.last_seen) as'

abbrev pub latest : Group → ℕ
latest g = latest_of g.first.last_seen g.others

-- Whether two alerts share a strong identity key.
abbrev pub shares_key : Alert → Alert → Bool
shares_key a b =
    str_eq a.trace_identifier b.trace_identifier
    || str_eq a.decoy_id b.decoy_id
    || str_eq a.placement_id b.placement_id
    || str_eq a.correlation_id b.correlation_id

-- `_related`
unfoldable pub related : Config → Alert → Group → Bool
related c a g =
    if ltb (latest g + c.correlation_window_seconds * second) a.first_seen
    then false
    else any (shares_key a) (members g)

-- The inner loop of `reconstruct`: the first related group takes the alert, or a new one does.
unfoldable pub place : Config → Alert → List Group → List Group
unfolding related
place c a [] = record { first = a; others = [] } ∷ []
place c a (g ∷ gs) =
    if related c a g then record g { others = g.others ++ a ∷ [] } ∷ gs else g ∷ place c a gs

-- The outer loop.
unfoldable pub place_all : Config → List Alert → List Group → List Group
unfolding place
place_all c [] gs = gs
place_all c (a ∷ as') gs = place_all c as' (place c a gs)

module _ (id_before : String → String → Bool) where
  -- The key `(first_seen, str(alert_id))`
  abbrev pub is_before : Alert → Alert → Bool
  is_before a b =
      ltb a.first_seen b.first_seen
      || (a.first_seen == b.first_seen && not (id_before b.alert_id a.alert_id))

  unfoldable pub insert : Alert → List Alert → List Alert
  insert a [] = a ∷ []
  insert a (b ∷ bs) = if is_before a b then a ∷ b ∷ bs else b ∷ insert a bs

  -- `sorted`
  unfoldable pub sorted : List Alert → List Alert
  unfolding insert
  sorted [] = []
  sorted (a ∷ as') = insert a (sorted as')

  -- The alerts that are considered: the most recent `max_alerts`.
  unfoldable pub considered : Config → List Alert → List Alert
  unfolding sorted
  considered c alerts =
      let ordered = sorted alerts in
      if ltb c.max_alerts (length ordered) then take_last c.max_alerts ordered else ordered

  -- `reconstruct`, up to the groups.
  unfoldable pub reconstruct : Config → List Alert → List Group
  unfolding considered place_all
  reconstruct c alerts = place_all c (considered c alerts) []

pub data IncidentType : Type 0 where
  multi_surface_exposure ai_paste_leak repository_exposure database_export : IncidentType
  file_copy_or_sync repeated_probe unknown_tripwire_touch : IncidentType

abbrev monitor_number : MonitorType → ℕ
monitor_number file_content = 0
monitor_number repository = 1
monitor_number database_payload = 2
monitor_number text_payload = 3

abbrev pub other_monitor : Alert → Alert → Bool
other_monitor a b = not (monitor_number a.source_monitor == monitor_number b.source_monitor)

-- `_kind`; each of the four monitors has a kind, so the last return is not reached.
unfoldable pub kind : Group → IncidentType
kind g =
    if any (other_monitor g.first) g.others
    then multi_surface_exposure
    else elim g.first.source_monitor [
      | text_payload ↦ ai_paste_leak
      | repository ↦ repository_exposure
      | database_payload ↦ database_export
      | file_content ↦ file_copy_or_sync
    ]

abbrev pub is_multi : IncidentType → Bool
is_multi multi_surface_exposure = true
is_multi _ = false

-- `max(levels[alert.severity] for alert in alerts)`
abbrev pub highest_of : ℕ → List Alert → ℕ
highest_of m [] = m
highest_of m (a ∷ as') = highest_of (max m (rank a.severity)) as'

-- `_severity`
unfoldable pub severity : Group → IncidentType → Severity
severity g k = severity_at (
    min
      (highest_of (rank g.first.severity) g.others
        + one_if (leb 3 (length (members g)))
        + one_if (is_multi k))
      4)
