-- ===== src/Artifacts/Incidents.antt =====
-- The incidents of repositories/artifacts.py: their upsert, and the retirement of stale ones. Rows
-- stand in the order of their creation; the size guard is given as a test.
use decepti_forge.Base.{
  ℕ, ◌+◌, ◌*◌, ◌-◌, String, Bool, true, false, ◌||◌, List, [], ◌∷◌, Option, none, some,
  if◌then◌else◌, leb, str_eq, select, map,
}
use decepti_forge.Alerting.Types.{Severity}
use decepti_forge.Alerting.Pipeline.{second}

-- `IncidentLifecycle`
pub data Lifecycle : Type 0 where
  opened updated resolved stale superseded : Lifecycle

-- `ReconstructedIncident`, without its time line and its texts for people.
pub record Incident : Type 0 where
  pub incident_id : String
  pub lifecycle : Lifecycle
  pub severity : Severity
  pub first_seen : ℕ
  pub last_seen : ℕ
  pub updated_at : Option ℕ
  pub alert_ids : List String

-- `IncidentRecord`; the columns `status` and `last_seen` repeat the incident's.
pub record IncidentRow : Type 0 where
  pub owner : String
  pub incident : Incident

-- `session.merge` by the primary key: the row with the id is written over, or one is added.
unfoldable pub merge_incident :
    (organization : String) → Incident → List IncidentRow → List IncidentRow
merge_incident org i [] = record { owner = org; incident = i } ∷ []
merge_incident org i (r ∷ rs) =
    let rest = merge_incident org i rs in
    if str_eq r.incident.incident_id i.incident_id
    then record { owner = org; incident = i } ∷ rs
    else r ∷ rest

-- `upsert_incidents_for_organization`: whether every incident was written, and the rows.
unfoldable pub upsert_incidents :
    (too_large : Incident → Bool)
    → (organization : String) → List Incident
    → List IncidentRow
    → Bool × List IncidentRow
unfolding merge_incident
upsert_incidents too_large org [] rows = (true, rows)
upsert_incidents too_large org (i ∷ is) rows =
    let rest = upsert_incidents too_large org is (merge_incident org i rows) in
    if too_large i then (false, rows) else rest

-- `incidents_for_organization`
unfoldable pub incidents_of : (organization : String) → List IncidentRow → List Incident
incidents_of org rows =
    map (λ (r : IncidentRow). r.incident) (select (λ (r : IncidentRow). str_eq r.owner org) rows)

-- `incident.lifecycle is IncidentLifecycle.STALE`
abbrev pub is_stale : Lifecycle → Bool
is_stale stale = true
is_stale _ = false

-- The incidents that the loop passes over.
abbrev pub is_kept : (cutoff : ℕ) → Incident → Bool
is_kept cutoff i = is_stale i.lifecycle || leb cutoff i.last_seen

abbrev pub retired : (now : ℕ) → Incident → Incident
retired now i = record i { lifecycle = stale; updated_at = some now }

abbrev pub one_more : Option ℕ → Option ℕ
one_more none = none
one_more (some n) = some (n + 1)

module _ (too_large : Incident → Bool) where
  -- The loop of `retire_stale_incidents`: how many were retired, or none if the guard raised, and the
  -- rows.
  unfoldable pub retire_all :
      (now cutoff : ℕ)
      → (organization : String) → List Incident
      → List IncidentRow
      → Option ℕ × List IncidentRow
  unfolding merge_incident
  retire_all now cutoff org [] rows = (some 0, rows)
  retire_all now cutoff org (i ∷ is) rows =
      let (n, rows') = retire_all now cutoff org is (merge_incident org (retired now i) rows) in
      let rest = retire_all now cutoff org is rows in
      if is_kept cutoff i
      then rest
      else if too_large (retired now i)
      then (none, rows)
      else (one_more n, rows')

  -- `retire_stale_incidents`. A cutoff before the epoch is 0, which retires nothing either.
  unfoldable pub retire_stale_incidents :
      (organization : String)
      → (now stale_after_seconds : ℕ) → List IncidentRow
      → Option ℕ × List IncidentRow
  unfolding incidents_of retire_all
  retire_stale_incidents org now stale_after rows =
      retire_all now (now - stale_after * second) org (incidents_of org rows) rows

-- `get_incident`
unfoldable pub get_incident :
    (organization incident_id : String) → List IncidentRow → Option Incident
get_incident org id [] = none
get_incident org id (r ∷ rs) =
    let rest = get_incident org id rs in
    if str_eq r.incident.incident_id id
    then (if str_eq r.owner org then some r.incident else none)
    else rest
