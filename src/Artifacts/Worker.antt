-- ===== src/Artifacts/Worker.antt =====
-- services/incident_reconstruction/worker.py: the worker that drains the queue. The engine is given
-- as a function that may raise, and the fuel of `drain` stands for its loop.
use decepti_forge.Base.{
  ℕ, zero, suc, ◌+◌, String, Bool, true, false, List, [], ◌∷◌, Option, none, some, if◌then◌else◌,
  ◌==◌, length,
}
use decepti_forge.Alerting.Types.{Alert}
use decepti_forge.Artifacts.Alerts.{Row, related_alerts}
use decepti_forge.Artifacts.Jobs.{Job, claim_reconstruction_jobs, complete_job}
use decepti_forge.Artifacts.Incidents.{Incident, IncidentRow, upsert_incidents}

-- The three tables that the worker reads and writes.
pub record Store : Type 0 where
  pub alerts : List Row
  pub incidents : List IncidentRow
  pub jobs : List Job

module _ (reconstruct : String → List Alert → Option (List Incident)) (too_large : Incident → Bool)
    (batch : ℕ) where
  -- What the engine's incidents lead to: whether the body of the loop ended without an exception,
  -- and the rows.
  abbrev pub write_incidents :
      (organization : String) → Option (List Incident) → List IncidentRow → Bool × List IncidentRow
  unfolding upsert_incidents
  write_incidents org none rows = (false, rows)
  write_incidents org (some is) rows = upsert_incidents too_large org is rows

  -- `if related:`
  abbrev pub reconstruct_related :
      (organization : String) → List Alert → List IncidentRow → Bool × List IncidentRow
  reconstruct_related org [] rows = (true, rows)
  reconstruct_related org (a ∷ as') rows = write_incidents org (reconstruct org (a ∷ as')) rows

  -- The body of the loop of `run_once`.
  unfoldable pub process_job : (now : ℕ) → Job → Store → Store
  unfolding related_alerts complete_job write_incidents
  process_job now j s =
      let related =
        related_alerts j.trace_identifier j.decoy_id j.placement_id j.correlation_id j.window_start
          j.window_end j.organization 1000 s.alerts in
      let (ok, incidents) = reconstruct_related j.organization related s.incidents in
      record {
        alerts = s.alerts;
        incidents = incidents;
        jobs = complete_job now j.job_id ok s.jobs;
      }

  unfoldable pub process_jobs : (now : ℕ) → List Job → Store → Store
  unfolding process_job
  process_jobs now [] s = s
  process_jobs now (j ∷ js) s = process_jobs now js (process_job now j s)

  -- `run_once`
  unfoldable pub run_once : (now : ℕ) → (organization : Option String) → Store → ℕ × Store
  unfolding process_jobs claim_reconstruction_jobs
  run_once now org s =
      let (jobs, rows) = claim_reconstruction_jobs batch org s.jobs in
      (length jobs, process_jobs now jobs (record s { jobs = rows }))

  abbrev add_total : ℕ → Option (ℕ × Store) → Option (ℕ × Store)
  add_total n none = none
  add_total n (some (total, s)) = some (n + total, s)

  -- `drain`; none if the fuel runs out.
  unfoldable pub drain :
      (fuel : ℕ) → (now : ℕ) → (organization : Option String) → Store → Option (ℕ × Store)
  unfolding run_once
  drain zero now org s = none
  drain (suc fuel) now org s =
      let (n, s') = run_once now org s in
      let rest = drain fuel now org s' in if n == 0 then some (0, s') else add_total n rest
