-- ===== src/Artifacts/Tests.antt =====
-- Upserts, claims and retention at concrete rows.
use mathlib.Core.List.{Permᴰ}
use decepti_forge.Base.{
  ℕ, ◌≤◌, ◌≡◌, ◌≢◌, refl, String, Bool, false, not, List, [], ◌∷◌, none, some, arith, str_mem, take,
  min, All, select, map, count, length, if◌then◌else◌,
}
use decepti_forge.Alerting.Types.{Alert, medium, high, file_content}
use decepti_forge.Artifacts.Alerts.{Row, alert_record, upsert_alert_atomic}
use decepti_forge.Artifacts.Facts.{replay}
use decepti_forge.Artifacts.Upserts.{facts_in, IsKeyedRow}
use decepti_forge.Artifacts.Refinement.{upsert_all, upsert_all_refines, upsert_all_order}
use decepti_forge.Artifacts.Isolation.{rows_of, upsert_isolated}
use decepti_forge.Artifacts.Jobs.{
  Job, JobStatus, pending, completed, tenants, claim_fair, pending_count,
}
use decepti_forge.Artifacts.Queue.{IsUnique}
use decepti_forge.Artifacts.Shares.{jobs_of, pending_of}
use decepti_forge.Artifacts.Fairness.{share_of, claim_fair_own}
use decepti_forge.Artifacts.Incidents.{
  Incident, IncidentRow, Lifecycle, opened, resolved, retire_stale_incidents,
}
use decepti_forge.Artifacts.Stale.{is_due, retire_row, retire_stale_once}
use decepti_forge.Artifacts.Worker.{Store, drain}
use decepti_forge.Artifacts.Drain.{drain_empties}
use decepti_forge.Artifacts.Retention.{is_finished_job, purge_reconstruction_jobs}
use decepti_forge.Artifacts.Purges.{is_open, purge_jobs_exact}

abbrev small : {A : Type 0} → A → Bool
small a = false

-- The episode's key is the id, whatever its bucket.
abbrev id_of : String → String → ℕ → String
id_of org key bucket = org

abbrev alert : (organization : String) → Alert
alert org = record {
  alert_id = org;
  trace_identifier = "trace";
  decoy_id = "decoy";
  severity = medium;
  source_monitor = file_content;
  confidence = 80;
  first_seen = 10;
  last_seen = 20;
  event_count = 1;
  deduplication_key = "key";
  episode_bucket = 0;
  placement_id = "placement";
  decoy_type = "api_key";
  evidence = [];
  raw_event_ids = "e1" ∷ [];
  correlation_id = "correlation";
}

abbrev later : Alert
later = record (alert "acme") { first_seen = 15; last_seen = 40; severity = high }

abbrev arrivals : List (String × Alert)
arrivals = ("acme", alert "acme") ∷ ("acme", later) ∷ []

abbrev rows : List Row
rows = alert_record "other" (alert "other") ∷ []

upsert_all_refines_example :
    let (stored, rows') = upsert_all small arrivals rows in
    (facts_in "acme" rows' ≡ replay "acme" stored (facts_in "acme" rows))
    × All (IsKeyedRow id_of) rows'
upsert_all_refines_example =
    upsert_all_refines id_of small "acme" arrivals rows (refl, (refl, tt)) (refl, tt)

abbrev swapped_arrivals : List (String × Alert)
swapped_arrivals = ("acme", later) ∷ ("acme", alert "acme") ∷ []

swapped : Permᴰ arrivals swapped_arrivals
swapped = Permᴰ.swap refl refl

upsert_all_order_example :
    facts_in "acme" (upsert_all small arrivals rows).1
    ≡ facts_in "acme" (upsert_all small swapped_arrivals rows).1
upsert_all_order_example =
    upsert_all_order id_of small "acme" rows (λ a. refl) swapped (refl, (refl, tt)) (refl, tt)

other_org : ◌≢◌ {A = String} "other" "acme"
other_org e = absurd (cc e)

upsert_isolated_example :
    rows_of "other" (upsert_alert_atomic small "acme" (alert "acme") rows).1 ≡ rows_of "other" rows
upsert_isolated_example =
    upsert_isolated id_of small "acme" "other" (alert "acme") rows
      (λ org org' key key' bucket bucket' e. e) other_org refl (refl, tt)

abbrev job : (job_id organization : String) → JobStatus → Job
job id org status = record {
  job_id = id;
  organization = org;
  status = status;
  trace_identifier = "trace";
  decoy_id = "decoy";
  placement_id = none;
  correlation_id = none;
  window_start = 0;
  window_end = 100;
  attempts = 0;
  created_at = 5;
  processed_at = none;
}

abbrev jobs : List Job
jobs =
    job "j1" "acme" pending
    ∷ job "j2" "acme" pending
    ∷ job "j3" "other" pending
    ∷ job "j4" "other" completed
    ∷ []

jobs-IsUnique : IsUnique jobs
jobs-IsUnique = (refl, (refl, (refl, (refl, tt))))

claim_fair_own_example :
    let served = take 2 (tenants [] jobs) in
    jobs_of "acme" (claim_fair 2 jobs).0
    ≡ (if str_mem "acme" served then min (share_of 2 served) (pending_of "acme" jobs) else 0)
claim_fair_own_example = claim_fair_own 2 "acme" jobs jobs-IsUnique

two_tenants : length (tenants [] jobs) ≤ 2
unfolding tenants
two_tenants = omega arith

abbrev store : Store
store = record { alerts = rows; incidents = []; jobs = jobs }

three_pending : pending_count none jobs ≡ 3
unfolding pending_count
three_pending = refl

drain_empties_example :
    (s' : Store) × (drain (λ org alerts. none) small 2 4 0 none store
      ≡ some (pending_count none jobs, s'))
    × (pending_count none s'.jobs ≡ 0)
drain_empties_example =
    drain_empties (λ org alerts. none) small 2 4 0 none store (omega arith) jobs-IsUnique
      (omega (arith, three_pending))

abbrev incident : (incident_id : String) → Lifecycle → (last_seen : ℕ) → Incident
incident id state last = record {
  incident_id = id;
  lifecycle = state;
  severity = high;
  first_seen = 0;
  last_seen = last;
  updated_at = none;
  alert_ids = "a1" ∷ [];
}

abbrev incidents : List IncidentRow
incidents =
    record { owner = "acme"; incident = incident "i1" opened 10 }
    ∷ record { owner = "other"; incident = incident "i2" resolved 10 }
    ∷ record { owner = "acme"; incident = incident "i3" opened 9_000_000 }
    ∷ []

retire_stale_once_example :
    let (n, rows') = retire_stale_incidents small "acme" 9_000_000 5 incidents in
    (n ≡ some (count (is_due 4_000_000 "acme") incidents))
    × (rows' ≡ map (retire_row 9_000_000 4_000_000 "acme") incidents)
    × (count (is_due 4_000_000 "acme") rows' ≡ 0)
retire_stale_once_example =
    retire_stale_once small "acme" 9_000_000 5 incidents (λ i. refl) (refl, (refl, (refl, tt)))

purge_jobs_exact_example :
    let kept = select (λ (j : Job). not (is_finished_job 10 j)) jobs in
    (purge_reconstruction_jobs 5 10 1 jobs ≡ some (count (is_finished_job 10) jobs, kept))
    × (count (λ (j : Job). is_open j.status) kept ≡ count (λ (j : Job). is_open j.status) jobs)
purge_jobs_exact_example = purge_jobs_exact 5 10 1 jobs (omega arith) (omega arith)
