-- ===== src/Artifacts/Jobs.antt =====
-- The queue of reconstruction jobs of repositories/artifacts.py. Rows stand in the order of
-- `created_at`.
use decepti_forge.Base.{
  ℕ, ◌+◌, ◌*◌, ◌-◌, ◌/◌, max, String, Bool, true, false, not, ◌&&◌, List, [], ◌∷◌, ◌++◌, Option,
  none, some, if◌then◌else◌, str_eq, str_mem, select, take, map, length,
}
use decepti_forge.Alerting.Types.{Alert}
use decepti_forge.Alerting.Pipeline.{second}

pub data JobStatus : Type 0 where
  pending claimed completed failed : JobStatus

-- `ReconstructionJobRecord`; the status "done" is `completed` here.
pub record Job : Type 0 where
  pub job_id : String
  pub organization : String
  pub status : JobStatus
  pub trace_identifier : String
  pub decoy_id : String
  pub placement_id : Option String
  pub correlation_id : Option String
  pub window_start : ℕ
  pub window_end : ℕ
  pub attempts : ℕ
  pub created_at : ℕ
  pub processed_at : Option ℕ

abbrev pub is_pending : JobStatus → Bool
is_pending pending = true
is_pending _ = false

-- `enqueue_reconstruction`; `job_id` is the fresh id of the record.
unfoldable pub enqueue_reconstruction :
    (now : ℕ) → (job_id organization : String) → Alert → (window_seconds : ℕ) → List Job → List Job
enqueue_reconstruction now job_id org alert window jobs =
    jobs
    ++ record {
      job_id = job_id;
      organization = org;
      status = pending;
      trace_identifier = alert.trace_identifier;
      decoy_id = alert.decoy_id;
      placement_id = some alert.placement_id;
      correlation_id = some alert.correlation_id;
      window_start = alert.first_seen - window * second;
      window_end = alert.last_seen + window * second;
      attempts = 0;
      created_at = now;
      processed_at = none;
    }
      ∷ []

-- The condition on a candidate.
abbrev pub is_candidate : (organization : String) → Job → Bool
is_candidate org j = is_pending j.status && str_eq j.organization org

-- The compare-and-set on one job: the job as it is then, or none if the update changed no row.
unfoldable pub claim_job : (job_id : String) → List Job → Option Job × List Job
claim_job id [] = (none, [])
claim_job id (j ∷ js) =
    let (won, rest) = claim_job id js in
    let taken = record j { status = claimed; attempts = j.attempts + 1 } in
    if str_eq j.job_id id
    then (if is_pending j.status then (some taken, taken ∷ js) else (none, j ∷ js))
    else (won, j ∷ rest)

abbrev pub add_won : Option Job → List Job → List Job
add_won none jobs = jobs
add_won (some j) jobs = j ∷ jobs

-- The loop over the candidates.
unfoldable pub claim_jobs : List String → List Job → List Job × List Job
unfolding claim_job
claim_jobs [] rows = ([], rows)
claim_jobs (id ∷ ids) rows =
    let (won, rows') = claim_job id rows in
    let (more, rows'') = claim_jobs ids rows' in (add_won won more, rows'')

-- `_claim_reconstruction_jobs_for_org`
unfoldable pub claim_for_org :
    (limit : ℕ) → (organization : String) → List Job → List Job × List Job
unfolding claim_jobs
claim_for_org limit org rows =
    claim_jobs (take limit (map (λ (j : Job). j.job_id) (select (is_candidate org) rows))) rows

-- The tenants with pending jobs, by their oldest pending job; `seen` are those already found.
unfoldable pub tenants : (seen : List String) → List Job → List String
tenants seen [] = []
tenants seen (j ∷ js) =
    let known = tenants seen js in
    let found = tenants (j.organization ∷ seen) js in
    if is_pending j.status && not (str_mem j.organization seen)
    then j.organization ∷ found
    else known

-- The loop over the tenants.
unfoldable pub claim_shares : (share : ℕ) → List String → List Job → List Job × List Job
unfolding claim_for_org
claim_shares share [] rows = ([], rows)
claim_shares share (org ∷ orgs) rows =
    let (own, rows') = claim_for_org share org rows in
    let (others, rows'') = claim_shares share orgs rows' in (own ++ others, rows'')

-- The share of each tenant served, and its claims.
unfoldable pub share_out : (limit : ℕ) → List String → List Job → List Job × List Job
unfolding claim_shares
share_out limit [] rows = ([], rows)
share_out limit (org ∷ orgs) rows =
    claim_shares (max 1 (limit / length (org ∷ orgs))) (org ∷ orgs) rows

-- `_claim_reconstruction_jobs_fair`
unfoldable pub claim_fair : (limit : ℕ) → List Job → List Job × List Job
unfolding tenants share_out
claim_fair limit rows = share_out limit (take limit (tenants [] rows)) rows

-- `claim_reconstruction_jobs`
unfoldable pub claim_reconstruction_jobs :
    (limit : ℕ) → (organization : Option String) → List Job → List Job × List Job
unfolding claim_fair claim_for_org
claim_reconstruction_jobs limit none rows = claim_fair limit rows
claim_reconstruction_jobs limit (some org) rows = claim_for_org limit org rows

-- `complete_reconstruction_job`
unfoldable pub complete_job : (now : ℕ) → (job_id : String) → (ok : Bool) → List Job → List Job
complete_job now id ok [] = []
complete_job now id ok (j ∷ js) =
    let rest = complete_job now id ok js in
    if str_eq j.job_id id
    then record j { status = if ok then completed else failed; processed_at = some now } ∷ js
    else j ∷ rest

-- `pending_reconstruction_count`
unfoldable pub pending_count : (organization : Option String) → List Job → ℕ
pending_count none rows = length (select (λ (j : Job). is_pending j.status) rows)
pending_count (some org) rows = length (select (is_candidate org) rows)
