-- ===== src/Artifacts/Held.antt =====
-- What claims and completions do to the number of pending jobs, and the jobs that a claim holds.
use decepti_forge.Base.{
  ℕ, ◌+◌, ◌≡◌, refl, String, Bool, true, not, List, [], ◌∷◌, Option, none, some, if◌then◌else◌,
  arith, str_eq, str_eq_iff, length, count, All, Bool-cases, inl, inr,
}
use decepti_forge.Artifacts.Jobs.{Job, is_pending, claim_job, claim_jobs, add_won, complete_job}
use decepti_forge.Artifacts.Shares.{pending_of}

-- Whether the first row with an id is no longer pending.
unfoldable pub is_held : (job_id : String) → List Job → Bool
is_held id [] = true
is_held id (j ∷ js) = if str_eq j.job_id id then not (is_pending j.status) else is_held id js

-- How many jobs are pending, in all organizations.
abbrev pub pending_all : List Job → ℕ
pending_all rows = count (λ (j : Job). is_pending j.status) rows

claim_job-held :
    (id m : String) (rows : List Job)
    → is_held m rows ≡ true
    → is_held m (claim_job id rows).1 ≡ true
unfolding claim_job is_held
claim_job-held id m [] h = refl
claim_job-held id m (j ∷ js) h = ground (arith, h, claim_job-held id m js)

claim_job-holds : (id : String) (rows : List Job) → is_held id (claim_job id rows).1 ≡ true
unfolding claim_job is_held
claim_job-holds id [] = refl
claim_job-holds id (j ∷ js) = ground (arith, claim_job-holds id js)

abbrev IsWon : (job_id : String) → Option Job → Type 0
IsWon id none = Unit
IsWon id (some j) = j.job_id ≡ id

claim_job-IsWon : (id : String) (rows : List Job) → IsWon id (claim_job id rows).0
unfolding claim_job
claim_job-IsWon id [] = tt
claim_job-IsWon id (j ∷ js) = elim (Bool-cases (str_eq j.job_id id)) [
  | inr other ↦ rw other (claim_job-IsWon id js)
  | inl same ↦ elim (Bool-cases (is_pending j.status)) [
    | inl waiting ↦ rw (same, waiting) ((str_eq_iff j.job_id id).0 same)
    | inr gone ↦ rw (same, gone) tt
  ]
]

abbrev won_count : Option Job → ℕ
won_count none = 0
won_count (some j) = 1

add_won-length :
    (won : Option Job) (jobs : List Job) → length (add_won won jobs) ≡ won_count won + length jobs
add_won-length none jobs = omega arith
add_won-length (some j) jobs = omega arith

claim_job-pending :
    (id : String) (rows : List Job)
    → won_count (claim_job id rows).0 + pending_all (claim_job id rows).1 ≡ pending_all rows
unfolding claim_job
claim_job-pending id [] = refl
claim_job-pending id (j ∷ js) = ground (arith, claim_job-pending id js)

pub complete_job-held :
    (now : ℕ) (id m : String) (ok : Bool) (rows : List Job)
    → is_held m rows ≡ true
    → is_held m (complete_job now id ok rows) ≡ true
unfolding complete_job is_held
complete_job-held now id m ok [] h = refl
complete_job-held now id m ok (j ∷ js) h = ground (arith, h, complete_job-held now id m ok js)

pub complete_job-pending :
    (now : ℕ) (id : String) (ok : Bool) (rows : List Job)
    → is_held id rows ≡ true
    → pending_all (complete_job now id ok rows) ≡ pending_all rows
unfolding complete_job is_held
complete_job-pending now id ok [] h = refl
complete_job-pending now id ok (j ∷ js) h = ground (arith, h, complete_job-pending now id ok js)

pub complete_job-pending_of :
    (now : ℕ) (org id : String) (ok : Bool) (rows : List Job)
    → is_held id rows ≡ true
    → pending_of org (complete_job now id ok rows) ≡ pending_of org rows
unfolding complete_job is_held
complete_job-pending_of now org id ok [] h = refl
complete_job-pending_of now org id ok (j ∷ js) h =
    ground (arith, h, complete_job-pending_of now org id ok js)

-- Claims account for every pending job, and hold what they have claimed.
abbrev pub AllHeld : (jobs rows : List Job) → Type 0
AllHeld jobs rows = All (λ (j : Job). is_held j.job_id rows ≡ true) jobs

pub claim_jobs-held :
    (names : List String) (m : String) (rows : List Job)
    → is_held m rows ≡ true
    → is_held m (claim_jobs names rows).1 ≡ true
unfolding claim_jobs
claim_jobs-held [] m rows h = h
claim_jobs-held (id ∷ names) m rows h =
    claim_jobs-held names m (claim_job id rows).1 (claim_job-held id m rows h)

add_won-held :
    (id : String) (won : Option Job) (jobs rows : List Job)
    → IsWon id won
    → is_held id rows ≡ true
    → AllHeld jobs rows
    → AllHeld (add_won won jobs) rows
add_won-held id none jobs rows w h hs = hs
add_won-held id (some j) jobs rows w h hs = (rw w h, hs)

pub claim_jobs-AllHeld :
    (names : List String) (rows : List Job)
    → AllHeld (claim_jobs names rows).0 (claim_jobs names rows).1
unfolding claim_jobs
claim_jobs-AllHeld [] rows = tt
claim_jobs-AllHeld (id ∷ names) rows =
    let (won, rows') = claim_job id rows in
    add_won-held id won (claim_jobs names rows').0 (claim_jobs names rows').1
      (claim_job-IsWon id rows) (claim_jobs-held names id rows' (claim_job-holds id rows))
      (claim_jobs-AllHeld names rows')

pub claim_jobs-pending :
    (names : List String) (rows : List Job)
    → length (claim_jobs names rows).0 + pending_all (claim_jobs names rows).1 ≡ pending_all rows
unfolding claim_jobs
claim_jobs-pending [] rows = omega arith
claim_jobs-pending (id ∷ names) rows =
    let (won, rows') = claim_job id rows in
    omega (
      arith,
      claim_job-pending id rows,
      claim_jobs-pending names rows',
      add_won-length won (claim_jobs names rows').0,
    )
