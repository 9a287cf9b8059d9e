-- ===== src/Export/Jobs.antt =====
-- `DeliveryWorker.run_once` inside `job_session` of jobs/_runtime.py: the claims and the attempts of
-- one job are one transaction, which an escaping error rolls back.
use decepti_forge.Base.{ℕ, ◌==◌, Bool, List, [], ◌∷◌, Option, none, some, if◌then◌else◌}
use decepti_forge.Export.Worker.{Delivery, Integration, Result, Settings, process}
use decepti_forge.Export.Claims.{claim_deliveries}

-- The rows of deliveries, and the integrations by their numbers.
abbrev pub State : Type 0
State = List Delivery × (ℕ → Option Integration)

abbrev pub set_integration :
    (ℕ → Option Integration) → ℕ → Option Integration → ℕ → Option Integration
set_integration t n i m = if m == n then i else t m

-- What a job meets: its readings of the clock at the start and at the claim, its batch size and lease,
-- and for each delivery the check of its endpoint and the answer of its destination.
pub record Job : Type 0 where
  pub now : ℕ
  pub claimed_at : ℕ
  pub limit : ℕ
  pub lease : ℕ
  pub endpoint_ok : ℕ → Bool
  pub answer : ℕ → Option Result

abbrev pub with_row : Delivery → Option State → Option State
with_row d none = none
with_row d (some (rows, t)) = some (d ∷ rows, t)

abbrev pub written :
    (ℕ → Option Integration)
    → List Delivery
    → Delivery
    → Option (Delivery × Option Integration)
    → Option State
written t rest d none = none
written t rest d (some (d', i)) = some (d' ∷ rest, set_integration t d.integration_id i)

abbrev pub then_do : Option State → (State → Option State) → Option State
then_do none f = none
then_do (some st) f = f st

abbrev pub with_claimed : List ℕ → Option State → Option (List ℕ × State)
with_claimed claimed none = none
with_claimed claimed (some st) = some (claimed, st)

abbrev pub committed : State → Option (List ℕ × State) → State
committed before none = before
committed before (some (claimed, after)) = after

module _ (s : Settings) (jitter : ℕ → ℕ → ℕ) where
  -- One attempt on the row with a number; none where an error escapes.
  unfoldable pub process_row :
      Job → (number : ℕ) → (ℕ → Option Integration) → List Delivery → Option State
  unfolding process
  process_row j n t [] = some ([], t)
  process_row j n t (d ∷ ds) =
      let rest = process_row j n t ds in
      if d.number == n
      then written t ds d
          (process s jitter j.now (j.endpoint_ok n) (j.answer n) (t d.integration_id) d)
      else with_row d rest

  -- The loop over the claimed deliveries.
  unfoldable pub process_claimed : Job → List ℕ → State → Option State
  unfolding process_row
  process_claimed j [] st = some st
  process_claimed j (n ∷ ns) st =
      then_do (process_row j n st.1 st.0) (λ st'. process_claimed j ns st')

  -- `run_once`: the claimed deliveries and the state, or none where an error escapes.
  unfoldable pub run_once : Job → State → Option (List ℕ × State)
  unfolding claim_deliveries process_claimed
  run_once j (rows, t) =
      let (claimed, rows') = claim_deliveries j.claimed_at j.limit j.lease rows in
      with_claimed claimed (process_claimed j claimed (rows', t))

  -- A job: what it commits, which is the state before it where an error escapes.
  unfoldable pub run_job : Job → State → State
  unfolding run_once
  run_job j st = committed st (run_once j st)

  unfoldable pub run_jobs : List Job → State → State
  unfolding run_job
  run_jobs [] st = st
  run_jobs (j ∷ js) st = run_jobs js (run_job j st)
