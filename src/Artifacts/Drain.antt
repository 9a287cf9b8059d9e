-- ===== src/Artifacts/Drain.antt =====
-- The worker empties the queue.
use decepti_forge.Base.{
  IsDistinct, ℕ, zero, suc, ◌+◌, ◌≤◌, ◌<◌, ◌≡◌, refl, sym, ◌∙◌, ap, subst, String, Bool, true, List,
  [], ◌∷◌, Option, none, some, ◌==◌, arith, length-select, All-map, Bool-cases, inl, inr,
}
use decepti_forge.Alerting.Types.{Alert}
use decepti_forge.Artifacts.Jobs.{
  Job, is_pending, is_candidate, claim_reconstruction_jobs, complete_job, pending_count,
}
use decepti_forge.Artifacts.Incidents.{Incident}
use decepti_forge.Artifacts.Queue.{IsUnique, ids}
use decepti_forge.Artifacts.Held.{
  is_held, AllHeld, complete_job-held, complete_job-pending, complete_job-pending_of,
}
use decepti_forge.Artifacts.Worker.{Store, process_job, process_jobs, run_once, drain}
use decepti_forge.Artifacts.Steps.{wanted, claims-IsStep}

wanted_count : (f : Option String) (rows : List Job) → pending_count f rows ≡ wanted f rows
unfolding pending_count
wanted_count none rows = length-select (λ (j : Job). is_pending j.status) rows
wanted_count (some org) rows = length-select (is_candidate org) rows

complete_job-ids :
    (now : ℕ) (id : String) (ok : Bool) (rows : List Job)
    → ids (complete_job now id ok rows) ≡ ids rows
unfolding complete_job
complete_job-ids now id ok [] = refl
complete_job-ids now id ok (j ∷ js) = ground (arith, complete_job-ids now id ok js)

complete_job-wanted :
    (f : Option String) (now : ℕ) (id : String) (ok : Bool) (rows : List Job)
    → is_held id rows ≡ true
    → wanted f (complete_job now id ok rows) ≡ wanted f rows
complete_job-wanted none now id ok rows h = complete_job-pending now id ok rows h
complete_job-wanted (some org) now id ok rows h = complete_job-pending_of now org id ok rows h

module _ (reconstruct : String → List Alert → Option (List Incident)) (too_large : Incident → Bool)
    (batch : ℕ) where
  process_job-jobs :
      (now : ℕ) (j : Job) (s : Store)
      → (ok : Bool) × ((process_job reconstruct too_large batch now j s).jobs
          ≡ complete_job now j.job_id ok s.jobs)
  unfolding process_job
  process_job-jobs now j s = (_, refl)

  -- Processing jobs that are held leaves the pending jobs as they are.
  process_jobs-wanted :
      (now : ℕ) (f : Option String) (jobs : List Job) (s : Store)
      → AllHeld jobs s.jobs
      → let s' = process_jobs reconstruct too_large batch now jobs s in
        (wanted f s'.jobs ≡ wanted f s.jobs) × (ids s'.jobs ≡ ids s.jobs)
  unfolding process_jobs process_job
  process_jobs-wanted now f [] s h = (refl, refl)
  process_jobs-wanted now f (j ∷ js) s (h, hs) =
      let s₁ = process_job reconstruct too_large batch now j s in
      let (ok, completed) = process_job-jobs now j s in
      let held : AllHeld js s₁.jobs = rw completed (
        All-map (λ (i : Job). is_held i.job_id s.jobs ≡ true)
          (λ (i : Job). is_held i.job_id (complete_job now j.job_id ok s.jobs) ≡ true) js
          (λ i h'. complete_job-held now j.job_id i.job_id ok s.jobs h') hs) in
      let (same, names) = process_jobs-wanted now f js s₁ held in
      (
        same ∙ ap (wanted f) completed ∙ complete_job-wanted f now j.job_id ok s.jobs h,
        names ∙ ap ids completed ∙ complete_job-ids now j.job_id ok s.jobs,
      )

  -- One batch: the jobs processed and those left are the jobs that were wanted.
  run_once_lem :
      (now : ℕ) (f : Option String) (s : Store)
      → 1 ≤ batch
      → IsUnique s.jobs
      → let (n, s') = run_once reconstruct too_large batch now f s in
        (n + wanted f s'.jobs ≡ wanted f s.jobs) × IsUnique s'.jobs × (n ≡ 0 → wanted f s.jobs ≡ 0)
  unfolding run_once
  run_once_lem now f s pos u =
      let (jobs, rows) = claim_reconstruction_jobs batch f s.jobs in
      let step = claims-IsStep batch f s.jobs pos u in
      let (same, names) = process_jobs-wanted now f jobs (record s { jobs = rows }) step.held in
      (omega (arith, same, step.counted), subst IsDistinct (sym names) step.unique, step.progress)

  drain_lem :
      (fuel now : ℕ) (f : Option String) (s : Store)
      → 1 ≤ batch
      → IsUnique s.jobs
      → wanted f s.jobs < fuel
      → (s' : Store) × (drain reconstruct too_large batch fuel now f s ≡ some (wanted f s.jobs, s'))
        × (wanted f s'.jobs ≡ 0)
  unfolding drain
  drain_lem zero now f s pos u enough = absurd (omega (arith, enough))
  drain_lem (suc fuel) now f s pos u enough =
      let (n, s₁) = run_once reconstruct too_large batch now f s in
      let (counted, unique, progress) = run_once_lem now f s pos u in
      elim (Bool-cases (n == 0)) [
        | inl idle ↦
            let zero_won : n ≡ 0 = ground (arith, idle) in
            (s₁, rw (idle, progress zero_won) refl, omega (arith, counted, progress zero_won))
        | inr busy ↦
            let (s₂, ended, empty) =
              drain_lem fuel now f s₁ pos unique (ground (arith, busy, counted, enough)) in
            (s₂, rw (busy, ended, counted) refl, empty)
      ]

  -- The worker's `drain` ends, and processes every pending job of the organization it is asked for,
  -- or of all, exactly once: with a positive batch, unique job ids and more fuel than there are
  -- pending jobs, it returns the number of jobs that were pending, and none of them is pending any
  -- more, whatever the engine does or raises.
  pub drain_empties :
      (fuel now : ℕ) (f : Option String) (s : Store)
      → 1 ≤ batch
      → IsUnique s.jobs
      → pending_count f s.jobs < fuel
      → (s' : Store) × (drain reconstruct too_large batch fuel now f s
          ≡ some (pending_count f s.jobs, s'))
        × (pending_count f s'.jobs ≡ 0)
  drain_empties fuel now f s pos u enough =
      let (s', ended, empty) =
        drain_lem fuel now f s pos u (rw (sym (wanted_count f s.jobs)) enough) in
      (s', rw (wanted_count f s.jobs) ended, wanted_count f s'.jobs ∙ empty)
