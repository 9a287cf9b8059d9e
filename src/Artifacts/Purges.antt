-- ===== src/Artifacts/Purges.antt =====
-- The batched deletion ends and deletes exactly what matches.
use decepti_forge.Base.{
  ℕ, zero, suc, ◌+◌, ◌<◌, ◌≤◌, min, ◌≡◌, refl, Bool, true, false, not, List, [], ◌∷◌, some, ltb,
  ◌==◌, arith, select, take, length, count, length-take, length-select, Bool-cases, inl, inr,
}
use decepti_forge.Artifacts.Jobs.{Job, JobStatus, pending, claimed}
use decepti_forge.Artifacts.Incidents.{IncidentRow}
use decepti_forge.Artifacts.Retention.{
  delete_first, delete_batches, batched_delete, is_finished_job, is_archivable,
  purge_reconstruction_jobs, archive_incidents,
}

module _ {ℓ} {A : Type ℓ} (matches : A → Bool) where
  delete_first-keeps :
      (n : ℕ) (rows : List A)
      → select (λ r. not (matches r)) (delete_first matches n rows)
        ≡ select (λ r. not (matches r)) rows
  unfolding delete_first
  delete_first-keeps zero rows = refl
  delete_first-keeps (suc n) [] = refl
  delete_first-keeps (suc n) (r ∷ rs) =
      ground (arith, delete_first-keeps n rs, delete_first-keeps (suc n) rs)

  delete_first-count :
      (n : ℕ) (rows : List A)
      → n ≤ count matches rows
      → count matches (delete_first matches n rows) + n ≡ count matches rows
  unfolding delete_first
  delete_first-count zero rows le = omega arith
  delete_first-count (suc n) [] le = absurd (omega (arith, le))
  delete_first-count (suc n) (r ∷ rs) le =
      ground (arith, le, delete_first-count n rs, delete_first-count (suc n) rs)

  none_left : (rows : List A) → count matches rows ≡ 0 → select (λ r. not (matches r)) rows ≡ rows
  none_left [] h = refl
  none_left (r ∷ rs) h = ground (arith, h, none_left rs)

  delete_batches_lem :
      (fuel batch total : ℕ) (rows : List A)
      → 1 ≤ batch
      → count matches rows < fuel
      → delete_batches matches fuel batch total rows
        ≡ some (total + count matches rows, select (λ r. not (matches r)) rows)
  unfolding delete_batches
  delete_batches_lem zero batch total rows pos enough = absurd (omega (arith, enough))
  delete_batches_lem (suc fuel) batch total rows pos enough =
      let n = length (take batch (select matches rows)) in
      let rows' = delete_first matches n rows in
      let size : n ≡ min batch (count matches rows) =
        omega (arith, length-take batch (select matches rows), length-select matches rows) in
      let left = delete_first-count n rows (omega (arith, size)) in
      let kept = delete_first-keeps n rows in
      elim (Bool-cases (n == 0)) [
        | inl idle ↦
            let empty : count matches rows ≡ 0 = ground (arith, idle, size, pos) in
            rw (idle, empty, none_left rows empty) (ground arith)
        | inr busy ↦ elim (Bool-cases (ltb n batch)) [
          | inl short ↦
              let all : n ≡ count matches rows = ground (arith, short, size) in
              let same = none_left rows' (omega (arith, left, all)) in
              rw (busy, short) (ground (arith, all, same, kept))
          | inr full ↦
              let rest =
                delete_batches_lem fuel batch (total + n) rows' pos
                  (ground (arith, busy, left, enough)) in
              let sum : total + n + count matches rows' ≡ total + count matches rows =
                omega (arith, left) in
              rw (busy, full, rest, sum, kept)
        ]
      ]

  batched_delete_lem :
      (fuel batch : ℕ) (rows : List A)
      → 1 ≤ batch
      → count matches rows < fuel
      → batched_delete matches fuel batch rows
        ≡ some (count matches rows, select (λ r. not (matches r)) rows)
  unfolding batched_delete
  batched_delete_lem fuel batch rows pos enough =
      ground (arith, delete_batches_lem fuel batch 0 rows pos enough)

-- A job that a worker may still take or has taken.
abbrev pub is_open : JobStatus → Bool
is_open pending = true
is_open claimed = true
is_open _ = false

open_kept :
    (cutoff : ℕ) (rows : List Job)
    → count
        (λ (j : Job). is_open j.status)
        (select (λ (j : Job). not (is_finished_job cutoff j)) rows)
      ≡ count (λ (j : Job). is_open j.status) rows
open_kept cutoff [] = refl
open_kept cutoff (j ∷ js) = ground (arith, open_kept cutoff js)

-- The purge of jobs ends and deletes exactly the jobs that are done or failed and were created before
-- the cutoff, keeping the others in their order, and returns how many it deleted: with a positive
-- batch and more fuel than there are such jobs. No job that is pending or claimed is deleted.
pub purge_jobs_exact :
    (fuel cutoff batch : ℕ) (rows : List Job)
    → 1 ≤ batch
    → count (is_finished_job cutoff) rows < fuel
    → let kept = select (λ (j : Job). not (is_finished_job cutoff j)) rows in
      (purge_reconstruction_jobs fuel cutoff batch rows
        ≡ some (count (is_finished_job cutoff) rows, kept))
      × (count (λ (j : Job). is_open j.status) kept ≡ count (λ (j : Job). is_open j.status) rows)
unfolding purge_reconstruction_jobs
purge_jobs_exact fuel cutoff batch rows pos enough =
    (batched_delete_lem (is_finished_job cutoff) fuel batch rows pos enough, open_kept cutoff rows)

-- The archive ends and deletes exactly the incidents that are resolved or stale and were last seen
-- before the cutoff, and returns how many it deleted: with a positive batch and more fuel than there
-- are such incidents. An incident in another state is never deleted.
pub archive_exact :
    (fuel cutoff batch : ℕ) (rows : List IncidentRow)
    → 1 ≤ batch
    → count (is_archivable cutoff) rows < fuel
    → archive_incidents fuel cutoff batch rows
      ≡ some (
        count (is_archivable cutoff) rows,
        select (λ (r : IncidentRow). not (is_archivable cutoff r)) rows,
      )
unfolding archive_incidents
archive_exact fuel cutoff batch rows pos enough =
    batched_delete_lem (is_archivable cutoff) fuel batch rows pos enough
