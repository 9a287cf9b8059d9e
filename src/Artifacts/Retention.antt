-- ===== src/Artifacts/Retention.antt =====
-- The retention of repositories/artifacts.py: `_batched_delete` and the purges of jobs, deliveries
-- and incidents. The fuel stands for the loop; a batch is the first rows that match, in the order
-- that the database returns them.
use decepti_forge.Base.{
  ℕ, zero, suc, ◌+◌, Bool, true, false, ◌&&◌, List, [], ◌∷◌, Option, none, some, if◌then◌else◌, ltb,
  ◌==◌, select, take, length,
}
use decepti_forge.Artifacts.Jobs.{Job, JobStatus, completed, failed}
use decepti_forge.Artifacts.Incidents.{Lifecycle, resolved, stale, IncidentRow}
use decepti_forge.Export.Worker.{Delivery, DeliveryStatus, delivered, dead_lettered}

module _ {ℓ} {A : Type ℓ} (matches : A → Bool) where
  -- The deletion of the first `n` rows that match.
  unfoldable pub delete_first : (n : ℕ) → List A → List A
  delete_first zero rows = rows
  delete_first (suc n) [] = []
  delete_first (suc n) (r ∷ rs) =
      let rest = delete_first n rs in
      let rest' = delete_first (suc n) rs in if matches r then rest else r ∷ rest'

  -- The loop of `_batched_delete`: the total and the rows, or none if the fuel runs out.
  unfoldable pub delete_batches : (fuel batch total : ℕ) → List A → Option (ℕ × List A)
  unfolding delete_first
  delete_batches zero batch total rows = none
  delete_batches (suc fuel) batch total rows =
      let n = length (take batch (select matches rows)) in
      let rows' = delete_first n rows in
      let rest = delete_batches fuel batch (total + n) rows' in
      if n == 0 then some (total, rows) else if ltb n batch then some (total + n, rows') else rest

  -- `_batched_delete`
  unfoldable pub batched_delete : (fuel batch : ℕ) → List A → Option (ℕ × List A)
  unfolding delete_batches
  batched_delete fuel batch rows = delete_batches fuel batch 0 rows

-- The conditions of the purges.
abbrev pub is_finished_job : (cutoff : ℕ) → Job → Bool
is_finished_job cutoff j = is_finished j.status && ltb j.created_at cutoff
  where
    is_finished : JobStatus → Bool
    is_finished completed = true
    is_finished failed = true
    is_finished _ = false

abbrev pub is_finished_delivery : (cutoff : ℕ) → Delivery → Bool
is_finished_delivery cutoff d = is_finished d.status && ltb d.created_at cutoff
  where
    is_finished : DeliveryStatus → Bool
    is_finished delivered = true
    is_finished dead_lettered = true
    is_finished _ = false

abbrev pub is_archivable : (cutoff : ℕ) → IncidentRow → Bool
is_archivable cutoff r = is_ended r.incident.lifecycle && ltb r.incident.last_seen cutoff
  where
    is_ended : Lifecycle → Bool
    is_ended resolved = true
    is_ended stale = true
    is_ended _ = false

-- `purge_reconstruction_jobs`
unfoldable pub purge_reconstruction_jobs :
    (fuel cutoff batch : ℕ) → List Job → Option (ℕ × List Job)
unfolding batched_delete
purge_reconstruction_jobs fuel cutoff batch = batched_delete (is_finished_job cutoff) fuel batch

-- `purge_integration_deliveries`
unfoldable pub purge_integration_deliveries :
    (fuel cutoff batch : ℕ) → List Delivery → Option (ℕ × List Delivery)
unfolding batched_delete
purge_integration_deliveries fuel cutoff batch =
    batched_delete (is_finished_delivery cutoff) fuel batch

-- `archive_incidents`
unfoldable pub archive_incidents :
    (fuel cutoff batch : ℕ) → List IncidentRow → Option (ℕ × List IncidentRow)
unfolding batched_delete
archive_incidents fuel cutoff batch = batched_delete (is_archivable cutoff) fuel batch
