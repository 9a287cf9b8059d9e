-- ===== src/Deployment/Removal.antt =====
-- `DeploymentService.retire` and `rollback`: the pull request that removes the decoys.
use decepti_forge.Base.{ℕ, String, ◌==◌, text_append, [], Option, none, some, if◌then◌else◌, map}
use decepti_forge.Deployment.Status.{failed, retiring, rollback_pending}
use decepti_forge.Deployment.Rows.{Deployment, transition, add_audit, set_tripwire_status}
use decepti_forge.Deployment.Service.{Client, Run, not_found, finish, unchanged, path_of}

abbrev pub default_branch : String
default_branch = "main"

-- The handler of the client's error.
unfoldable pub removal_failed : {W : Type 0} → Deployment → W → Run W
unfolding transition
removal_failed d w =
    finish d (transition failed (λ r. record r { failure_code = some "provider_error" }) d) (λ r. r)
      w

module _ {W : Type 0} (client : Client W) where
  removal_opened : Deployment → (branch : String) → Option ℕ × W → Run W
  unfolding removal_failed
  removal_opened d branch (none, w) = removal_failed d w
  removal_opened d branch (some n, w) =
      unchanged
        (add_audit "pr_created" (record d { pull_request = some n; source_branch = branch })) w

  removal_committed : Deployment → (branch : String) → Option String × W → Run W
  unfolding removal_failed removal_opened
  removal_committed d branch (none, w) = removal_failed d w
  removal_committed d branch (some sha, w) =
      removal_opened d branch (client.open_pull_request d.repository branch default_branch w)

  removal_branched : Deployment → (branch : String) → Option String × W → Run W
  unfolding removal_failed removal_committed
  removal_branched d branch (none, w) = removal_failed d w
  removal_branched d branch (some sha, w) =
      removal_committed d branch
        (client.commit_files d.repository branch [] (map path_of d.items) w)

  removal_based : Deployment → (branch : String) → Option String × W → Run W
  unfolding removal_failed removal_branched
  removal_based d branch (none, w) = removal_failed d w
  removal_based d branch (some base, w) =
      removal_branched d branch (client.create_branch d.repository branch base w)

  -- From the disabling of the tripwires on.
  unfoldable pub start_removal : (kind to : String) → Deployment → W → Run W
  unfolding removal_based
  start_removal kind to d w =
      removal_based
        (add_audit (text_append kind "_started")
          (record d { wires = set_tripwire_status to d.wires }))
        (text_append "deceptiforge/" (text_append kind (text_append "-" d.number)))
        (client.get_branch d.repository default_branch w)

  -- `retire`: `_open_removal` of a record that is retiring.
  unfoldable pub retire : (organization : ℕ) → Deployment → W → Run W
  unfolding start_removal
  retire organization d w =
      if d.organization == organization
      then elim d.status [ retiring ↦ start_removal "retire" "retired" d w | _ ↦ unchanged d w ]
      else record { answer = not_found; row = d; world = w }

  -- `rollback`: `_open_removal` of a record whose rollback is pending.
  unfoldable pub rollback : (organization : ℕ) → Deployment → W → Run W
  unfolding start_removal
  rollback organization d w =
      if d.organization == organization
      then elim d.status [
        | rollback_pending ↦ start_removal "rollback" "disabled" d w
        | _ ↦ unchanged d w
      ]
      else record { answer = not_found; row = d; world = w }
