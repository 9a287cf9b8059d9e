-- ===== src/Deployment/Requesting.antt =====
-- services/deployment/service.py: how execute opens a pull request, and verify of a closed one.
use decepti_forge.Base.{ℕ, String, ◌≡◌, Bool, true, false, some, arith, ◌⊎◌}
use decepti_forge.Deployment.Status.{Status, can_transition, retiring, rollback_pending}
use decepti_forge.Deployment.Rows.{Deployment, Preview, transition}
use decepti_forge.Deployment.Service.{Client, PullRequest, execute, fail_with, invalid_transition}
use decepti_forge.Deployment.Verify.{verify, verify_known, verify_request}

module _ {W : Type 0} (client : Client W) where
  -- A second execution of a deployment that has a pull request opens no other: it reads the base
  -- branch at most, makes no other call of the client, and keeps the number of the request, whether
  -- it then ends or fails.
  pub execute_once :
      (o n : ℕ) (safe : Bool) (d : Deployment) (p : Preview) (w : W)
      → d.pull_request ≡ some n
      → d.preview ≡ some p
      → ((execute client o safe d w).row.pull_request ≡ some n)
        × (((execute client o safe d w).world ≡ w)
            ⊎ ((execute client o safe d w).world
                ≡ (client.get_branch d.repository p.base_branch w).1))
  unfolding execute fail_with transition
  execute_once o n safe d p w known planned = ground (arith, known, planned)

  module _ (sha : String → String) (now : ℕ) where
    -- A retirement or rollback whose pull request was closed without a merge is stuck: each
    -- verification raises `InvalidTransitionError` and leaves the row as it was, since the table
    -- lets neither status be cancelled.
    pub closed_removal_stuck :
        (d : Deployment) (n : ℕ) (pr : PullRequest) (w : W)
        → (d.status ≡ retiring) ⊎ (d.status ≡ rollback_pending)
        → d.pull_request ≡ some n
        → (client.get_pull_request d.repository n w).0 ≡ some pr
        → pr.closed ≡ true
        → pr.merged ≡ false
        → ((verify sha client now d.organization d w).answer ≡ invalid_transition)
          × ((verify sha client now d.organization d w).row ≡ d)
    unfolding verify verify_known verify_request transition can_transition
    closed_removal_stuck d n pr w removing known found closed unmerged = ground arith
