-- ===== src/Deployment/Requests.antt =====
-- The requests of api/deployments.py that move a deployment. The caller's scopes are checked before
-- these handlers run; `actor` is the caller's key.
use decepti_forge.Base.{ℕ, String, ◌==◌, Bool, false, ◌&&◌, Option, none, some, if◌then◌else◌}
use decepti_forge.Deployment.Status.{
  Status, awaiting_approval, approved, rejected, deploying, retiring, rollback_pending,
}
use decepti_forge.Deployment.Rows.{
  Deployment, transition, add_audit, add_approval, clear_job, enqueue_job,
}

-- The settings that the handlers read.
pub record Settings : Type 0 where
  pub enabled : Bool
  pub separate_approver : Bool

-- The summary of the new row, or the status code of an `HTTPException`.
pub data Reply : Type 0 where
  summary : Reply
  refused : (status_code : ℕ) → Reply

-- A handler's end, after `_transition`.
abbrev pub reply : Deployment → Option Deployment → (Deployment → Deployment) → Reply × Deployment
reply d none then' = (refused 409, d)
reply d (some d') then' = (summary, then' d')

-- `_require_enabled` and `_get`
abbrev pub guarded :
    Settings → (organization : ℕ) → Deployment → Reply × Deployment → Reply × Deployment
guarded s organization d handled =
    if s.enabled
    then (if d.organization == organization then handled else (refused 404, d))
    else (refused 404, d)

-- `get_db` around a handler: the session is committed after a reply, and rolled back after an
-- exception.
unfoldable pub served : Deployment → Reply × Deployment → Reply × Deployment
served d (summary, d') = (summary, d')
served d (refused code, d') = (refused code, d)

abbrev pub same_actor : Option ℕ → Option ℕ → Bool
same_actor (some a) (some b) = a == b
same_actor _ _ = false

module _ (s : Settings) (organization : ℕ) (actor : Option ℕ) where
  -- `submit_deployment`
  unfoldable pub submit_deployment : Deployment → Reply × Deployment
  unfolding transition
  submit_deployment d =
      guarded s organization d
        (reply d (transition awaiting_approval (λ r. r) d) (add_audit "submitted"))

  -- `approve_deployment`
  unfoldable pub approve_deployment : Deployment → Reply × Deployment
  unfolding transition
  approve_deployment d = guarded s organization d (
      if s.separate_approver && same_actor actor d.requested_by
      then (refused 403, add_audit "permission_denied" d)
      else reply d (transition approved (λ r. record r { approved_by = actor }) d)
          (λ r. add_audit "approved" (add_approval actor "approved" r)))

  -- `reject_deployment`
  unfoldable pub reject_deployment : Deployment → Reply × Deployment
  unfolding transition
  reject_deployment d = guarded s organization d (
      reply d (transition rejected (λ r. r) d)
        (λ r. add_audit "rejected" (add_approval actor "rejected" r)))

  -- `_lifecycle_action`
  unfoldable pub lifecycle_action : Status → (job event : String) → Deployment → Reply × Deployment
  unfolding transition clear_job enqueue_job
  lifecycle_action target job event d = guarded s organization d (
      reply d (transition target (λ r. r) d)
        (λ r. add_audit event (enqueue_job job (clear_job job r))))

  -- `deploy_deployment`, `retire_deployment` and `rollback_deployment`
  abbrev pub deploy_deployment : Deployment → Reply × Deployment
  unfolding lifecycle_action
  deploy_deployment d = lifecycle_action deploying "execute" "deployment_started" d

  abbrev pub retire_deployment : Deployment → Reply × Deployment
  unfolding lifecycle_action
  retire_deployment d = lifecycle_action retiring "retire" "retirement_started" d

  abbrev pub rollback_deployment : Deployment → Reply × Deployment
  unfolding lifecycle_action
  rollback_deployment d = lifecycle_action rollback_pending "rollback" "rollback_started" d
