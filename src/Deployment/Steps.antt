-- ===== src/Deployment/Steps.antt =====
-- What one operation may change: the status moves along at most one edge of the table, and outside
-- the approval nothing changes who asked and who approved.
use decepti_forge.Base.{
  ℕ, String, ◌≡◌, Bool, true, false, not, ◌||◌, List, [], ◌∷◌, ◌++◌, arith, ◌⊎◌, str_eq,
}
use decepti_forge.Deployment.Status.{Status, approved, can_transition}
use decepti_forge.Deployment.Rows.{Deployment, Approval, transition}
use decepti_forge.Deployment.Service.{Client, execute, fail_with}
use decepti_forge.Deployment.Verify.{
  verify, verify_merged, verify_deploy, verify_removal, activate, verify_request, verify_known,
}
use decepti_forge.Deployment.Removal.{retire, rollback, start_removal, removal_failed}

abbrev pub is_approved : Status → Bool
is_approved approved = true
is_approved _ = false

abbrev pub is_approval : Approval → Bool
is_approval a = str_eq a.decision "approved"

-- Whether an approval stands among the rows.
unfoldable pub has_approval : List Approval → Bool
has_approval [] = false
has_approval (a ∷ as') = is_approval a || has_approval as'

pub has_approval-append :
    (l : List Approval) (a : Approval)
    → has_approval (l ++ a ∷ []) ≡ has_approval l || is_approval a
unfolding has_approval
has_approval-append [] a = ground arith
has_approval-append (b ∷ l) a = ground (arith, has_approval-append l a)

-- The row after an operation that is no approval.
pub record IsStep (d d' : Deployment) : Type 0 where
  pub edge : (d'.status ≡ d.status) ⊎ (can_transition d.status d'.status ≡ true)
  pub no_approval : (not (is_approved d'.status) || is_approved d.status) ≡ true
  pub same_requester : d'.requested_by ≡ d.requested_by
  pub same_approver : d'.approved_by ≡ d.approved_by
  pub kept_approval : (not (has_approval d.approvals) || has_approval d'.approvals) ≡ true
  pub same_owner : d'.organization ≡ d.organization

module _ {W : Type 0} (client : Client W) where
  pub execute-IsStep :
      (o : ℕ) (safe : Bool) (d : Deployment) (w : W) → IsStep d (execute client o safe d w).row
  unfolding execute fail_with transition
  execute-IsStep o safe d w = ground arith

  pub retire-IsStep : (o : ℕ) (d : Deployment) (w : W) → IsStep d (retire client o d w).row
  unfolding retire start_removal removal_failed transition
  retire-IsStep o d w = ground arith

  pub rollback-IsStep : (o : ℕ) (d : Deployment) (w : W) → IsStep d (rollback client o d w).row
  unfolding rollback start_removal removal_failed transition
  rollback-IsStep o d w = ground arith

  pub verify-IsStep :
      (sha : String → String) (now o : ℕ) (d : Deployment) (w : W)
      → IsStep d (verify sha client now o d w).row
  unfolding verify verify_merged verify_deploy verify_removal activate verify_request verify_known
      transition
  verify-IsStep sha now o d w = ground arith
