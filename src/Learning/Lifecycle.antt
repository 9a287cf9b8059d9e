-- ===== src/Learning/Lifecycle.antt =====
-- What a version has behind it when it is active.
use decepti_forge.Base.{
  ℕ, String, ◌≡◌, ◌≢◌, ◌↔◌, refl, Bool, true, false, List, [], ◌∷◌, Option, some, arith, ◌⊎◌,
  str_eq_iff,
}
use decepti_forge.Learning.Versions.{
  organization, ModelStatus, candidate, approved, active, rejected, rolled_back, archived,
  transition_allowed, VersionView, Action, to, approve, activate, rollback,
  ensure_same_organization,
}

-- An activation succeeds exactly for a version of the organization's own that is approved or was
-- rolled back, targets the running feature schema and preserved the safety constraints; asking for
-- no approval makes no difference.
pub activate_iff :
    (schema : String) (v : VersionView) (o : ℕ) (require_approval : Bool)
    → (activate schema v o require_approval ≡ to active) ↔ (
        (v.scope ≡ organization)
        × (v.organization_id ≡ some o)
        × ((v.status ≡ approved) ⊎ (v.status ≡ rolled_back))
        × (v.feature_schema ≡ schema)
        × (v.safety_preserved ≡ true))
unfolding activate ensure_same_organization transition_allowed
activate_iff schema v o req = (
  λ h. ground (arith, str_eq_iff v.feature_schema schema),
  λ h. ground (arith, str_eq_iff v.feature_schema schema),
)

-- A review: an action that a caller of an organization takes on a version.
pub data Review : Type 0 where
  ask_approve : (organization : ℕ) (approver : Option ℕ) → Review
  ask_activate : (organization : ℕ) (require_approval : Bool) → Review
  ask_rollback : (organization : ℕ) (has_reason : Bool) → Review

unfoldable pub outcome : String → Review → VersionView → Action
outcome schema (ask_approve o a) v = approve v o a
outcome schema (ask_activate o r) v = activate schema v o r
outcome schema (ask_rollback o r) v = rollback v o r

-- The version after an action: the status that the action returned is stored.
abbrev pub stored : VersionView → Action → VersionView
stored v (to s) = record v { status = s }
stored v _ = v

unfoldable pub review_all : String → List Review → VersionView → VersionView
review_all schema [] v = v
review_all schema (r ∷ rs) v = review_all schema rs (stored v (outcome schema r v))

abbrev pub is_dead : ModelStatus → Bool
is_dead rejected = true
is_dead archived = true
is_dead candidate = true
is_dead _ = false

review-dead :
    (schema : String) (r : Review) (v : VersionView)
    → is_dead v.status ≡ true
    → stored v (outcome schema r v) ≡ v
unfolding outcome approve activate rollback ensure_same_organization transition_allowed
review-dead schema r v h = ground arith

-- No sequence of approvals, activations and rollbacks moves a version that is rejected, archived or
-- still a candidate: a candidate has to be put under review first.
pub rejected_never_active :
    (schema : String) (rs : List Review) (v : VersionView)
    → is_dead v.status ≡ true
    → review_all schema rs v ≡ v
unfolding review_all
rejected_never_active schema [] v h = refl
rejected_never_active schema (r ∷ rs) v h =
    rw (review-dead schema r v h) (rejected_never_active schema rs v h)

-- An approval never comes from the known requester of the version.
pub approve_distinct :
    (v : VersionView) (o approver requester : ℕ)
    → v.requested_by ≡ some requester
    → approve v o (some approver) ≡ to approved
    → approver ≢ requester
unfolding approve ensure_same_organization transition_allowed
approve_distinct v o approver requester known granted = ground arith
