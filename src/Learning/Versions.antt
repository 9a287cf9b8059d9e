-- ===== src/Learning/Versions.antt =====
-- services/learning/versions.py: the reviewed lifecycle of calibration models.
use decepti_forge.Base.{
  ℕ, String, ◌==◌, Bool, true, false, not, ◌&&◌, Option, none, some, if◌then◌else◌, str_eq,
}

pub data ModelScope : Type 0 where
  global organization : ModelScope

pub data ModelStatus : Type 0 where
  candidate under_review approved active rejected rolled_back archived : ModelStatus

-- `transition_allowed`: membership in the row of `ALLOWED_TRANSITIONS`.
unfoldable pub transition_allowed : ModelStatus → ModelStatus → Bool
transition_allowed candidate under_review = true
transition_allowed candidate rejected = true
transition_allowed under_review approved = true
transition_allowed under_review rejected = true
transition_allowed approved active = true
transition_allowed approved rejected = true
transition_allowed active rolled_back = true
transition_allowed active archived = true
transition_allowed rejected archived = true
transition_allowed rolled_back archived = true
transition_allowed rolled_back active = true
transition_allowed _ _ = false

-- `VersionView`
pub record VersionView : Type 0 where
  pub organization_id : Option ℕ
  pub scope : ModelScope
  pub status : ModelStatus
  pub feature_schema : String
  pub requested_by : Option ℕ
  pub safety_preserved : Bool

-- The status that the action leads to, or a `VersionTransitionError` with the check that failed.
pub data Action : Type 0 where
  to : ModelStatus → Action
  global_version other_organization not_permitted same_actor_error : Action
  not_approved schema_mismatch unsafe no_reason : Action

-- The checks, each in front of the rest of an action.
abbrev pub ensure_transition : ModelStatus → ModelStatus → Action → Action
ensure_transition current target rest =
    if transition_allowed current target then rest else not_permitted

abbrev pub owned_by : Option ℕ → ℕ → Bool
owned_by none o = false
owned_by (some n) o = n == o

unfoldable pub ensure_same_organization : VersionView → ℕ → Action → Action
ensure_same_organization v o rest = elim v.scope [
  | global ↦ global_version
  | organization ↦ if owned_by v.organization_id o then rest else other_organization
]

abbrev pub same_actor : Option ℕ → Option ℕ → Bool
same_actor (some a) (some b) = a == b
same_actor _ _ = false

abbrev pub ensure_approver_distinct : VersionView → Option ℕ → Action → Action
ensure_approver_distinct v approver rest =
    if same_actor v.requested_by approver then same_actor_error else rest

abbrev pub ensure_schema_compatible : VersionView → String → Action → Action
ensure_schema_compatible v current rest =
    if str_eq v.feature_schema current then rest else schema_mismatch

unfoldable pub approve : VersionView → (organization : ℕ) → (approver : Option ℕ) → Action
unfolding ensure_same_organization transition_allowed
approve v o approver =
    ensure_same_organization v o
      (ensure_transition v.status approved (ensure_approver_distinct v approver (to approved)))

abbrev pub is_approved : ModelStatus → Bool
is_approved approved = true
is_approved rolled_back = true
is_approved _ = false

-- `activate`; `schema` is `FEATURE_SCHEMA_VERSION`.
unfoldable pub activate :
    (schema : String) → VersionView → (organization : ℕ) → (require_approval : Bool) → Action
unfolding ensure_same_organization transition_allowed
activate schema v o require_approval = ensure_same_organization v o (
    if require_approval && not (is_approved v.status)
    then not_approved
    else ensure_transition v.status active
        (ensure_schema_compatible v schema (if v.safety_preserved then to active else unsafe)))

-- `rollback`; `has_reason` is whether the reason has a character that is no white space.
unfoldable pub rollback : VersionView → (organization : ℕ) → (has_reason : Bool) → Action
unfolding ensure_same_organization transition_allowed
rollback v o has_reason =
    ensure_same_organization v o
      (ensure_transition v.status rolled_back (if has_reason then to rolled_back else no_reason))
