-- ===== src/Deployment/Status.antt =====
-- `DeploymentStatus` and its closed transition table.
use decepti_forge.Base.{Bool, true, false}

pub data Status : Type 0 where
  draft awaiting_approval preview_stale reapproval_required approved rejected : Status
  deploying deployed deployed_unmonitored verification_failed failed_activation : Status
  failed cancelled retiring retired rollback_pending rolled_back expired : Status

-- `can_transition`: membership in the row of `_TRANSITIONS`.
unfoldable pub can_transition : Status → Status → Bool
can_transition draft awaiting_approval = true
can_transition draft cancelled = true
can_transition awaiting_approval approved = true
can_transition awaiting_approval rejected = true
can_transition awaiting_approval preview_stale = true
can_transition awaiting_approval cancelled = true
can_transition preview_stale reapproval_required = true
can_transition reapproval_required awaiting_approval = true
can_transition reapproval_required cancelled = true
can_transition approved deploying = true
can_transition approved preview_stale = true
can_transition approved cancelled = true
can_transition deploying deployed = true
can_transition deploying deployed_unmonitored = true
can_transition deploying verification_failed = true
can_transition deploying failed_activation = true
can_transition deploying failed = true
can_transition deploying cancelled = true
can_transition deployed retiring = true
can_transition deployed rollback_pending = true
can_transition deployed expired = true
can_transition deployed_unmonitored retiring = true
can_transition deployed_unmonitored rollback_pending = true
can_transition deployed_unmonitored expired = true
can_transition verification_failed rollback_pending = true
can_transition verification_failed retiring = true
can_transition failed_activation rollback_pending = true
can_transition failed_activation retiring = true
can_transition failed awaiting_approval = true
can_transition failed cancelled = true
can_transition retiring retired = true
can_transition retiring failed = true
can_transition rollback_pending rolled_back = true
can_transition rollback_pending failed = true
can_transition expired retiring = true
can_transition _ _ = false
