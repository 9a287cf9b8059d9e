-- ===== src/Reliability/States.antt =====
-- `FailoverState` and its closed transition table.
use decepti_forge.Base.{Bool, true, false}

pub data FailoverState : Type 0 where
  normal degraded failover_requested primary_fenced standby_promoting : FailoverState
  secondary_active recovery_validation failback_pending normal_restored : FailoverState

-- `can_transition`: membership in the row of `_TRANSITIONS`.
unfoldable pub can_transition : FailoverState → FailoverState → Bool
can_transition normal degraded = true
can_transition normal failover_requested = true
can_transition degraded normal = true
can_transition degraded failover_requested = true
can_transition failover_requested primary_fenced = true
can_transition failover_requested normal = true
can_transition primary_fenced standby_promoting = true
can_transition standby_promoting secondary_active = true
can_transition secondary_active recovery_validation = true
can_transition recovery_validation failback_pending = true
can_transition recovery_validation secondary_active = true
can_transition failback_pending normal_restored = true
can_transition normal_restored normal = true
can_transition _ _ = false
