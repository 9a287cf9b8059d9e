-- ===== src/Reliability/Fencing.antt =====
-- `fencing.py`: who may write, cause side effects and run schedulers; and `is_ready` of
-- `degraded.py`. Deterministic tests of the settings.
use decepti_forge.Base.{ℕ, ◌≡◌, ◌≢◌, ◌↔◌, Bool, true, false, not, ◌&&◌, arith, ltb, if◌then◌else◌}

pub data ClusterRole : Type 0 where
  primary standby recovery : ClusterRole

pub record Runtime : Type 0 where
  pub cluster_role : ClusterRole
  pub maintenance_mode : Bool
  pub external_side_effects_enabled : Bool
  pub schedulers_enabled : Bool
  pub active_region_epoch : ℕ

-- The errors of the guards.
pub data Fence : Type 0 where
  maintenance inactive_region side_effects_disabled stale_epoch : Fence

pub data Gate : Type 0 where
  passed : Gate
  stopped : Fence → Gate

abbrev is_primary : ClusterRole → Bool
is_primary primary = true
is_primary _ = false

-- `Settings.is_active_write_region`
abbrev pub role_may_write : Runtime → Bool
role_may_write r = is_primary r.cluster_role

-- `fencing.is_active_write_region`
unfoldable pub is_active_write_region : Runtime → Bool
is_active_write_region r = role_may_write r && not r.maintenance_mode

unfoldable pub require_writes : Runtime → Gate
require_writes r =
    if r.maintenance_mode
    then stopped maintenance
    else (if not (role_may_write r) then stopped inactive_region else passed)

abbrev after_writes : Gate → Runtime → Gate
after_writes (stopped e) r = stopped e
after_writes passed r =
    if not r.external_side_effects_enabled then stopped side_effects_disabled else passed

unfoldable pub require_side_effects : Runtime → Gate
unfolding require_writes
require_side_effects r = after_writes (require_writes r) r

unfoldable pub scheduler_allowed : Runtime → Bool
scheduler_allowed r = r.schedulers_enabled && role_may_write r && not r.maintenance_mode

unfoldable pub check_epoch : Runtime → (claimed_epoch : ℕ) → Gate
check_epoch r claimed = if ltb claimed r.active_region_epoch then stopped stale_epoch else passed

-- The parts of `dependency_status` that readiness reads.
pub record Dependencies : Type 0 where
  pub database_ok : Bool
  pub encryption_ok : Bool
  pub auth_enabled : Bool
  pub monitor_signature_required : Bool
  pub replay_ok : Bool

unfoldable pub is_ready : Dependencies → Bool
is_ready d =
    if not d.database_ok
    then false
    else (if not d.encryption_ok
        then false
        else (if (d.auth_enabled && d.monitor_signature_required) && not d.replay_ok
            then false
            else true))

-- The three gates agree: writes pass exactly in the active write region, side effects and scheduled
-- jobs exactly where writes pass and their own switch is on.
pub gates_agree :
    (r : Runtime)
    → ((require_writes r ≡ passed) ↔ (is_active_write_region r ≡ true))
      × ((require_side_effects r ≡ passed)
          ↔ ((require_writes r ≡ passed) × (r.external_side_effects_enabled ≡ true)))
      × ((scheduler_allowed r ≡ true)
          ↔ ((require_writes r ≡ passed) × (r.schedulers_enabled ≡ true)))
unfolding require_side_effects is_active_write_region scheduler_allowed
gates_agree r = ground arith

-- Of two regions of which at most one has the primary role, at most one passes any of the gates:
-- if one may write, the other may neither write, nor cause side effects, nor run schedulers.
pub no_split_brain :
    (r s : Runtime)
    → ((r.cluster_role ≡ primary) → ¬ (s.cluster_role ≡ primary))
    → require_writes r ≡ passed
    → (require_writes s ≢ passed)
      × (require_side_effects s ≢ passed)
      × (scheduler_allowed s ≡ false)
unfolding require_side_effects scheduler_allowed
no_split_brain r s one writes = ground arith

-- A service that reports ready has its database and its encryption, and its replay protection
-- wherever signed ingestion is enforced.
pub is_ready_safe :
    (d : Dependencies)
    → is_ready d ≡ true
    → (d.database_ok ≡ true)
      × (d.encryption_ok ≡ true)
      × ((d.auth_enabled && d.monitor_signature_required && not d.replay_ok) ≡ false)
unfolding is_ready
is_ready_safe d h = ground arith
