-- ===== src/Judge/Quota.antt =====
-- `JudgeQuotaService`: inspection, decision and consumption.
use decepti_forge.Base.{ℕ, ◌+◌, ◌-◌, ◌*◌, ◌/◌, Option, none, some, ltb, leb, if◌then◌else◌}

-- ANALYZE, INTERACT, EXPORT and RESET; `other` is any other text, for which the code raises
-- `ValueError`.
pub data Action : Type 0 where
  analyze interact export reset other : Action

-- The part of `JudgeSandboxRecord` that carries the accounting.
pub record Sandbox : Type 0 where
  pub analysis_runs : ℕ
  pub interactions : ℕ
  pub exports : ℕ
  pub resets : ℕ
  pub last_reset_at : Option ℕ

-- The settings that the service reads.
pub record Limits : Type 0 where
  pub max_analysis_runs : ℕ
  pub max_interactions : ℕ
  pub max_exports : ℕ
  pub reset_cooldown_seconds : ℕ

-- `QuotaDenial`, without its texts for people.
pub data Reason : Type 0 where
  budget_exhausted cooldown : Reason

pub record Denial : Type 0 where
  pub action : Action
  pub reason : Reason
  pub retry_after_seconds : Option ℕ

-- A denial, no denial, or the `ValueError` of an unknown action.
pub data Verdict : Type 0 where
  within : Verdict
  denied : Denial → Verdict
  unknown_action : Verdict

-- `QuotaState`
pub record State : Type 0 where
  pub used : ℕ
  pub limit : ℕ

-- `QuotaState.remaining`; the subtraction of numbers stops at 0, as `max(0, ...)` does.
unfoldable pub remaining : State → ℕ
remaining s = s.limit - s.used

-- One second, in microseconds.
abbrev pub second : ℕ
second = 1_000_000

-- `_limit`, with `none` for its `ValueError`.
abbrev pub limit_of : Limits → Action → Option ℕ
limit_of l analyze = some l.max_analysis_runs
limit_of l interact = some l.max_interactions
limit_of l export = some l.max_exports
limit_of l reset = none
limit_of l other = none

-- `_used`
abbrev pub used_of : Sandbox → Action → Option ℕ
used_of r analyze = some r.analysis_runs
used_of r interact = some r.interactions
used_of r export = some r.exports
used_of r reset = none
used_of r other = none

-- `state`
unfoldable pub state : Limits → Sandbox → Action → Option State
state l r a = elim (limit_of l a) [
  | none ↦ none
  | some n ↦ elim (used_of r a) [ none ↦ none | some u ↦ some (record { used = u; limit = n }) ]
]

-- `_check_reset`. The cooldown has passed when `last + cooldown` is not after `now`; the seconds
-- left are rounded down, and one is added.
unfoldable pub check_reset : Limits → Option ℕ → (now : ℕ) → Verdict
check_reset l none now = within
check_reset l (some last) now =
    let deadline = last + l.reset_cooldown_seconds * second in
    if leb l.reset_cooldown_seconds 0
    then within
    else (if leb deadline now
        then within
        else denied (record {
          action = reset;
          reason = cooldown;
          retry_after_seconds = some ((deadline - now) / second + 1);
        }))

abbrev pub check_budget : Action → Option ℕ → Option ℕ → Verdict
check_budget a (some limit) (some used) =
    if ltb used limit
    then within
    else denied (record { action = a; reason = budget_exhausted; retry_after_seconds = none })
check_budget a _ _ = unknown_action

-- `check`
unfoldable pub check : Limits → Sandbox → Action → (now : ℕ) → Verdict
unfolding check_reset
check l r reset now = check_reset l r.last_reset_at now
check l r a now = check_budget a (limit_of l a) (used_of r a)

-- `consume`, with `none` for its `ValueError`.
unfoldable pub consume : Sandbox → Action → (now : ℕ) → Option Sandbox
consume r analyze now = some (record r { analysis_runs = r.analysis_runs + 1 })
consume r interact now = some (record r { interactions = r.interactions + 1 })
consume r export now = some (record r { exports = r.exports + 1 })
consume r reset now = some (record r { resets = r.resets + 1; last_reset_at = some now })
consume r other now = none
