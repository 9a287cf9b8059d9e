-- ===== src/Judge.antt =====
-- services/judge_quota.py: the per-session budgets of a judge sandbox.
-- Times are microseconds since the epoch; the counters live on the sandbox row.
pub mod Quota
pub mod Budget
pub mod Cooldown
mod Tests
