-- ===== src/Judge/Cooldown.antt =====
-- The Retry-After of a refused reset is honest.
use decepti_forge.Base.{ℕ, ◌+◌, ◌-◌, ◌*◌, ◌≤◌, ◌<◌, ◌≡◌, some, arith}
use decepti_forge.Judge.Quota.{
  Sandbox, Limits, Verdict, within, denied, cooldown, reset, check, check_reset, second,
}

abbrev pub refused_for : ℕ → Verdict
refused_for wait =
    denied (record { action = reset; reason = cooldown; retry_after_seconds = some wait })

check_reset-some :
    (l : Limits) (now wait last : ℕ)
    → check_reset l (some last) now ≡ refused_for wait
    → (0 < wait)
      × (check_reset l (some last) (now + wait * second) ≡ within)
      × (now + (wait - 1) * second ≤ last + l.reset_cooldown_seconds * second)
unfolding check_reset
check_reset-some l now wait last h = (ground arith, ground arith, ground arith)

-- A reset that is refused with a Retry-After of `wait` seconds is allowed when the caller has
-- waited that long, and the wait ends at most one second after the end of the cooldown.
pub check_reset_wait :
    (l : Limits) (r : Sandbox) (now wait last : ℕ)
    → r.last_reset_at ≡ some last
    → check l r reset now ≡ refused_for wait
    → (0 < wait)
      × (check l r reset (now + wait * second) ≡ within)
      × (now + (wait - 1) * second ≤ last + l.reset_cooldown_seconds * second)
check_reset_wait l r now wait last e h =
    unfold check in rw e (check_reset-some l now wait last (rw e at h))
