-- ===== src/Export/Retry.antt =====
-- services/integrations/retry.py. A delay is in milliseconds; the fraction of `_jitter` (a digest of
-- the key and the attempt) times the spread is the parameter `jitter`.
use decepti_forge.Base.{
  ℕ, zero, suc, ◌+◌, ◌*◌, ◌-◌, ◌/◌, ◌^◌, ◌≤◌, min, max, ◌≡◌, ◌&&◌, ◌||◌, Option, none, some,
  if◌then◌else◌, leb, ltb, ◌==◌, arith,
}

pub data RetryDecision : Type 0 where
  success retry permanent : RetryDecision

unfoldable pub classify_status : ℕ → RetryDecision
classify_status status =
    if leb 200 status && ltb status 300
    then success
    else (if (status == 408 || status == 429) || (leb 500 status && leb status 599)
        then retry
        else permanent)

-- `parse_retry_after`, after the reading of the text as a number; a negative one counts as 0.
unfoldable pub parse_retry_after : Option ℕ → Option ℕ
parse_retry_after none = none
parse_retry_after (some seconds) = some (max 0 (min seconds 3600))

-- The delay without jitter: `min(cap, base * 2 ** max(0, attempt - 1))`.
unfoldable pub raw_backoff : (attempt : ℕ) → ℕ
raw_backoff attempt = 1000 * min 900 (2 * 2 ^ (attempt - 1))

unfoldable pub backoff : (jitter : ℕ → ℕ → ℕ) → (attempt : ℕ) → ℕ
unfolding raw_backoff
backoff jitter attempt =
    let raw = raw_backoff attempt in raw + jitter attempt (min (raw / 4) 30_000)

pow_pos : (n : ℕ) → 1 ≤ 2 ^ n
pow_pos zero = omega arith
pow_pos (suc n) = omega (arith, pow_pos n)

pow_mono : (m n : ℕ) → 2 ^ m ≤ 2 ^ (m + n)
pow_mono m zero = let same : m + 0 ≡ m = omega arith in rw same (omega arith)
pow_mono m (suc n) =
    let next : m + suc n ≡ suc (m + n) = omega arith in rw next (omega (arith, pow_mono m n))

pow_pred_mono : (m n : ℕ) → 2 ^ (m - 1) ≤ 2 ^ (m + n - 1)
pow_pred_mono zero n = omega (arith, pow_pos (zero + n - 1))
pow_pred_mono (suc m) n =
    let left : suc m - 1 ≡ m = omega arith in
    let right : suc m + n - 1 ≡ m + n = omega arith in rw (left, right) (pow_mono m n)

-- A retry waits for two seconds at least and for 930 at most, and the delay without jitter never
-- shrinks from one attempt to a later one, if the jitter stays within its spread.
pub backoff_bounds :
    (jitter : ℕ → ℕ → ℕ) (attempt more : ℕ)
    → ((a s : ℕ) → jitter a s ≤ s)
    → (2_000 ≤ backoff jitter attempt)
      × (backoff jitter attempt ≤ 930_000)
      × (raw_backoff attempt ≤ raw_backoff (attempt + more))
unfolding backoff raw_backoff
backoff_bounds jitter attempt more within = omega (
  arith,
  within attempt (min (1000 * min 900 (2 * 2 ^ (attempt - 1)) / 4) 30_000),
  pow_pos (attempt - 1),
  pow_pred_mono attempt more,
)
