-- ===== src/Capacity/Quota.antt =====
-- `MonitoringQuotaGate` of services/capacity.py: the counters, in memory or in Redis, and the
-- admission of one event. A key stands for its text, which names the organization, the kind of the
-- window and its number; times are in microseconds, the expiries of the counters in seconds. `admit`
-- reads the clock once, and each increment of a counter in memory reads it again.
use decepti_forge.Base.{
  ℕ, ◌+◌, ◌*◌, ◌-◌, ◌/◌, ◌%◌, max, String, Bool, true, false, not, ◌&&◌, Option, none, some,
  if◌then◌else◌, leb, ltb, ◌==◌, str_eq,
}
use decepti_forge.Alerting.Pipeline.{second}
use decepti_forge.Capacity.Limits.{TenantLimits}

pub record Key : Type 0 where
  pub tenant : String
  pub per_minute : Bool
  pub index : ℕ

abbrev pub bool_eq : Bool → Bool → Bool
bool_eq true b = b
bool_eq false b = not b

abbrev pub key_eq : Key → Key → Bool
key_eq a b = str_eq a.tenant b.tenant && (bool_eq a.per_minute b.per_minute && a.index == b.index)

-- `_memory`: the count and the expiry of a key.
abbrev pub Memory : Type 0
Memory = Key → Option (ℕ × ℕ)

abbrev pub set_key : Memory → Key → ℕ × ℕ → Memory
set_key m k entry j = if key_eq k j then some entry else m j

-- The entry that `_increment` adds to: a new one, or one that has not expired.
abbrev pub current : (now ttl : ℕ) → Option (ℕ × ℕ) → ℕ × ℕ
current now ttl none = (0, now + ttl)
current now ttl (some (value, expiry)) = if leb expiry now then (0, now + ttl) else (value, expiry)

-- What the gate needs of its counters, at a reading of the clock; none is an error of the Redis
-- client.
pub record Counters : Type 1 where
  pub State : Type 0
  pub increment : (clock : ℕ) → Key → (ttl : ℕ) → State → Option ℕ × State

-- `_increment` without Redis, with its own reading of the clock.
unfoldable pub increment_memory : (clock : ℕ) → Key → (ttl : ℕ) → Memory → Option ℕ × Memory
increment_memory clock k ttl m =
    let (value, expiry) = current (clock / second) ttl (m k) in
    (some (value + 1), set_key m k (value + 1, expiry))

abbrev pub in_memory : Counters
in_memory = record { State = Memory; increment = increment_memory }

-- `QuotaDecision`
pub record Decision : Type 0 where
  pub accepted : Bool
  pub retry_after : ℕ
  pub reason : Option String

-- The numbers of the current second and minute.
abbrev pub window_of : (per_minute : Bool) → (now : ℕ) → ℕ
window_of false now = now / second
window_of true now = now / (60 * second)

abbrev pub limit_of : (per_minute : Bool) → TenantLimits → ℕ
limit_of false l = l.burst
limit_of true l = l.events_per_second * 60

abbrev pub key_at : (per_minute : Bool) → (organization : String) → (now : ℕ) → Key
key_at kind org now = record { tenant = org; per_minute = kind; index = window_of kind now }

-- The part of `admit` behind the counters.
unfoldable pub decide : (now : ℕ) → TenantLimits → (burst sustained : Option ℕ) → Decision
decide now l none sustained = record {
  accepted = false;
  retry_after = 1;
  reason = some "quota_store_unavailable";
}
decide now l (some burst) none = record {
  accepted = false;
  retry_after = 1;
  reason = some "quota_store_unavailable";
}
decide now l (some burst) (some sustained) =
    if ltb (limit_of false l) burst
    then record { accepted = false; retry_after = 1; reason = some "burst_limit" }
    else if ltb (limit_of true l) sustained
    then record {
      accepted = false;
      retry_after = max 1 (60 - now / second % 60);
      reason = some "sustained_limit";
    }
    else record { accepted = true; retry_after = 0; reason = none }

module _ (counters : Counters) where
  open counters use {State, increment}

  -- An error of the first increment leaves the second undone.
  abbrev after_burst :
      (now clock : ℕ) → (organization : String) → Option ℕ × State → Option ℕ × State
  after_burst now clock org (none, s) = (none, s)
  after_burst now clock org (some n, s) = increment clock (key_at true org now) 61 s

  -- `admit`: its own reading of the clock, and those of its two increments.
  unfoldable pub admit :
      (now first_clock second_clock : ℕ)
      → (organization : String) → TenantLimits
      → State
      → Decision × State
  unfolding decide
  admit now first_clock second_clock org l s =
      let first = increment first_clock (key_at false org now) 2 s in
      let (sustained, s') = after_burst now second_clock org first in
      (decide now l first.0 sustained, s')
