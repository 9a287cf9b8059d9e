-- ===== src/Replay/Guard.antt =====
-- `ReplayGuard.check` over any replay store.
use decepti_forge.Base.{
  ℕ, ◌+◌, ◌*◌, String, text_append, Bool, true, false, ltb, abs_diff, if◌then◌else◌, is_text, ◌&&◌,
  Option, none, some,
}
use decepti_forge.Replay.Store.{Reservation, reserved, replayed, unavailable, second}

-- A float, as `abs(now - event_time) > window` distinguishes it. `before_epoch n` is -(n + 1).
pub data ParsedTime : Type 0 where
  finite : ℕ → ParsedTime
  before_epoch : ℕ → ParsedTime
  infinite : ParsedTime
  not_a_number : ParsedTime

-- `None`, or a `ReplayError` with its status code and message.
pub data CheckResult : Type 0 where
  accepted : CheckResult
  refused : (status_code : ℕ) → (message : String) → CheckResult

-- `abs(now - event_time) > self._window`. Every comparison with a NaN is false.
abbrev pub skew_exceeded : (window now : ℕ) → ParsedTime → Bool
skew_exceeded window now (finite t) = ltb (window * second) (abs_diff now t)
skew_exceeded window now (before_epoch n) = ltb (window * second) (now + n + 1)
skew_exceeded window now infinite = true
skew_exceeded window now not_a_number = false

abbrev pub answer : Reservation → CheckResult
answer reserved = accepted
answer replayed = refused 409 "replayed nonce"
answer unavailable = refused 503 "replay protection unavailable"

-- `_scope_key`
unfoldable pub scope_key : (scope nonce : String) → String
scope_key scope nonce = text_append scope (text_append ":" nonce)

module _ {S : Type 0} (store : String → ℕ → S → Reservation × S) (window : ℕ) where
  -- The part of `check` behind the parsed timestamp, at the guard's clock reading `now`.
  unfoldable pub check_time : (now : ℕ) → (key : String) → Option ParsedTime → S → CheckResult × S
  check_time now key none s = (refused 400 "invalid timestamp", s)
  check_time now key (some t) s =
      if skew_exceeded window now t
      then (refused 400 "timestamp outside the allowed clock skew", s)
      else (let (r, s') = store key (window + 1) s in (answer r, s'))

  -- `check`. `parse` is `float`, with `none` for its `ValueError`.
  unfoldable pub check :
      (parse : String → Option ParsedTime) (scope : String) (now : ℕ)
      (nonce timestamp : Option String)
      → S
      → CheckResult × S
  unfolding check_time
  check parse scope now (some n) (some t) s =
      if is_text n && is_text t
      then check_time now (scope_key scope n) (parse t) s
      else (refused 400 "monitoring requires a nonce and timestamp", s)
  check parse scope now _ _ s = (refused 400 "monitoring requires a nonce and timestamp", s)
