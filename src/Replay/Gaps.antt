-- ===== src/Replay/Gaps.antt =====
-- Where the guard's promise stops: timestamps from the future and NaN timestamps, and what a
-- failing Redis does to it.
use decepti_forge.Base.{
  ℕ, ◌+◌, ◌*◌, ◌<◌, ◌≡◌, ◌≢◌, refl, String, is_text, ◌&&◌, Option, some, none, arith, inl, inr,
  Bool, Bool-cases, true, false,
}
use decepti_forge.Replay.Store.{
  second, Seen, Reservation, reserved, reserve, redis_reserve, is_seen, purge, purge-append_expired,
}
use decepti_forge.Replay.Guard.{
  ParsedTime, finite, not_a_number, CheckResult, accepted, refused, check_time, check, scope_key,
  skew_exceeded,
}
use decepti_forge.Replay.SingleUse.{check_time-accepted}

-- The whole check in terms of `check_time`, once both texts are given.
check_given :
    {S : Type 0} (store : String → ℕ → S → Reservation × S) (window : ℕ)
    (parse : String → Option ParsedTime) (scope nonce stamp : String) (now : ℕ) (s : S)
    → (is_text nonce && is_text stamp) ≡ true
    → check store window parse scope now (some nonce) (some stamp) s
      ≡ check_time store window now (scope_key scope nonce) (parse stamp) s
unfolding check
check_given store window parse scope nonce stamp now s h = rw h

check-given :
    {S : Type 0} (store : String → ℕ → S → Reservation × S) (window : ℕ)
    (parse : String → Option ParsedTime) (scope nonce stamp : String) (now : ℕ) (s : S)
    → (check store window parse scope now (some nonce) (some stamp) s).0 ≡ accepted
    → (is_text nonce && is_text stamp) ≡ true
unfolding check
check-given store window parse scope nonce stamp now s h =
    elim (Bool-cases (is_text nonce && is_text stamp)) [
      | inl given ↦ given
      | inr missing ↦ absurd (ground arith)
    ]

-- A fresh key within the skew is accepted.
check_time_fresh :
    (window now at : ℕ) (key : String) (t : ParsedTime) (s : Seen)
    → skew_exceeded window now t ≡ false
    → is_seen key (purge at s) ≡ false
    → (check_time (reserve at) window now key (some t) s).0 ≡ accepted
unfolding check_time reserve
check_time_fresh window now at key t s fine fresh = rw (fine, fresh)

-- A reservation made at `at` is gone by any time after `at + ttl`.
reserve-expired :
    (key : String) (at ttl later : ℕ) (s : Seen)
    → (reserve at key ttl s).0 ≡ reserved
    → at + ttl * second < later
    → is_seen key (purge later (reserve at key ttl s).1) ≡ false
unfolding reserve
reserve-expired key at ttl later s h lt = elim (Bool-cases (is_seen key (purge at s))) [
  | inl old ↦ absurd (ground arith)
  | inr new ↦ rw new (purge-append_expired key (at + ttl * second) later (purge at s) lt new)
]

-- A request whose timestamp lies more than one second in the future is accepted twice: once now,
-- and again with the same nonce at the last moment of its timestamp's window.
pub check_future_replayed :
    (parse : String → Option ParsedTime) (window : ℕ) (scope nonce stamp : String) (t now : ℕ)
    (s : Seen)
    → parse stamp ≡ some (finite t)
    → now + second < t
    → (check (reserve now) window parse scope now (some nonce) (some stamp) s).0 ≡ accepted
    → let later = t + window * second in
      (check
        (reserve later)
        window
        parse
        scope
        later
        (some nonce)
        (some stamp)
        (check (reserve now) window parse scope now (some nonce) (some stamp) s).1).0
      ≡ accepted
check_future_replayed parse window scope nonce stamp t now s p ahead ok =
    let given = check-given (reserve now) window parse scope nonce stamp now s ok in
    let key = scope_key scope nonce in
    let e = check_given (reserve now) window parse scope nonce stamp now s given in
    let ok' : (check_time (reserve now) window now key (some (finite t)) s).0 ≡ accepted =
      cc (e, p, ok) in
    let (_, fresh, after) = check_time-accepted (reserve now) window now key (finite t) s ok' in
    rw
      (
        check_given (reserve (t + window * second)) window parse scope nonce stamp
            (t + window * second) _ given,
        p,
        e,
        p,
        after,
      )
      (check_time_fresh window (t + window * second) (t + window * second) key (finite t) _
        (ground arith)
        (reserve-expired key now (window + 1) (t + window * second) s fresh (omega arith)))

-- A timestamp that parses to NaN passes the skew test at every time: with a fresh nonce the request
-- is accepted whatever the clock says.
pub check_nan_any_time :
    (parse : String → Option ParsedTime) (window : ℕ) (scope nonce stamp : String) (now at : ℕ)
    (s : Seen)
    → parse stamp ≡ some not_a_number
    → (is_text nonce && is_text stamp) ≡ true
    → is_seen (scope_key scope nonce) (purge at s) ≡ false
    → (check (reserve at) window parse scope now (some nonce) (some stamp) s).0 ≡ accepted
check_nan_any_time parse window scope nonce stamp now at s p given fresh =
    rw (check_given (reserve at) window parse scope nonce stamp now s given, p)
      (check_time_fresh window now at (scope_key scope nonce) not_a_number s refl fresh)

-- The refusal that each answer of Redis but "created" leads to.
abbrev pub redis_refusal : Option Bool → CheckResult
redis_refusal none = refused 503 "replay protection unavailable"
redis_refusal (some _) = refused 409 "replayed nonce"

-- With `fail_open` off, a request within the skew that Redis does not confirm as newly created is
-- refused: with status 503 if Redis or the connection failed, with 409 if the key was there.
pub redis_check_fails_closed :
    (reply : Option Bool) (window : ℕ) (key : String) (t : ParsedTime) (now : ℕ)
    → skew_exceeded window now t ≡ false
    → reply ≢ some true
    → (check_time {S = Unit {0}}
        (λ k ttl u. (redis_reserve false reply, u))
        window
        now
        key
        (some t)
        tt).0
      ≡ redis_refusal reply
unfolding check_time redis_reserve
redis_check_fails_closed none window key t now fine h = rw fine
redis_check_fails_closed (some true) window key t now fine h = absurd (h refl)
redis_check_fails_closed (some false) window key t now fine h = rw fine
