-- ===== src/Replay/SingleUse.antt =====
-- A nonce that was accepted is not accepted again, whatever other requests come in between.
use decepti_forge.Base.{
  ℕ, ◌+◌, ◌*◌, ◌≤◌, ◌≡◌, ◌≢◌, refl, String, is_text, ◌&&◌, List, [], ◌∷◌, Option, some, arith, inl,
  inr, Bool-cases, false,
}
use decepti_forge.Replay.Store.{
  second, Seen, Reservation, reserved, replayed, unavailable, reserve, HeldUntil, HeldUntil-reserve,
  reserve-HeldUntil, reserve_holds,
}
use decepti_forge.Replay.Guard.{
  ParsedTime, finite, accepted, answer, check_time, check, scope_key, skew_exceeded,
}

-- A request that reaches the store in between: its time, its key and its time to live.
pub record Request : Type 0 where
  pub at : ℕ
  pub key : String
  pub ttl : ℕ

-- The store after a list of requests.
unfoldable pub serve : List Request → Seen → Seen
serve [] s = s
serve (r ∷ rs) s = serve rs (reserve r.at r.key r.ttl s).1

-- No request comes later than `limit`.
abbrev pub AllBefore : ℕ → List Request → Type 0
AllBefore limit [] = Unit
AllBefore limit (r ∷ rs) = (r.at ≤ limit) × AllBefore limit rs

HeldUntil-serve :
    (k : String) (exp : ℕ) (rs : List Request) (s : Seen)
    → AllBefore exp rs
    → HeldUntil k exp s
    → HeldUntil k exp (serve rs s)
unfolding serve
HeldUntil-serve k exp [] s before h = h
HeldUntil-serve k exp (r ∷ rs) s before h =
    HeldUntil-serve k exp rs _ before.1 (HeldUntil-reserve k r.key exp r.at r.ttl s before.0 h)

AllBefore-mono : (m n : ℕ) (rs : List Request) → m ≤ n → AllBefore m rs → AllBefore n rs
AllBefore-mono m n [] le h = tt
AllBefore-mono m n (r ∷ rs) le h = (omega arith, AllBefore-mono m n rs le h.1)

answer-accepted : (r : Reservation) → answer r ≡ accepted → r ≡ reserved
answer-accepted reserved h = cc
answer-accepted replayed h = cc
answer-accepted unavailable h = cc

-- What an accepted check says: the timestamp was within the window, and the key was reserved.
pub check_time-accepted :
    {S : Type 0} (store : String → ℕ → S → Reservation × S) (window now : ℕ) (key : String)
    (t : ParsedTime) (s : S)
    → (check_time store window now key (some t) s).0 ≡ accepted
    → (skew_exceeded window now t ≡ false)
      × ((store key (window + 1) s).0 ≡ reserved)
      × ((check_time store window now key (some t) s).1 ≡ (store key (window + 1) s).1)
unfolding check_time
check_time-accepted store window now key t s h = elim (Bool-cases (skew_exceeded window now t)) [
  | inl late ↦ absurd (ground arith)
  | inr fine ↦ rw fine (refl, answer-accepted _ (rw fine at h), refl)
]

-- An accepted check had a nonce and a timestamp, and went through `check_time`.
pub check-accepted :
    {S : Type 0} (store : String → ℕ → S → Reservation × S) (window : ℕ)
    (parse : String → Option ParsedTime) (scope nonce stamp : String) (now : ℕ) (s : S)
    → (check store window parse scope now (some nonce) (some stamp) s).0 ≡ accepted
    → check store window parse scope now (some nonce) (some stamp) s
      ≡ check_time store window now (scope_key scope nonce) (parse stamp) s
unfolding check
check-accepted store window parse scope nonce stamp now s h =
    elim (Bool-cases (is_text nonce && is_text stamp)) [
      | inl given ↦ rw given
      | inr missing ↦ absurd (ground arith)
    ]

skew_exceeded_bound :
    (window t guard : ℕ)
    → skew_exceeded window guard (finite t) ≡ false
    → guard ≤ t + window * second
skew_exceeded_bound window t guard h = ground arith

-- A check on a key that an earlier reservation at `first` has held since.
check_time-HeldUntil :
    (window t first guard at : ℕ) (key : String) (s : Seen) (between : List Request)
    → HeldUntil key (first + (window + 1) * second) s
    → AllBefore at between
    → at + t ≤ first + guard + second
    → (check_time (reserve at) window guard key (some (finite t)) (serve between s)).0 ≢ accepted
check_time-HeldUntil window t first guard at key s between h before le ok =
    let exp : ℕ = first + (window + 1) * second in
    let (fine, fresh, _) =
      check_time-accepted (reserve at) window guard key (finite t) (serve between s) ok in
    let bound = skew_exceeded_bound window t guard fine in
    let early : at ≤ exp = omega arith in
    let held = HeldUntil-serve key exp between s (AllBefore-mono at exp between early before) h in
    let again = reserve-HeldUntil key exp at (window + 1) (serve between s) early held in
    cc (fresh, again)

-- An accepted check leaves the key held for the time to live.
check-HeldUntil :
    (parse : String → Option ParsedTime) (window : ℕ) (scope nonce stamp : String) (t : ParsedTime)
    (guard at : ℕ) (s : Seen)
    → parse stamp ≡ some t
    → (check (reserve at) window parse scope guard (some nonce) (some stamp) s).0 ≡ accepted
    → HeldUntil
        (scope_key scope nonce)
        (at + (window + 1) * second)
        (check (reserve at) window parse scope guard (some nonce) (some stamp) s).1
check-HeldUntil parse window scope nonce stamp t guard at s p ok =
    let e = check-accepted (reserve at) window parse scope nonce stamp guard s ok in
    let key = scope_key scope nonce in
    let ok' : (check_time (reserve at) window guard key (some t) s).0 ≡ accepted = cc (e, p, ok) in
    let (_, fresh, after) = check_time-accepted (reserve at) window guard key t s ok' in
    rw (e, p, after) (reserve_holds key at (window + 1) s fresh)

-- Once a request with a finite timestamp has been accepted, the same nonce and timestamp are never
-- accepted again in the same scope, whatever other requests the store has served up to the second
-- attempt. The condition on the clocks: the lead of the timestamp over the first reservation, plus
-- the time between the two clock readings of the second attempt, is at most one second.
pub check_single_use :
    (parse : String → Option ParsedTime) (window : ℕ) (scope nonce stamp : String)
    (t guard₁ at₁ guard₂ at₂ : ℕ) (s : Seen) (between : List Request)
    → parse stamp ≡ some (finite t)
    → (check (reserve at₁) window parse scope guard₁ (some nonce) (some stamp) s).0 ≡ accepted
    → AllBefore at₂ between
    → at₂ + t ≤ at₁ + guard₂ + second
    → (check (reserve at₂) window parse scope guard₂ (some nonce) (some stamp) (
        serve between
          (check (reserve at₁) window parse scope guard₁ (some nonce) (some stamp) s).1)).0
      ≢ accepted
check_single_use parse window scope nonce stamp t guard₁ at₁ guard₂ at₂ s between p ok before le
      again =
    let e = check-accepted (reserve at₂) window parse scope nonce stamp guard₂ _ again in
    check_time-HeldUntil window t at₁ guard₂ at₂ (scope_key scope nonce) _ between
      (check-HeldUntil parse window scope nonce stamp (finite t) guard₁ at₁ s p ok) before le
      (cc (e, p, again))
