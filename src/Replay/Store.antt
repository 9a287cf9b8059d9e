-- ===== src/Replay/Store.antt =====
-- `InMemoryReplayStore` and `RedisReplayStore`, and the laws of one reservation in memory.
use decepti_forge.Base.{
  ℕ, ◌+◌, ◌*◌, ◌≤◌, ◌<◌, String, ◌≡◌, refl, Bool, true, false, ◌||◌, List, [], ◌∷◌, ◌++◌, arith,
  ltb, not, ◌⊎◌, inl, inr, str_eq, str_eq_iff, Bool-cases, if◌then◌else◌, select, Option, none,
  some,
}

-- One second, in the clock's unit.
abbrev pub second : ℕ
second = 1_000_000

-- `_seen`: nonce key and expiry, in insertion order.
abbrev pub Seen : Type 0
Seen = List (String × ℕ)

-- What `reserve` gives: a new reservation, a nonce seen before, or `ReplayUnavailableError`.
pub data Reservation : Type 0 where
  reserved replayed unavailable : Reservation

-- `key in self._seen`
abbrev pub is_seen : String → Seen → Bool
is_seen k [] = false
is_seen k (e ∷ s) = str_eq e.0 k || is_seen k s

-- The first loop of `reserve`: entries whose expiry lies before `now` are deleted.
abbrev pub purge : ℕ → Seen → Seen
purge now = select (λ (e : String × ℕ). not (ltb e.1 now))

-- `InMemoryReplayStore.reserve`, `ttl` in seconds.
unfoldable pub reserve : ℕ → String → ℕ → Seen → Reservation × Seen
reserve now key ttl s =
    let live = purge now s in
    if is_seen key live
    then (replayed, live)
    else (reserved, live ++ (key, now + ttl * second) ∷ [])

-- `RedisReplayStore.reserve`, given the reply of `SET key 1 NX EX ttl`: `none` is a Redis or OS
-- error, and the Boolean says whether the key was created.
unfoldable pub redis_reserve : (fail_open : Bool) → Option Bool → Reservation
redis_reserve fail_open none = if fail_open then reserved else unavailable
redis_reserve fail_open (some created) = if created then reserved else replayed

-- The key is held at least until `exp`.
abbrev pub HeldUntil : String → ℕ → Seen → Type 0
HeldUntil k exp [] = ⊥
HeldUntil k exp (e ∷ s) = ((e.0 ≡ k) × (exp ≤ e.1)) ⊎ HeldUntil k exp s

pub HeldUntil-is_seen : (k : String) (exp : ℕ) (s : Seen) → HeldUntil k exp s → is_seen k s ≡ true
HeldUntil-is_seen k exp [] h = elim h [ ]
HeldUntil-is_seen k exp (e ∷ s) (inl h) = ground (arith, str_eq_iff e.0 k)
HeldUntil-is_seen k exp (e ∷ s) (inr h) = ground (arith, HeldUntil-is_seen k exp s h)

pub HeldUntil-purge :
    (k : String) (exp now : ℕ) (s : Seen)
    → now ≤ exp
    → HeldUntil k exp s
    → HeldUntil k exp (purge now s)
HeldUntil-purge k exp now [] le h = elim h [ ]
HeldUntil-purge k exp now (e ∷ s) le (inl h) = ground arith
HeldUntil-purge k exp now (e ∷ s) le (inr h) = ground (arith, HeldUntil-purge k exp now s le h)

pub HeldUntil-append :
    (k : String) (exp : ℕ) (s t : Seen) → HeldUntil k exp s → HeldUntil k exp (s ++ t)
HeldUntil-append k exp [] t h = elim h [ ]
HeldUntil-append k exp (e ∷ s) t (inl h) = inl h
HeldUntil-append k exp (e ∷ s) t (inr h) = inr (HeldUntil-append k exp s t h)

pub HeldUntil-last : (k : String) (exp : ℕ) (s : Seen) → HeldUntil k exp (s ++ (k, exp) ∷ [])
HeldUntil-last k exp [] = inl (refl, omega arith)
HeldUntil-last k exp (e ∷ s) = inr (HeldUntil-last k exp s)

-- A key that is not there is not there after a purge.
pub purge-unseen :
    (k : String) (now : ℕ) (s : Seen) → is_seen k s ≡ false → is_seen k (purge now s) ≡ false
purge-unseen k now [] h = refl
purge-unseen k now (e ∷ s) h = ground (arith, purge-unseen k now s)

-- An entry that has expired is purged from the end of the list too.
pub purge-append_expired :
    (k : String) (exp now : ℕ) (s : Seen)
    → exp < now
    → is_seen k s ≡ false
    → is_seen k (purge now (s ++ (k, exp) ∷ [])) ≡ false
purge-append_expired k exp now [] lt h = ground arith
purge-append_expired k exp now (e ∷ s) lt h = ground (arith, purge-append_expired k exp now s lt)

-- A call at any time up to `exp` leaves the key held.
pub HeldUntil-reserve :
    (k j : String) (exp now ttl : ℕ) (s : Seen)
    → now ≤ exp
    → HeldUntil k exp s
    → HeldUntil k exp (reserve now j ttl s).1
unfolding reserve
HeldUntil-reserve k j exp now ttl s le h = elim (Bool-cases (is_seen j (purge now s))) [
  | inl old ↦ rw old (HeldUntil-purge k exp now s le h)
  | inr new ↦ rw new (HeldUntil-append k exp _ _ (HeldUntil-purge k exp now s le h))
]

-- A key that is held is reported as replayed.
pub reserve-HeldUntil :
    (k : String) (exp now ttl : ℕ) (s : Seen)
    → now ≤ exp
    → HeldUntil k exp s
    → (reserve now k ttl s).0 ≡ replayed
unfolding reserve
reserve-HeldUntil k exp now ttl s le h =
    rw (HeldUntil-is_seen k exp (purge now s) (HeldUntil-purge k exp now s le h))

-- A reservation holds the key for its whole time to live.
pub reserve_holds :
    (k : String) (now ttl : ℕ) (s : Seen)
    → (reserve now k ttl s).0 ≡ reserved
    → HeldUntil k (now + ttl * second) (reserve now k ttl s).1
unfolding reserve
reserve_holds k now ttl s h = elim (Bool-cases (is_seen k (purge now s))) [
  | inl old ↦ absurd (ground arith)
  | inr new ↦ rw new (HeldUntil-last k _ (purge now s))
]
