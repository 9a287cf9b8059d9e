-- ===== src/RateLimit/Bound.antt =====
-- What a run of calls of the in-memory limiter guarantees.
use decepti_forge.Base.{
  ℕ, ◌⊎◌, ◌+◌, ◌≤◌, ◌<◌, String, ◌≡◌, ◌≢◌, refl, sym, subst, All, true, false, List, [], ◌∷◌, ◌++◌,
  arith, leb, ◌&&◌, inl, inr, str_eq, str_eq_iff, str_eq_refl, Bool-cases, if◌then◌else◌, length,
  length-append, count, count-append, count-le-length,
}
use decepti_forge.RateLimit.Window.{
  Hits, window_ticks, drop_expired, allow, update, is_recent, update_self, update_ne,
  count-drop_expired, length-drop_expired-le,
}

pub record Call : Type 0 where
  pub at : ℕ
  pub key : String
  pub limit : ℕ

-- The times of the calls on `k` that a run accepts, in order.
unfoldable pub accepted_times : String → List Call → Hits → List ℕ
accepted_times k [] h = []
accepted_times k (c ∷ cs) h =
    let (ok, h') = allow c.at c.key c.limit h in
    let rest = accepted_times k cs h' in if ok && str_eq c.key k then c.at ∷ rest else rest

-- Every call is made at `later` at the latest, with a positive limit of at most `cap`.
abbrev pub AllWithin : (later cap : ℕ) → List Call → Type 0
AllWithin later cap [] = Unit
AllWithin later cap (c ∷ cs) =
    (c.at ≤ later) × (0 < c.limit) × (c.limit ≤ cap) × AllWithin later cap cs

-- The three ends of a call.
allow_full :
    (now limit : ℕ) (k : String) (h : Hits)
    → 0 < limit
    → limit ≤ length (drop_expired now (h k))
    → allow now k limit h ≡ (false, update h k (drop_expired now (h k)))
unfolding allow
allow_full now limit k h pos full = ground arith

allow_room :
    (now limit : ℕ) (k : String) (h : Hits)
    → length (drop_expired now (h k)) < limit
    → allow now k limit h ≡ (true, update h k (drop_expired now (h k) ++ now ∷ []))
unfolding allow
allow_room now limit k h room = ground arith

allow-cases :
    (now limit : ℕ) (k : String) (h : Hits)
    → 0 < limit
    → ((limit ≤ length (drop_expired now (h k)))
        × (allow now k limit h ≡ (false, update h k (drop_expired now (h k)))))
      ⊎ ((length (drop_expired now (h k)) < limit)
          × (allow now k limit h ≡ (true, update h k (drop_expired now (h k) ++ now ∷ []))))
allow-cases now limit k h pos = elim (Bool-cases (leb limit (length (drop_expired now (h k))))) [
  | inl full ↦ inl (ground arith, allow_full now limit k h pos (ground arith))
  | inr room ↦ inr (ground arith, allow_room now limit k h (ground arith))
]

-- One call on the key itself: what it adds to the recent entries is what it accepts.
allow-count_self :
    (later now limit : ℕ) (k : String) (h : Hits)
    → now ≤ later
    → 0 < limit
    → count (is_recent later) ((allow now k limit h).1 k)
      ≡ count (is_recent later) (h k)
        + count (is_recent later) (if (allow now k limit h).0 then now ∷ [] else [])
allow-count_self later now limit k h le pos =
    let same = count-drop_expired now later (h k) le in
    elim (allow-cases now limit k h pos) [
      | inl (full, e) ↦ rw (e, update_self, same) (omega arith)
      | inr (room, e) ↦
          rw (
            e,
            update_self,
            count-append (is_recent later) (drop_expired now (h k)) (now ∷ []),
            same,
          )
    ]

allow-other : (now limit : ℕ) (j k : String) (h : Hits) → j ≢ k → (allow now j limit h).1 k ≡ h k
unfolding allow
allow-other now limit j k h ne = ground (
  arith,
  update_ne h j k (drop_expired now (h j)) ne,
  update_ne h j k (drop_expired now (h j) ++ now ∷ []) ne,
)

-- A queue of at most `cap` entries stays so.
allow-length :
    (now limit cap : ℕ) (k : String) (h : Hits)
    → 0 < limit
    → limit ≤ cap
    → length (h k) ≤ cap
    → length ((allow now k limit h).1 k) ≤ cap
allow-length now limit cap k h pos le fits = elim (allow-cases now limit k h pos) [
  | inl (full, e) ↦ rw (e, update_self) (omega (arith, length-drop_expired-le now (h k)))
  | inr (room, e) ↦
      rw (e, update_self) (omega (arith, length-append (drop_expired now (h k)) (now ∷ [])))
]

-- One call on any key, seen from `k`.
allow-count :
    (later now limit : ℕ) (j k : String) (h : Hits)
    → now ≤ later
    → 0 < limit
    → count (is_recent later) ((allow now j limit h).1 k)
      ≡ count (is_recent later) (h k)
        + count (is_recent later) (if (allow now j limit h).0 && str_eq j k then now ∷ [] else [])
allow-count later now limit j k h le pos = elim (Bool-cases (str_eq j k)) [
  | inl same ↦
      let e = (str_eq_iff j k).0 same in
      subst
        (λ i.
          count (is_recent later) ((allow now j limit h).1 i)
          ≡ count (is_recent later) (h i)
            + count (is_recent later)
                (if (allow now j limit h).0 && str_eq j i then now ∷ [] else []))
        e (ground (arith, str_eq_refl j, allow-count_self later now limit j h le pos))
  | inr other ↦ ground (arith, str_eq_iff j k, allow-other now limit j k h)
]

allow-length_any :
    (now limit cap : ℕ) (j k : String) (h : Hits)
    → 0 < limit
    → limit ≤ cap
    → length (h k) ≤ cap
    → length ((allow now j limit h).1 k) ≤ cap
allow-length_any now limit cap j k h pos le fits = elim (Bool-cases (str_eq j k)) [
  | inl same ↦
      let e = sym ((str_eq_iff j k).0 same) in
      subst (λ i. length ((allow now i limit h).1 k) ≤ cap) e
        (allow-length now limit cap k h pos le fits)
  | inr other ↦ ground (arith, str_eq_iff j k, allow-other now limit j k h)
]

-- The recent entries of the queue cover the recent accepted calls, and the queue stays bounded.
accepted_times-le :
    (k : String) (later cap : ℕ) (cs : List Call) (h : Hits)
    → AllWithin later cap cs
    → length (h k) ≤ cap
    → count (is_recent later) (h k) + count (is_recent later) (accepted_times k cs h) ≤ cap
unfolding accepted_times
accepted_times-le k later cap [] h within fits =
    omega (arith, count-le-length (is_recent later) (h k))
accepted_times-le k later cap (c ∷ cs) h within fits = ground (
  arith,
  allow-count later c.at c.limit c.key k h within.0 within.1,
  accepted_times-le k later cap cs (allow c.at c.key c.limit h).1 within.3
      (allow-length_any c.at c.limit cap c.key k h within.1 within.2 fits),
)

-- In any run from an empty limiter, at most `cap` of the calls on one key that are accepted lie
-- in the sixty seconds up to any time `later` at which all calls of the run have been made, if
-- their limits are positive and at most `cap`, whatever calls on other keys come in between and
-- in whatever order the clock readings come.
pub accepted_times_bound :
    (k : String) (later cap : ℕ) (cs : List Call)
    → AllWithin later cap cs
    → count (is_recent later) (accepted_times k cs (λ j. [])) ≤ cap
accepted_times_bound k later cap cs within =
    omega (arith, accepted_times-le k later cap cs (λ j. []) within (omega arith))

-- The verdict reads the key's own queue alone.
allow-verdict :
    (now limit : ℕ) (k : String) (h h' : Hits)
    → h' k ≡ h k
    → (allow now k limit h').0 ≡ (allow now k limit h).0
unfolding allow
allow-verdict now limit k h h' e = ground arith

-- A call on one key leaves the queue of every other key alone, so a later call on the other key
-- gets the verdict that it would have got without it.
pub allow_isolated :
    (now limit later other : ℕ) (j k : String) (h : Hits)
    → j ≢ k
    → ((allow now j limit h).1 k ≡ h k)
      × ((allow later k other (allow now j limit h).1).0 ≡ (allow later k other h).0)
allow_isolated now limit later other j k h ne =
    let same = allow-other now limit j k h ne in
    (same, allow-verdict later other k h (allow now j limit h).1 same)

drop_expired-All :
    (now : ℕ) (ts : List ℕ) → All (λ t. t + window_ticks < now) ts → drop_expired now ts ≡ []
unfolding drop_expired
drop_expired-All now [] old = refl
drop_expired-All now (t ∷ ts) old = ground (arith, drop_expired-All now ts old.1)

-- A refused caller is let in again: once every entry of its queue is older than the window, the
-- call is accepted and the queue holds that call alone.
pub allow_recovers :
    (now limit : ℕ) (k : String) (h : Hits)
    → 0 < limit
    → All (λ t. t + window_ticks < now) (h k)
    → ((allow now k limit h).0 ≡ true) × ((allow now k limit h).1 k ≡ now ∷ [])
allow_recovers now limit k h pos old =
    let empty = drop_expired-All now (h k) old in
    let e = allow_room now limit k h (rw empty pos) in rw (e, update_self, empty) (refl, refl)
