-- ===== src/RateLimit/Window.antt =====
-- `InMemoryRateLimiter.allow`, and what one call does.
use decepti_forge.Base.{
  ℕ, ◌+◌, ◌≤◌, String, ◌≡◌, ◌≢◌, refl, Bool, true, false, List, [], ◌∷◌, ◌++◌, arith, ltb, leb,
  str_eq, str_eq_iff, str_eq_refl, if◌then◌else◌, length, count,
}

-- `_WINDOW_SECONDS`, in microseconds.
abbrev pub window_ticks : ℕ
window_ticks = 60_000_000

-- `_hits`, a `defaultdict(deque)`: every key has a queue of times, oldest first.
abbrev pub Hits : Type 0
Hits = String → List ℕ

-- The `while` loop: entries older than the window are taken from the left.
unfoldable pub drop_expired : ℕ → List ℕ → List ℕ
drop_expired now [] = []
drop_expired now (t ∷ ts) =
    let rest = drop_expired now ts in if ltb (t + window_ticks) now then rest else t ∷ ts

abbrev pub update : Hits → String → List ℕ → Hits
update h k w j = if str_eq k j then w else h j

-- `allow`, at the clock reading `now`. A limit of 0 stands for every limit that is not positive.
unfoldable pub allow : (now : ℕ) → (key : String) → (limit : ℕ) → Hits → Bool × Hits
allow now key limit h =
    if leb limit 0
    then (true, h)
    else (let window = drop_expired now (h key) in
        if leb limit (length window)
        then (false, update h key window)
        else (true, update h key (window ++ now ∷ [])))

-- `clear`
unfoldable pub clear : Hits → Hits
clear h k = []

-- The entries at most one window old at `now`.
abbrev pub is_recent : ℕ → ℕ → Bool
is_recent now t = leb now (t + window_ticks)

pub update_self : (h : Hits) (k : String) (w : List ℕ) → update h k w k ≡ w
update_self h k w = rw (str_eq_refl k)

pub update_ne : (h : Hits) (k j : String) (w : List ℕ) → k ≢ j → update h k w j ≡ h j
update_ne h k j w ne = ground (arith, str_eq_iff k j)

-- What the loop drops is not recent at `now`, nor later.
pub count-drop_expired :
    (now later : ℕ) (ts : List ℕ)
    → now ≤ later
    → count (is_recent later) (drop_expired now ts) ≡ count (is_recent later) ts
unfolding drop_expired
count-drop_expired now later [] le = refl
count-drop_expired now later (t ∷ ts) le = ground (arith, count-drop_expired now later ts le)

pub length-drop_expired-le : (now : ℕ) (ts : List ℕ) → length (drop_expired now ts) ≤ length ts
unfolding drop_expired
length-drop_expired-le now [] = omega arith
length-drop_expired-le now (t ∷ ts) = ground (arith, length-drop_expired-le now ts)
