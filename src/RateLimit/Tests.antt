-- ===== src/RateLimit/Tests.antt =====
-- Runs of the limiters, and the theorems at concrete calls.
use decepti_forge.Base.{
  ◌≤◌, ◌≡◌, refl, sym, [], ◌∷◌, ◌++◌, List, some, arith, true, if◌then◌else◌, count, length, ltb,
}
use decepti_forge.RateLimit.Window.{Hits, allow, drop_expired, is_recent}
use decepti_forge.RateLimit.Bound.{Call, accepted_times, accepted_times_bound}
use decepti_forge.RateLimit.Redis.{
  SortedSets, Members, prune, without, redis_allow, redis_allow_budget,
}

abbrev calls : List Call
calls =
    record { at = 0; key = "a"; limit = 2 }
    ∷ record { at = 10; key = "b"; limit = 1 }
    ∷ record { at = 20; key = "a"; limit = 2 }
    ∷ record { at = 30; key = "a"; limit = 2 }
    ∷ record { at = 60_000_001; key = "a"; limit = 2 }
    ∷ []

-- The third call on "a" is refused, the fourth comes after the first has left the window.
accepted_run : accepted_times "a" calls (λ j. []) ≡ 0 ∷ 20 ∷ 60_000_001 ∷ []
unfolding accepted_times allow drop_expired
accepted_run = refl

accepted_times_bound_example : count (is_recent 60_000_001) (accepted_times "a" calls (λ j. [])) ≤ 2
accepted_times_bound_example = accepted_times_bound "a" 60_000_001 2 calls (omega arith)

abbrev busy : Hits
busy k = 5 ∷ 6 ∷ []

some_inj {ℓ} : {A : Type ℓ} (a b : A) → some a ≡ some b → a ≡ b
some_inj a b h = cc h

-- A Redis that holds the one key of the example, and never fails.
abbrev one_key : SortedSets
one_key = record {
  Store = Members;
  members = λ s k. s;
  transact = λ now k m s. let t = prune now s ++ (m, now) ∷ [] in (some (length t), t);
  zrem = λ k m s. some (without m s);
  transact_lem = λ now k m s n e fresh. (refl, sym (some_inj _ _ e));
  zrem_lem = λ k m s t e. sym (some_inj _ _ e);
}

redis_allow_budget_example :
    let recent = prune 9 (("x", 5) ∷ []) in
    let (ok, s') = redis_allow one_key true 9 "k" "y" 1 (("x", 5) ∷ []) in
    (ok ≡ ltb (length recent) 1) × (s' ≡ (if ok then recent ++ ("y", 9) ∷ [] else recent))
redis_allow_budget_example =
    redis_allow_budget one_key true 9 "k" "y" 1 2 (("x", 5) ∷ []) (("x", 5) ∷ []) (omega arith) refl
      refl refl
