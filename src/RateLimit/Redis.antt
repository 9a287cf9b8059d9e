-- ===== src/RateLimit/Redis.antt =====
-- `RedisRateLimiter.allow` over a Redis client. The client is a parameter: its transaction
-- (ZREMRANGEBYSCORE, ZADD, ZCARD, EXPIRE) and its ZREM, either of which may fail, and what the
-- code relies on of a sorted set, stated on the members of a key.
use decepti_forge.Base.{
  ℕ, ◌+◌, ◌<◌, String, ◌≡◌, ◌∙◌, ap, Bool, true, false, not, List, [], ◌∷◌, ◌++◌, Option, some,
  none, arith, ltb, leb, if◌then◌else◌, str_eq, str_eq_refl, select, length, length-append, inl,
  inr, Bool-cases,
}
use decepti_forge.RateLimit.Window.{window_ticks}

-- A member and its score.
abbrev pub Members : Type 0
Members = List (String × ℕ)

-- ZREMRANGEBYSCORE from 0 to now - 60.
abbrev pub prune : ℕ → Members → Members
prune now = select (λ (e : String × ℕ). ltb now (e.1 + window_ticks))

abbrev pub without : String → Members → Members
without m = select (λ (e : String × ℕ). not (str_eq e.0 m))

abbrev pub is_member : String → Members → Bool
is_member m [] = false
is_member m (e ∷ es) = if str_eq e.0 m then true else is_member m es

pub record SortedSets : Type 1 where
  pub Store : Type 0
  pub members : Store → String → Members
  pub transact : (now : ℕ) (key member : String) → Store → Option ℕ × Store
  pub zrem : (key member : String) → Store → Option Store
  -- A transaction that succeeds with a new member prunes, adds and counts.
  pub transact_lem :
      (now : ℕ) (key member : String) (s : Store) (n : ℕ)
      → (transact now key member s).0 ≡ some n
      → is_member member (members s key) ≡ false
      → (members (transact now key member s).1 key
          ≡ prune now (members s key) ++ (member, now) ∷ [])
        × (n ≡ length (members (transact now key member s).1 key))
  -- ZREM that succeeds takes the member out.
  pub zrem_lem :
      (key member : String) (s t : Store)
      → zrem key member s ≡ some t
      → members t key ≡ without member (members s key)

module _ (redis : SortedSets) where
  open redis use {Store, members, transact, zrem, transact_lem, zrem_lem}

  -- A failed ZREM is ignored.
  remove : (key member : String) → Store → Store
  remove key member s = elim (zrem key member s) [ none ↦ s | some t ↦ t ]

  -- The part of `allow` behind the transaction.
  decide : (fail_open : Bool) (key member : String) (limit : ℕ) → Option ℕ × Store → Bool × Store
  unfolding remove
  decide fail_open key member limit (none, s) = (fail_open, s)
  decide fail_open key member limit (some n, s) =
      if ltb limit n then (false, remove key member s) else (true, s)

  -- `allow`; `member` is the clock reading with a random tag.
  pub redis_allow :
      (fail_open : Bool) (now : ℕ) (key member : String) (limit : ℕ) → Store → Bool × Store
  unfolding decide
  redis_allow fail_open now key member limit s =
      if leb limit 0
      then (true, s)
      else decide fail_open key member limit (transact now key member s)

without-append :
    (m : String) (now : ℕ) (es : Members)
    → is_member m es ≡ false
    → without m (prune now es ++ (m, now) ∷ []) ≡ prune now es
without-append m now [] h = ground (arith, str_eq_refl m)
without-append m now (e ∷ es) h = ground (arith, without-append m now es)

module _ (redis : SortedSets) where
  open redis use {Store, members, transact, zrem, transact_lem, zrem_lem}

  decide_counted :
      (fail_open : Bool) (key member : String) (limit n : ℕ) (r : Option ℕ × Store)
      → r.0 ≡ some n
      → decide redis fail_open key member limit r
        ≡ (if ltb limit n then (false, remove redis key member r.1) else (true, r.1))
  unfolding decide
  decide_counted fail_open key member limit n (none, s) e = cc
  decide_counted fail_open key member limit n (some k, s) e = ground arith

  remove_removed :
      (key member : String) (s t : Store)
      → zrem key member s ≡ some t
      → members (remove redis key member s) key ≡ without member (members s key)
  unfolding remove
  remove_removed key member s t e = rw (e, remove) (zrem_lem key member s t e)

  redis_allow_counted :
      (fail_open : Bool) (now : ℕ) (key member : String) (limit n : ℕ) (s : Store)
      → 0 < limit
      → (transact now key member s).0 ≡ some n
      → let s' = (transact now key member s).1 in
        redis_allow redis fail_open now key member limit s
        ≡ (if ltb limit n then (false, remove redis key member s') else (true, s'))
  unfolding redis_allow
  redis_allow_counted fail_open now key member limit n s pos counted =
      ground
        (arith, decide_counted fail_open key member limit n (transact now key member s) counted)

  -- With a positive limit, a fresh member, and no Redis error: the call is accepted exactly when the
  -- key has fewer than `limit` members younger than a minute, and then the member is added; a
  -- denied call takes its own member out again, so that a denial uses no slot.
  pub redis_allow_budget :
      (fail_open : Bool) (now : ℕ) (key member : String) (limit n : ℕ) (s t : Store)
      → 0 < limit
      → (transact now key member s).0 ≡ some n
      → zrem key member (transact now key member s).1 ≡ some t
      → is_member member (members s key) ≡ false
      → let recent = prune now (members s key) in
        let (ok, s') = redis_allow redis fail_open now key member limit s in
        (ok ≡ ltb (length recent) limit)
        × (members s' key ≡ (if ok then recent ++ (member, now) ∷ [] else recent))
  redis_allow_budget fail_open now key member limit n s t pos counted removed fresh =
      let recent = prune now (members s key) in
      let s' = (transact now key member s).1 in
      let (added, size) = transact_lem now key member s n counted fresh in
      let total = length-append recent ((member, now) ∷ []) in
      let n_eq : n ≡ length recent + 1 = size ∙ ap length added ∙ total in
      let e = redis_allow_counted fail_open now key member limit n s pos counted in
      elim (Bool-cases (ltb limit n)) [
        | inl over ↦
            rw (e, over)
              (
                ground (arith, n_eq, over),
                remove_removed key member s' t removed
                    ∙ ap (without member) added
                    ∙ without-append member now (members s key) fresh,
              )
        | inr under ↦ rw (e, under) (ground (arith, n_eq, under), added)
      ]
