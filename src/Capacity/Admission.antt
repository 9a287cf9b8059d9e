-- ===== src/Capacity/Admission.antt =====
-- services/capacity.py: admit over counters in memory, for any calls.
use decepti_forge.Base.{
  ℕ, suc, ◌+◌, ◌-◌, ◌≤◌, ◌<◌, ◌≡◌, refl, sym, ap, subst, String, Bool, true, false, ◌&&◌, List, [],
  ◌∷◌, Option, none, some, if◌then◌else◌, str_eq, str_eq_iff, arith,
}
use decepti_forge.Capacity.Limits.{TenantLimits}
use decepti_forge.Capacity.Quota.{
  Key, key_eq, bool_eq, Memory, in_memory, Decision, limit_of, key_at, decide, admit,
}
use decepti_forge.Capacity.Windows.{value, IsLasting, IsPrompt, Counted, counted}

-- A call: the readings of the clock by `admit` and by its two increments, and the organization.
pub record Call : Type 0 where
  pub now : ℕ
  pub first_clock : ℕ
  pub second_clock : ℕ
  pub organization : String

-- No call pauses between its readings for longer than until the next second's end.
abbrev pub ArePrompt : List Call → Type 0
ArePrompt [] = Unit
ArePrompt (c ∷ calls) =
    (IsPrompt c.now c.first_clock × IsPrompt c.now c.second_clock) × ArePrompt calls

abbrev admit_call : (limits : String → TenantLimits) → Call → Memory → Decision × Memory
admit_call limits c m =
    admit in_memory c.now c.first_clock c.second_clock c.organization (limits c.organization) m

-- How many of the calls were for this key and accepted.
unfoldable pub accepted_in : (limits : String → TenantLimits) → Key → List Call → Memory → ℕ
accepted_in limits k [] m = 0
accepted_in limits k (c ∷ calls) m =
    let (d, m') = admit_call limits c m in
    let rest = accepted_in limits k calls m' in
    if d.accepted && key_eq (key_at k.per_minute c.organization c.now) k then suc rest else rest

decide_within :
    (kind : Bool) (now : ℕ) (l : TenantLimits) (burst sustained : Option ℕ) (b t : ℕ)
    → burst ≡ some (b + 1)
    → sustained ≡ some (t + 1)
    → (decide now l burst sustained).accepted ≡ true
    → (if kind then t else b) < limit_of kind l
unfolding decide
decide_within false now l burst sustained b t eb et ok =
    let ok' = rw (eb, et) at ok in ground (arith, ok')
decide_within true now l burst sustained b t eb et ok =
    let ok' = rw (eb, et) at ok in ground (arith, ok')

bool_eq_path : (a b : Bool) → bool_eq a b ≡ true → a ≡ b
bool_eq_path true b h = sym h
bool_eq_path false true h = absurd (cc h)
bool_eq_path false false h = refl

key_of_parts :
    {t t' : String} {a b : Bool} {i j : ℕ}
    → t ≡ t'
    → a ≡ b
    → i ≡ j
    → ◌≡◌ {A = Key}
        (record { tenant = t; per_minute = a; index = i })
        (record { tenant = t'; per_minute = b; index = j })
key_of_parts et ek ei = rw (et, ek, ei)

key_path : (a b : Key) → key_eq a b ≡ true → a ≡ b
key_path a b same =
    let names : str_eq a.tenant b.tenant ≡ true = ground (arith, same) in
    let kinds : bool_eq a.per_minute b.per_minute ≡ true = ground (arith, same) in
    let numbers : a.index ≡ b.index = ground (arith, same) in
    key_of_parts ((str_eq_iff a.tenant b.tenant).0 names)
      (bool_eq_path a.per_minute b.per_minute kinds) numbers

at_kind :
    (kind : Bool) (org : String) (now : ℕ) (m : Memory)
    → (if kind then value (m (key_at true org now)) else value (m (key_at false org now)))
      ≡ value (m (key_at kind org now))
at_kind false org now m = refl
at_kind true org now m = refl

abbrev step_count :
    (limits : String → TenantLimits) → Key → Call → List Call → Decision × Memory → ℕ
step_count limits k c calls (d, m) =
    let rest = accepted_in limits k calls m in
    if d.accepted && key_eq (key_at k.per_minute c.organization c.now) k then suc rest else rest

accepted_step :
    (limits : String → TenantLimits) (k : Key) (c : Call) (calls : List Call) (m : Memory)
    → accepted_in limits k (c ∷ calls) m ≡ step_count limits k c calls (admit_call limits c m)
unfolding accepted_in
accepted_step limits k c calls m = refl

-- A call that is accepted in a key's window finds the key's count below the limit.
below_limit :
    (limits : String → TenantLimits) (k : Key) (now c₁ c₂ : ℕ) (org : String) (m : Memory)
    → (c : Counted now c₁ c₂ org m) → (decide now (limits org) c.burst c.sustained).accepted ≡ true
    → key_eq (key_at k.per_minute org now) k ≡ true
    → value (m k) < limit_of k.per_minute (limits k.tenant)
below_limit limits k now c₁ c₂ org m c ok same =
    let path = key_path (key_at k.per_minute org now) k same in
    let within =
      decide_within k.per_minute now (limits org) c.burst c.sustained
        (value (m (key_at false org now))) (value (m (key_at true org now))) c.bursts c.sustains
        ok in
    let here = rw (at_kind k.per_minute org now m) at within in
    subst (λ (j : Key). value (m j) < limit_of k.per_minute (limits j.tenant)) path here

accepted_in-le :
    (limits : String → TenantLimits) (k : Key) (calls : List Call) (m : Memory)
    → ArePrompt calls
    → IsLasting m
    → accepted_in limits k calls m ≤ limit_of k.per_minute (limits k.tenant) - value (m k)
unfolding accepted_in
accepted_in-le limits k [] m prompt lasts = omega arith
accepted_in-le limits k (call ∷ calls) m ((p₁, p₂), prompt) lasts =
    let now = call.now in
    let org = call.organization in
    let c = counted now call.first_clock call.second_clock org m p₁ p₂ lasts in
    let rest = accepted_in-le limits k calls c.after prompt c.lasting in
    let same_count = λ (same : key_eq (key_at k.per_minute org now) k ≡ true).
      ap (λ (j : Key). value (m j)) (key_path (key_at k.per_minute org now) k same) in
    rw (accepted_step limits k call calls m, c.admits (limits org))
      (ground (
        arith,
        rest,
        c.values k,
        same_count,
        below_limit limits k now call.first_clock call.second_clock org m c,
      ))

-- With its counters in memory, and empty at first, the gate never admits more than its limits,
-- whatever calls of whatever organizations are made one after another, at times in whatever order:
-- within one second at most the burst of an organization, and within one minute at most sixty times
-- its rate. This holds if each increment of a call reads the clock no earlier than the call did, and
-- in the same second or the next; a call that pauses for longer may find its counter expired and
-- start it again.
pub admissions_bound :
    (limits : String → TenantLimits) (k : Key) (calls : List Call)
    → ArePrompt calls
    → accepted_in limits k calls (λ j. none) ≤ limit_of k.per_minute (limits k.tenant)
admissions_bound limits k calls prompt =
    let bound = accepted_in-le limits k calls (λ j. none) prompt (λ j. tt) in omega (arith, bound)
