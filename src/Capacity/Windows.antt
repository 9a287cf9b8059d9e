-- ===== src/Capacity/Windows.antt =====
-- services/capacity.py: what one admission does to the counters in memory.
use decepti_forge.Base.{
  ℕ, ◌+◌, ◌*◌, ◌/◌, ◌≤◌, ◌<◌, ◌≡◌, refl, ap, ◌∙◌, String, Bool, true, false, Option, none, some,
  if◌then◌else◌, arith, Bool-cases, inl, inr,
}
use decepti_forge.Alerting.Pipeline.{second}
use decepti_forge.Capacity.Limits.{TenantLimits}
use decepti_forge.Capacity.Quota.{
  Key, key_eq, Memory, current, increment_memory, in_memory, key_at, decide, admit,
}

-- The count of a key, and the second until which its counter is kept: one more than the end of the
-- key's window.
abbrev pub value : Option (ℕ × ℕ) → ℕ
value none = 0
value (some (n, expiry)) = n

abbrev pub kept_until : Key → ℕ
kept_until k = if k.per_minute then 60 * k.index + 61 else k.index + 2

-- No counter expires before that.
abbrev pub Outlives : Key → Option (ℕ × ℕ) → Type 0
Outlives k none = Unit
Outlives k (some (n, expiry)) = kept_until k ≤ expiry

abbrev pub IsLasting : Memory → Type 0
IsLasting m = (k : Key) → Outlives k (m k)

current-value :
    (now ttl : ℕ) (k : Key) (e : Option (ℕ × ℕ))
    → now < kept_until k
    → Outlives k e
    → (current now ttl e).0 ≡ value e
current-value now ttl k none inside lasts = refl
current-value now ttl k (some (n, expiry)) inside lasts = ground (arith, inside, lasts)

current_lasts :
    (now ttl : ℕ) (k : Key) (e : Option (ℕ × ℕ))
    → kept_until k ≤ now + ttl
    → Outlives k e
    → kept_until k ≤ (current now ttl e).1
current_lasts now ttl k none ends lasts = ends
current_lasts now ttl k (some (n, expiry)) ends lasts = ground (arith, ends, lasts)

kept_until_eq : (k j : Key) → key_eq k j ≡ true → kept_until k ≡ kept_until j
kept_until_eq k j same = ground (arith, same)

-- One increment while the key's counter is kept adds one to its count, and changes no other key.
increment_value :
    (clock ttl : ℕ) (k j : Key) (m : Memory)
    → clock / second < kept_until k
    → Outlives k (m k)
    → let (n, m') = increment_memory clock k ttl m in
      (n ≡ some (value (m k) + 1))
      × (value (m' j) ≡ (if key_eq k j then value (m k) + 1 else value (m j)))
unfolding increment_memory
increment_value clock ttl k j m inside lasts =
    let same = current-value (clock / second) ttl k (m k) inside lasts in
    (ap (λ (n : ℕ). some (n + 1)) same, ground (arith, same))

increment-IsLasting :
    (clock ttl : ℕ) (k : Key) (m : Memory)
    → kept_until k ≤ clock / second + ttl
    → IsLasting m
    → IsLasting (increment_memory clock k ttl m).1
unfolding increment_memory
increment-IsLasting clock ttl k m ends lasts j = elim (Bool-cases (key_eq k j)) [
  | inr other ↦ rw other (lasts j)
  | inl same ↦
      rw same
        (rw (kept_until_eq k j same) at (current_lasts (clock / second) ttl k (m k) ends (lasts k)))
]

-- The readings of a call: those of the increments come after that of `admit`, and in the same second
-- or the next.
pub record IsPrompt (now clock : ℕ) : Type 0 where
  pub later : now ≤ clock
  pub soon : clock / second ≤ now / second + 1

div_mono : (m n : ℕ) → m ≤ n → m / second ≤ n / second
div_mono m n le = omega (arith, le)

-- Both counters of a prompt call are still kept.
kept_at :
    (kind : Bool) (org : String) (now clock : ℕ)
    → IsPrompt now clock
    → clock / second < kept_until (key_at kind org now)
kept_at false org now clock p = omega (arith, p.soon)
kept_at true org now clock p = omega (arith, p.soon)

-- A counter that a prompt call makes is kept long enough.
burst_kept :
    (org : String) (now clock : ℕ)
    → IsPrompt now clock
    → kept_until (key_at false org now) ≤ clock / second + 2
burst_kept org now clock p = omega (arith, div_mono now clock p.later)

sustained_kept :
    (org : String) (now clock : ℕ)
    → IsPrompt now clock
    → kept_until (key_at true org now) ≤ clock / second + 61
sustained_kept org now clock p = omega (arith, div_mono now clock p.later)

-- The two increments of a call.
pub record Counted (now first_clock second_clock : ℕ) (org : String) (m : Memory) : Type 0 where
  pub burst : Option ℕ
  pub sustained : Option ℕ
  pub after : Memory
  pub bursts : burst ≡ some (value (m (key_at false org now)) + 1)
  pub sustains : sustained ≡ some (value (m (key_at true org now)) + 1)
  pub values :
      (j : Key)
      → value (after j) ≡ (
          if key_eq (key_at j.per_minute org now) j
          then value (m (key_at j.per_minute org now)) + 1
          else value (m j))
  pub lasting : IsLasting after
  pub admits :
      (l : TenantLimits)
      → admit in_memory now first_clock second_clock org l m ≡ (decide now l burst sustained, after)

abbrev AddsTo : Key → Memory → Memory → Type 0
AddsTo k m m' = (i : Key) → value (m' i) ≡ (if key_eq k i then value (m k) + 1 else value (m i))

values_lem :
    (org t : String) (kind : Bool) (now i : ℕ) (m m₁ m₂ : Memory)
    → AddsTo (key_at false org now) m m₁
    → AddsTo (key_at true org now) m₁ m₂
    → let j : Key = record { tenant = t; per_minute = kind; index = i } in
      value (m₂ j) ≡ (
        if key_eq (key_at kind org now) j then value (m (key_at kind org now)) + 1 else value (m j))
values_lem org t false now i m m₁ m₂ h₁ h₂ =
    let j : Key = record { tenant = t; per_minute = false; index = i } in ground (arith, h₁ j, h₂ j)
values_lem org t true now i m m₁ m₂ h₁ h₂ =
    let j : Key = record { tenant = t; per_minute = true; index = i } in
    ground (arith, h₁ j, h₁ (key_at true org now), h₂ j)

admit_memory :
    (now c₁ c₂ : ℕ) (org : String) (m : Memory) (l : TenantLimits)
    → let (burst, m₁) = increment_memory c₁ (key_at false org now) 2 m in
      let (sustained, m₂) = increment_memory c₂ (key_at true org now) 61 m₁ in
      admit in_memory now c₁ c₂ org l m ≡ (decide now l burst sustained, m₂)
unfolding admit increment_memory
admit_memory now c₁ c₂ org m l = refl

pub counted :
    (now c₁ c₂ : ℕ) (org : String) (m : Memory)
    → IsPrompt now c₁
    → IsPrompt now c₂
    → IsLasting m
    → Counted now c₁ c₂ org m
counted now c₁ c₂ org m p₁ p₂ lasts =
    let ks = key_at false org now in
    let km = key_at true org now in
    let (burst, m₁) = increment_memory c₁ ks 2 m in
    let (sustained, m₂) = increment_memory c₂ km 61 m₁ in
    let lasts₁ = increment-IsLasting c₁ 2 ks m (burst_kept org now c₁ p₁) lasts in
    let at_ks = λ (j : Key). increment_value c₁ 2 ks j m (kept_at false org now c₁ p₁) (lasts ks) in
    let at_km =
      λ (j : Key). increment_value c₂ 61 km j m₁ (kept_at true org now c₂ p₂) (lasts₁ km) in
    record {
      burst = burst;
      sustained = sustained;
      after = m₂;
      bursts = (at_ks ks).0;
      sustains = (at_km km).0 ∙ ground (arith, (at_ks km).1);
      values = λ j.
          values_lem org j.tenant j.per_minute now j.index m m₁ m₂ (λ i. (at_ks i).1)
            (λ i. (at_km i).1);
      lasting = increment-IsLasting c₂ 61 km m₁ (sustained_kept org now c₂ p₂) lasts₁;
      admits = admit_memory now c₁ c₂ org m;
    }
