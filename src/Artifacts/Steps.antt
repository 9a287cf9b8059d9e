-- ===== src/Artifacts/Steps.antt =====
-- What one batch of claims does to the pending jobs.
use decepti_forge.Base.{
  ℕ, zero, suc, ◌+◌, ◌≤◌, ◌≡◌, refl, String, true, List, [], ◌∷◌, Option, none, some, arith, str_eq,
  str_eq_refl, str_mem, ltb, select, take, length, count-le-length, length-append, All-append,
  All-map, Bool-cases, inl, inr,
}
use decepti_forge.Artifacts.Jobs.{
  Job, is_pending, is_candidate, claim_for_org, tenants, claim_shares, claim_fair,
  claim_reconstruction_jobs,
}
use decepti_forge.Artifacts.Queue.{IsUnique, ids}
use decepti_forge.Artifacts.Fairness.{share_of, share_out_shares, claim_fair_own, tenants-mem}
use decepti_forge.Artifacts.Shares.{
  pending_of, claim_for_org-left, claim_for_org-length, claim_for_org-IsUnique,
}
use decepti_forge.Artifacts.Held.{
  is_held, pending_all, AllHeld, claim_jobs-held, claim_jobs-AllHeld, claim_jobs-pending,
}

claim_for_org-AllHeld :
    (n : ℕ) (org : String) (rows : List Job)
    → AllHeld (claim_for_org n org rows).0 (claim_for_org n org rows).1
unfolding claim_for_org
claim_for_org-AllHeld n org rows = claim_jobs-AllHeld _ rows

claim_for_org-held :
    (n : ℕ) (org m : String) (rows : List Job)
    → is_held m rows ≡ true
    → is_held m (claim_for_org n org rows).1 ≡ true
unfolding claim_for_org
claim_for_org-held n org m rows h =
    claim_jobs-held (take n (ids (select (is_candidate org) rows))) m rows h

claim_for_org-pending :
    (n : ℕ) (org : String) (rows : List Job)
    → length (claim_for_org n org rows).0 + pending_all (claim_for_org n org rows).1
      ≡ pending_all rows
unfolding claim_for_org
claim_for_org-pending n org rows = claim_jobs-pending _ rows

claim_shares-held :
    (share : ℕ) (m : String) (orgs : List String) (rows : List Job)
    → is_held m rows ≡ true
    → is_held m (claim_shares share orgs rows).1 ≡ true
unfolding claim_shares
claim_shares-held share m [] rows h = h
claim_shares-held share m (org ∷ orgs) rows h =
    claim_shares-held share m orgs (claim_for_org share org rows).1
      (claim_for_org-held share org m rows h)

-- What a run of claims does: it accounts for the pending jobs, holds the claimed ones and keeps the
-- ids unique.
record Accounts (before : List Job) (after : List Job × List Job) : Type 0 where
  pub counted : length after.0 + pending_all after.1 ≡ pending_all before
  pub held : AllHeld after.0 after.1
  pub unique : IsUnique after.1

claim_shares-Accounts :
    (share : ℕ) (orgs : List String) (rows : List Job)
    → IsUnique rows
    → Accounts rows (claim_shares share orgs rows)
unfolding claim_shares
claim_shares-Accounts share [] rows u = record { counted = omega arith; held = tt; unique = u }
claim_shares-Accounts share (org ∷ orgs) rows u =
    let (own, rows') = claim_for_org share org rows in
    let (others, rows'') = claim_shares share orgs rows' in
    let rest = claim_shares-Accounts share orgs rows' (claim_for_org-IsUnique share org rows u) in
    record {
      counted =
          omega
            (arith, length-append own others, claim_for_org-pending share org rows, rest.counted);
      held =
          All-append (λ (j : Job). is_held j.job_id rows'' ≡ true) own others
            (All-map (λ (j : Job). is_held j.job_id rows' ≡ true)
              (λ (j : Job). is_held j.job_id rows'' ≡ true) own
              (λ j h. claim_shares-held share j.job_id orgs rows' h)
              (claim_for_org-AllHeld share org rows))
            rest.held;
      unique = rest.unique;
    }

-- The pending jobs that a worker asks for.
abbrev pub wanted : Option String → List Job → ℕ
wanted none rows = pending_all rows
wanted (some org) rows = pending_of org rows

some_tenant : (rows : List Job) → 1 ≤ pending_all rows → (org : String) × (1 ≤ pending_of org rows)
some_tenant [] h = absurd (omega (arith, h))
some_tenant (j ∷ js) h = elim (Bool-cases (is_pending j.status)) [
  | inl waits ↦ (j.organization, ground (arith, waits, str_eq_refl j.organization))
  | inr gone ↦
      let (org, more) = some_tenant js (ground (arith, gone, h)) in (org, ground (arith, more))
]

head_served :
    (n : ℕ) (o : String) (names : List String)
    → 1 ≤ n
    → str_mem o names ≡ true
    → (t : String) × (str_mem t names ≡ true) × (str_mem t (take n names) ≡ true)
head_served zero o names pos h = absurd (omega (arith, pos))
head_served (suc n) o [] pos h = absurd (cc h)
head_served (suc n) o (t ∷ ts) pos h = (t, rw (str_eq_refl t) refl, rw (str_eq_refl t) refl)

-- A fair claim takes something while anything is pending.
claim_fair-progress :
    (batch : ℕ) (rows : List Job)
    → IsUnique rows
    → 1 ≤ batch
    → length (claim_fair batch rows).0 ≡ 0
    → pending_all rows ≡ 0
claim_fair-progress batch rows u pos none_won = elim (Bool-cases (ltb 0 (pending_all rows))) [
  | inr idle ↦ ground (arith, idle)
  | inl busy ↦
      let (org, waits) = some_tenant rows (ground (arith, busy)) in
      let member : str_mem org (tenants [] rows) ≡ true =
        ground (arith, tenants-mem org [] rows, waits) in
      let (t, known, served) = head_served batch org (tenants [] rows) pos member in
      let own = claim_fair_own batch t rows u in
      let few = count-le-length (λ (j : Job). str_eq j.organization t) (claim_fair batch rows).0 in
      ground (arith, tenants-mem t [] rows, known, served, own, few, none_won)
]

pub record IsStep (f : Option String) (before : List Job) (after : List Job × List Job)
    : Type 0 where
  pub counted : length after.0 + wanted f after.1 ≡ wanted f before
  pub held : AllHeld after.0 after.1
  pub unique : IsUnique after.1
  pub progress : length after.0 ≡ 0 → wanted f before ≡ 0

pub claims-IsStep :
    (batch : ℕ) (f : Option String) (rows : List Job)
    → 1 ≤ batch
    → IsUnique rows
    → IsStep f rows (claim_reconstruction_jobs batch f rows)
unfolding claim_reconstruction_jobs claim_fair
claims-IsStep batch none rows pos u =
    let orgs = take batch (tenants [] rows) in
    let r = claim_shares-Accounts (share_of batch orgs) orgs rows u in
    rw (share_out_shares batch orgs rows) (record {
      counted = r.counted;
      held = r.held;
      unique = r.unique;
      progress = λ none_won.
          claim_fair-progress batch rows u pos (rw (share_out_shares batch orgs rows) none_won);
    })
claims-IsStep batch (some org) rows pos u =
    let size = claim_for_org-length batch org rows u in
    record {
      counted = ground (arith, size, claim_for_org-left batch org org rows u, str_eq_refl org);
      held = claim_for_org-AllHeld batch org rows;
      unique = claim_for_org-IsUnique batch org rows u;
      progress = λ none_won. omega (arith, size, none_won, pos);
    }
