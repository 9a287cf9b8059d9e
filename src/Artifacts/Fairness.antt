-- ===== src/Artifacts/Fairness.antt =====
-- How the fair claim divides the pending jobs among the tenants.
use native.Mathlib.Nat.{div-mul-le_self}
use decepti_forge.Base.{
  IsDistinct, ℕ, zero, suc, ◌*◌, ◌/◌, ◌≤◌, min, max, ◌≡◌, refl, ap, String, false, not, ◌&&◌, List,
  [], ◌∷◌, if◌then◌else◌, arith, str_eq_iff, str_eq_refl, str_mem, ltb, take, length, length-take,
  Bool-cases, inl, inr,
}
use decepti_forge.Artifacts.Jobs.{Job, is_pending, tenants, claim_shares, share_out, claim_fair}
use decepti_forge.Artifacts.Queue.{IsUnique}
use decepti_forge.Artifacts.Shares.{pending_of, jobs_of, claim_shares-own, claim_shares-length}

-- The tenants of the query are those with a pending job, each once.
pub tenants-mem :
    (o : String) (seen : List String) (rows : List Job)
    → str_mem o (tenants seen rows) ≡ (not (str_mem o seen) && ltb 0 (pending_of o rows))
unfolding tenants
tenants-mem o seen [] = ground arith
tenants-mem o seen (j ∷ js) = ground (
  arith,
  tenants-mem o seen js,
  tenants-mem o (j.organization ∷ seen) js,
  str_eq_iff o j.organization,
  str_eq_iff j.organization o,
)

tenants-IsDistinct : (seen : List String) (rows : List Job) → IsDistinct (tenants seen rows)
unfolding tenants
tenants-IsDistinct seen [] = tt
tenants-IsDistinct seen (j ∷ js) =
    elim (Bool-cases (is_pending j.status && not (str_mem j.organization seen))) [
      | inr old ↦ rw old (tenants-IsDistinct seen js)
      | inl new ↦ rw new (
        ground (
          arith,
          tenants-mem j.organization (j.organization ∷ seen) js,
          str_eq_refl j.organization,
        ),
        tenants-IsDistinct (j.organization ∷ seen) js,
      )
    ]

take-mem :
    (o : String) (n : ℕ) (names : List String)
    → str_mem o names ≡ false
    → str_mem o (take n names) ≡ false
take-mem o zero names h = refl
take-mem o (suc n) [] h = refl
take-mem o (suc n) (s ∷ ss) h = ground (arith, h, take-mem o n ss)

take-IsDistinct : (n : ℕ) (names : List String) → IsDistinct names → IsDistinct (take n names)
take-IsDistinct zero names d = tt
take-IsDistinct (suc n) [] d = tt
take-IsDistinct (suc n) (s ∷ ss) (absent, d) = (take-mem s n ss absent, take-IsDistinct n ss d)

-- The share of a tenant.
abbrev pub share_of : (limit : ℕ) → List String → ℕ
share_of limit orgs = max 1 (limit / length orgs)

pub share_out_shares :
    (limit : ℕ) (orgs : List String) (rows : List Job)
    → share_out limit orgs rows ≡ claim_shares (share_of limit orgs) orgs rows
unfolding share_out claim_shares
share_out_shares limit [] rows = refl
share_out_shares limit (org ∷ orgs) rows = refl

claim_fair_shares :
    (limit : ℕ) (rows : List Job)
    → let orgs = take limit (tenants [] rows) in
      claim_fair limit rows ≡ claim_shares (share_of limit orgs) orgs rows
unfolding claim_fair
claim_fair_shares limit rows = share_out_shares limit (take limit (tenants [] rows)) rows

-- The fair claim, over jobs with unique ids. Of the tenants with pending jobs, the first `limit` by
-- their oldest job are served; each of them is given its pending jobs up to the share
-- max(1, limit // tenants served), and no other organization is given a job.
pub claim_fair_own :
    (limit : ℕ) (o : String) (rows : List Job)
    → IsUnique rows
    → let served = take limit (tenants [] rows) in
      jobs_of o (claim_fair limit rows).0
      ≡ (if str_mem o served then min (share_of limit served) (pending_of o rows) else 0)
claim_fair_own limit o rows u =
    let served = take limit (tenants [] rows) in
    rw (claim_fair_shares limit rows) (
      claim_shares-own (share_of limit served) o served rows
        (take-IsDistinct limit (tenants [] rows) (tenants-IsDistinct [] rows)) u)

take-all : (n : ℕ) (names : List String) → length names ≤ n → take n names ≡ names
take-all zero [] le = refl
take-all zero (s ∷ ss) le = absurd (omega (arith, le))
take-all (suc n) [] le = refl
take-all (suc n) (s ∷ ss) le = ap (s ∷◌) (take-all n ss (omega (arith, le)))

-- No tenant starves: when no more than `limit` tenants have pending jobs, the fair claim gives every
-- one of them at least one job.
pub claim_fair_serves :
    (limit : ℕ) (o : String) (rows : List Job)
    → IsUnique rows
    → length (tenants [] rows) ≤ limit
    → 1 ≤ pending_of o rows
    → 1 ≤ jobs_of o (claim_fair limit rows).0
claim_fair_serves limit o rows u few waits =
    let own = rw (take-all limit (tenants [] rows) few) at (claim_fair_own limit o rows u) in
    ground (arith, own, tenants-mem o [] rows, waits)

share_bound : (q limit n : ℕ) → q * n ≤ limit → n ≤ limit → max 1 q * n ≤ limit
share_bound zero limit n h le = omega (arith, le)
share_bound (suc q) limit n h le = let big : max 1 (suc q) ≡ suc q = omega arith in rw big h

-- The fair claim never takes more than `limit` jobs.
pub claim_fair_limit :
    (limit : ℕ) (rows : List Job) → IsUnique rows → length (claim_fair limit rows).0 ≤ limit
claim_fair_limit limit rows u =
    let served = take limit (tenants [] rows) in
    let few : length served ≤ limit = omega (arith, length-take limit (tenants [] rows)) in
    let within : share_of limit served * length served ≤ limit =
      share_bound (limit / length served) limit (length served)
        (div-mul-le_self limit (length served)) few in
    let size = claim_shares-length (share_of limit served) served rows u in
    rw (claim_fair_shares limit rows) (omega (arith, size, within))
