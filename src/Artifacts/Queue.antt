-- ===== src/Artifacts/Queue.antt =====
-- The claims of reconstruction jobs, against one pass over the table.
use decepti_forge.Base.{
  IsDistinct, ℕ, zero, suc, ◌+◌, ◌≡◌, refl, ap, String, true, false, List, [], ◌∷◌, if◌then◌else◌,
  arith, str_eq, str_eq_refl, str_mem, select, take, map, Bool-cases, inl, inr,
}
use decepti_forge.Artifacts.Jobs.{
  Job, claimed, is_pending, is_candidate, claim_job, claim_jobs, claim_for_org,
}

abbrev pub ids : List Job → List String
ids rows = map (λ (j : Job). j.job_id) rows

-- The ids are a primary key.
abbrev pub IsUnique : List Job → Type 0
IsUnique rows = IsDistinct (ids rows)

abbrev pub taken : Job → Job
taken j = record j { status = claimed; attempts = j.attempts + 1 }

-- The reference: the first `n` pending jobs of an organization are taken, in one pass.
unfoldable pub claim_first : (n : ℕ) → (organization : String) → List Job → List Job × List Job
claim_first zero org rows = ([], rows)
claim_first (suc n) org [] = ([], [])
claim_first (suc n) org (j ∷ js) =
    let (own, rest) = claim_first n org js in
    let (own', rest') = claim_first (suc n) org js in
    if is_candidate org j then (taken j ∷ own, taken j ∷ rest) else (own', j ∷ rest')

mem-select :
    (id org : String) (n : ℕ) (rows : List Job)
    → str_mem id (ids rows) ≡ false
    → str_mem id (take n (ids (select (is_candidate org) rows))) ≡ false
mem-select id org zero rows h = refl
mem-select id org (suc n) [] h = refl
mem-select id org (suc n) (j ∷ js) h =
    ground (arith, h, mem-select id org n js, mem-select id org (suc n) js)

not_mem :
    (id other : String) (names : List String)
    → str_mem id (other ∷ names) ≡ false
    → (str_eq id other ≡ false) × (str_mem id names ≡ false)
not_mem id other names h = ground (arith, h)

-- A row whose id is not among the candidates is passed over.
claim_jobs-skip :
    (names : List String) (j : Job) (rows : List Job)
    → str_mem j.job_id names ≡ false
    → claim_jobs names (j ∷ rows) ≡ ((claim_jobs names rows).0, j ∷ (claim_jobs names rows).1)
unfolding claim_jobs claim_job
claim_jobs-skip [] j rows h = refl
claim_jobs-skip (id ∷ names) j rows h =
    let (other, absent) = not_mem j.job_id id names h in
    rw (other, claim_jobs-skip names j (claim_job id rows).1 absent)

-- With unique ids the query and the updates take the first pending jobs of the organization.
pub claim_for_org_first :
    (n : ℕ) (org : String) (rows : List Job)
    → IsUnique rows
    → claim_for_org n org rows ≡ claim_first n org rows
unfolding claim_for_org claim_first claim_jobs claim_job
claim_for_org_first zero org rows u = refl
claim_for_org_first (suc n) org [] u = refl
claim_for_org_first (suc n) org (j ∷ js) (absent, u) = elim (Bool-cases (is_candidate org j)) [
  | inl own ↦
      let waiting : is_pending j.status ≡ true = ground (arith, own) in
      rw
        (
          own,
          str_eq_refl j.job_id,
          waiting,
          claim_jobs-skip (take n (ids (select (is_candidate org) js))) (taken j) js
              (mem-select j.job_id org n js absent),
        )
        (ap (λ (r : List Job × List Job). (taken j ∷ r.0, taken j ∷ r.1))
          (claim_for_org_first n org js u))
  | inr other ↦
      rw
        (
          other,
          claim_jobs-skip (take (suc n) (ids (select (is_candidate org) js))) j js
              (mem-select j.job_id org (suc n) js absent),
        )
        (ap (λ (r : List Job × List Job). (r.0, j ∷ r.1)) (claim_for_org_first (suc n) org js u))
]
