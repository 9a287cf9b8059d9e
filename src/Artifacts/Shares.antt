-- ===== src/Artifacts/Shares.antt =====
-- What the claims for one organization, and for a list of them, take.
use decepti_forge.Base.{
  IsDistinct, ℕ, zero, suc, ◌-◌, ◌*◌, ◌≤◌, min, ◌≡◌, refl, sym, subst, String, List, [], ◌∷◌,
  if◌then◌else◌, arith, str_eq, str_eq_iff, str_eq_refl, str_mem, length, count, count-append,
  length-append,
}
use decepti_forge.Artifacts.Jobs.{Job, is_candidate, claim_for_org, claim_shares}
use decepti_forge.Artifacts.Queue.{ids, IsUnique, claim_first, claim_for_org_first}

-- How many jobs of an organization a list has, and how many of them are pending.
abbrev pub jobs_of : (organization : String) → List Job → ℕ
jobs_of org rows = count (λ (j : Job). str_eq j.organization org) rows

abbrev pub pending_of : (organization : String) → List Job → ℕ
pending_of org rows = count (is_candidate org) rows

claim_first-ids :
    (n : ℕ) (org : String) (rows : List Job) → ids (claim_first n org rows).1 ≡ ids rows
unfolding claim_first
claim_first-ids zero org rows = refl
claim_first-ids (suc n) org [] = refl
claim_first-ids (suc n) org (j ∷ js) =
    ground (arith, claim_first-ids n org js, claim_first-ids (suc n) org js)

claim_first-length :
    (n : ℕ) (org : String) (rows : List Job)
    → length (claim_first n org rows).0 ≡ min n (pending_of org rows)
unfolding claim_first
claim_first-length zero org rows = omega arith
claim_first-length (suc n) org [] = omega arith
claim_first-length (suc n) org (j ∷ js) =
    ground (arith, claim_first-length n org js, claim_first-length (suc n) org js)

claim_first-own :
    (n : ℕ) (org o : String) (rows : List Job)
    → jobs_of o (claim_first n org rows).0
      ≡ (if str_eq org o then min n (pending_of org rows) else 0)
unfolding claim_first
claim_first-own zero org o rows = ground arith
claim_first-own (suc n) org o [] = ground arith
claim_first-own (suc n) org o (j ∷ js) = ground (
  arith,
  claim_first-own n org o js,
  claim_first-own (suc n) org o js,
  str_eq_iff j.organization org,
)

claim_first-left :
    (n : ℕ) (org o : String) (rows : List Job)
    → pending_of o (claim_first n org rows).1
      ≡ (if str_eq org o then pending_of o rows - n else pending_of o rows)
unfolding claim_first
claim_first-left zero org o rows = ground arith
claim_first-left (suc n) org o [] = ground arith
claim_first-left (suc n) org o (j ∷ js) = ground (
  arith,
  claim_first-left n org o js,
  claim_first-left (suc n) org o js,
  str_eq_iff j.organization org,
  str_eq_iff org o,
  str_eq_refl org,
)

pub claim_for_org-IsUnique :
    (n : ℕ) (org : String) (rows : List Job) → IsUnique rows → IsUnique (claim_for_org n org rows).1
claim_for_org-IsUnique n org rows u =
    rw (claim_for_org_first n org rows u) (subst IsDistinct (sym (claim_first-ids n org rows)) u)

pub claim_for_org-length :
    (n : ℕ) (org : String) (rows : List Job)
    → IsUnique rows
    → length (claim_for_org n org rows).0 ≡ min n (pending_of org rows)
claim_for_org-length n org rows u =
    rw (claim_for_org_first n org rows u) (claim_first-length n org rows)

claim_for_org-own :
    (n : ℕ) (org o : String) (rows : List Job)
    → IsUnique rows
    → jobs_of o (claim_for_org n org rows).0
      ≡ (if str_eq org o then min n (pending_of org rows) else 0)
claim_for_org-own n org o rows u =
    rw (claim_for_org_first n org rows u) (claim_first-own n org o rows)

pub claim_for_org-left :
    (n : ℕ) (org o : String) (rows : List Job)
    → IsUnique rows
    → pending_of o (claim_for_org n org rows).1
      ≡ (if str_eq org o then pending_of o rows - n else pending_of o rows)
claim_for_org-left n org o rows u =
    rw (claim_for_org_first n org rows u) (claim_first-left n org o rows)

-- Every tenant of the loop is given its share, or all it has, and no other tenant is given anything.
pub claim_shares-own :
    (share : ℕ) (o : String) (orgs : List String) (rows : List Job)
    → IsDistinct orgs
    → IsUnique rows
    → jobs_of o (claim_shares share orgs rows).0
      ≡ (if str_mem o orgs then min share (pending_of o rows) else 0)
unfolding claim_shares
claim_shares-own share o [] rows d u = refl
claim_shares-own share o (org ∷ orgs) rows (absent, d) u =
    let (own, rows') = claim_for_org share org rows in
    let rest = claim_shares-own share o orgs rows' d (claim_for_org-IsUnique share org rows u) in
    let total =
      count-append (λ (j : Job). str_eq j.organization o) own (claim_shares share orgs rows').0 in
    ground (
      arith,
      absent,
      total,
      rest,
      claim_for_org-own share org o rows u,
      claim_for_org-left share org o rows u,
      str_eq_iff org o,
      str_eq_iff o org,
    )

pub claim_shares-length :
    (share : ℕ) (orgs : List String) (rows : List Job)
    → IsUnique rows
    → length (claim_shares share orgs rows).0 ≤ share * length orgs
unfolding claim_shares
claim_shares-length share [] rows u = omega arith
claim_shares-length share (org ∷ orgs) rows u =
    let (own, rows') = claim_for_org share org rows in
    let rest = claim_shares-length share orgs rows' (claim_for_org-IsUnique share org rows u) in
    omega (
      arith,
      length-append own (claim_shares share orgs rows').0,
      claim_for_org-length share org rows u,
      rest,
    )
