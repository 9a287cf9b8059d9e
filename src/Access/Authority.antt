-- ===== src/Access/Authority.antt =====
-- services/api_keys.py: assert_grantable over chains of issued keys.
use decepti_forge.Base.{
  String, ◌≡◌, refl, sym, ◌∙◌, ap, true, false, List, [], ◌∷◌, none, some, arith, str_eq_iff,
  str_mem, str_subset, Bool-cases, Option-cases, inl, inr, ◌⊎◌,
}
use decepti_forge.Access.Catalog.{
  role_scopes, permissions, platform_permissions, judge_permissions, platform_roles,
  tenant_grantable_roles, learning_approval, admin_scopes, judge_scopes, demo_scopes, viewer_scopes,
  analyst_scopes, service_scopes,
}
use decepti_forge.Access.Grants.{assert_grantable, check_scopes, meets, mint, minted}

subset-mem :
    (p : String) (ps qs : List String)
    → str_subset ps qs ≡ true
    → str_mem p ps ≡ true
    → str_mem p qs ≡ true
subset-mem p [] qs sub h = absurd (cc h)
subset-mem p (s ∷ ps) qs sub h = ground (arith, subset-mem p ps qs, sub, h, str_eq_iff p s)

disjoint-mem :
    (p : String) (ps qs : List String)
    → meets ps qs ≡ false
    → str_mem p ps ≡ true
    → str_mem p qs ≡ false
disjoint-mem p [] qs apart h = absurd (cc h)
disjoint-mem p (s ∷ ps) qs apart h = ground (arith, disjoint-mem p ps qs, apart, h, str_eq_iff p s)

check_scopes-none :
    (issuer target : List String)
    → check_scopes issuer target ≡ none
    → (meets target platform_permissions ≡ false) × (str_subset target issuer ≡ true)
check_scopes-none issuer target h = elim (Bool-cases (meets target platform_permissions)) [
  | inl bad ↦ absurd (cc (rw bad at h))
  | inr apart ↦ elim (Bool-cases (str_subset target issuer)) [
    | inl sub ↦ (apart, sub)
    | inr beyond ↦ absurd (cc (rw (apart, beyond) at h))
  ]
]

-- The catalog keeps the planes apart, as the assertions of the module demand.
planes_apart :
    (meets judge_permissions permissions ≡ false)
    × (meets judge_permissions platform_permissions ≡ false)
    × (meets judge_scopes platform_permissions ≡ false)
    × (meets demo_scopes platform_permissions ≡ false)
    × (meets demo_scopes judge_permissions ≡ false)
planes_apart = (refl, refl, refl, refl, refl)

of_role :
    (role name : String) (table scopes : List String)
    → role ≡ name
    → role_scopes name ≡ some table
    → role_scopes role ≡ some scopes
    → meets table judge_permissions ≡ false
    → meets scopes judge_permissions ≡ false
of_role role name table scopes same known e apart =
    let tables : some table ≡ some scopes = sym known ∙ ap role_scopes (sym same) ∙ e in
    cc (tables, apart)

is_one_of :
    (role : String)
    → str_mem role tenant_grantable_roles ≡ true
    → (role ≡ "viewer")
      ⊎ ((role ≡ "analyst") ⊎ ((role ≡ "admin") ⊎ ((role ≡ "owner") ⊎ (role ≡ "service"))))
is_one_of role h = ground (
  arith,
  h,
  str_eq_iff role "viewer",
  str_eq_iff role "analyst",
  str_eq_iff role "admin",
  str_eq_iff role "owner",
  str_eq_iff role "service",
)

-- No grantable role has a judge scope.
grantable_cases :
    (role : String) (scopes : List String)
    → str_mem role tenant_grantable_roles ≡ true
    → role_scopes role ≡ some scopes
    → meets scopes judge_permissions ≡ false
unfolding role_scopes
grantable_cases role scopes h e = elim (is_one_of role h) [
  | inl r ↦ of_role role "viewer" viewer_scopes scopes r refl e refl
  | inr (inl r) ↦ of_role role "analyst" analyst_scopes scopes r refl e refl
  | inr (inr (inl r)) ↦ of_role role "admin" admin_scopes scopes r refl e refl
  | inr (inr (inr (inl r))) ↦ of_role role "owner" permissions scopes r refl e refl
  | inr (inr (inr (inr r))) ↦ of_role role "service" service_scopes scopes r refl e refl
]

-- What a grant that is not refused tells.
grant_lem :
    (issuer scopes : List String) (role : String)
    → role_scopes role ≡ some scopes
    → assert_grantable issuer role ≡ none
    → (meets scopes platform_permissions ≡ false)
      × (str_subset scopes issuer ≡ true)
      × (str_mem role tenant_grantable_roles ≡ true)
unfolding assert_grantable
grant_lem issuer scopes role e ok = elim (Bool-cases (str_mem role platform_roles)) [
  | inl bad ↦ absurd (cc (rw (e, bad) at ok))
  | inr tenant ↦ elim (Bool-cases (str_mem role tenant_grantable_roles)) [
    | inr outside ↦ absurd (cc (rw (e, tenant, outside) at ok))
    | inl listed ↦
        let (apart, sub) = check_scopes-none issuer scopes (rw (e, tenant, listed) at ok) in
        (apart, sub, listed)
  ]
]

-- What a key that was minted by an issuer tells.
mint_lem :
    (issuer scopes : List String) (role : String)
    → mint (some issuer) role ≡ minted scopes
    → (role_scopes role ≡ some scopes) × (assert_grantable issuer role ≡ none)
unfolding mint
mint_lem issuer scopes role h = elim (Option-cases (role_scopes role)) [
  | inl unknown ↦ absurd (cc (rw unknown at h))
  | inr (table, known) ↦ elim (Option-cases (assert_grantable issuer role)) [
    | inl ok ↦ (known ∙ cc (rw (ok, known) at h), ok)
    | inr (r, refusal) ↦ absurd (cc (rw (refusal, known) at h))
  ]
]

-- A key that an issuer mints, whatever the issuer holds, carries no permission of the platform and
-- none of the judges, and nothing that the issuer does not hold itself.
pub mint_within :
    (issuer scopes : List String) (role p : String)
    → mint (some issuer) role ≡ minted scopes
    → str_mem p scopes ≡ true
    → (str_mem p issuer ≡ true)
      × (str_mem p platform_permissions ≡ false)
      × (str_mem p judge_permissions ≡ false)
mint_within issuer scopes role p h held =
    let (known, ok) = mint_lem issuer scopes role h in
    let (apart, sub, listed) = grant_lem issuer scopes role known ok in
    (
      subset-mem p scopes issuer sub held,
      disjoint-mem p scopes platform_permissions apart held,
      disjoint-mem p scopes judge_permissions (grantable_cases role scopes listed known) held,
    )

-- The scopes of the keys that can be reached from a key: itself, and what a reached key mints.
pub data IsReached (root : List String) : List String → Type 0 where
  self : IsReached root root
  by_mint :
      {issuer scopes : List String}
      → (role : String) → IsReached root issuer
      → mint (some issuer) role ≡ minted scopes
      → IsReached root scopes

-- No escalation: along any chain of keys, each minted by the one before, every permission of the last
-- key is one of the first.
pub no_escalation :
    (root scopes : List String) (p : String)
    → IsReached root scopes
    → str_mem p scopes ≡ true
    → str_mem p root ≡ true
no_escalation root scopes p self held = held
no_escalation root scopes p (by_mint {issuer = issuer} role chain minted_by) held =
    no_escalation root issuer p chain (mint_within issuer scopes role p minted_by held).0

-- An admin's key, and every key that can be minted from it in any number of steps, can neither
-- approve nor activate a calibration model.
pub admin_never_approves :
    (scopes : List String) (p : String)
    → IsReached admin_scopes scopes
    → str_mem p learning_approval ≡ true
    → str_mem p scopes ≡ false
admin_never_approves scopes p chain approval = elim (Bool-cases (str_mem p scopes)) [
  | inr free ↦ free
  | inl held ↦
      let root = no_escalation admin_scopes scopes p chain held in
      absurd (cc (root, disjoint-mem p learning_approval admin_scopes refl approval))
]
