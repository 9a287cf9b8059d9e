-- ===== src/Access/Grants.antt =====
-- services/api_keys.py: what an issuer may grant.
use decepti_forge.Base.{
  String, Bool, not, List, Option, none, some, if◌then◌else◌, str_mem, str_subset, any,
}
use decepti_forge.Access.Catalog.{
  role_scopes, platform_permissions, platform_roles, tenant_grantable_roles,
}

-- The errors of `assert_grantable`.
pub data Refusal : Type 0 where
  unknown_role platform_role out_of_band_role platform_permission beyond_issuer : Refusal

-- The intersection of two sets is not empty.
abbrev pub meets : List String → List String → Bool
meets scopes others = any (λ (p : String). str_mem p others) scopes

-- `assert_grantable`: none where it raises nothing.
abbrev pub check_scopes : (issuer_scopes target_scopes : List String) → Option Refusal
check_scopes issuer target =
    if meets target platform_permissions
    then some platform_permission
    else if not (str_subset target issuer)
    then some beyond_issuer
    else none

abbrev pub check_role :
    (issuer_scopes : List String) → (target_role : String) → Option (List String) → Option Refusal
check_role issuer role none = some unknown_role
check_role issuer role (some target) =
    if str_mem role platform_roles
    then some platform_role
    else if not (str_mem role tenant_grantable_roles)
    then some out_of_band_role
    else check_scopes issuer target

unfoldable pub assert_grantable :
    (issuer_scopes : List String) → (target_role : String) → Option Refusal
unfolding role_scopes
assert_grantable issuer role = check_role issuer role (role_scopes role)

-- The scopes of the key that `ApiKeyService.create` makes, or the refusal. Without an issuer, which
-- is the provisioning from outside, only the role is looked up.
pub data Minted : Type 0 where
  minted : (scopes : List String) → Minted
  refused : Refusal → Minted

abbrev pub scopes_of : Option (List String) → Minted
scopes_of none = refused unknown_role
scopes_of (some scopes) = minted scopes

abbrev pub unless_refused : Option Refusal → Minted → Minted
unless_refused none m = m
unless_refused (some r) m = refused r

abbrev pub mint_for : Option Refusal → Option (List String) → Minted
mint_for refusal none = refused unknown_role
mint_for refusal (some scopes) = unless_refused refusal (minted scopes)

unfoldable pub mint : (issuer_scopes : Option (List String)) → (role : String) → Minted
unfolding role_scopes
mint none role = scopes_of (role_scopes role)
mint (some issuer) role = mint_for (assert_grantable issuer role) (role_scopes role)
