-- ===== src/Access/Authorize.antt =====
-- security.py: the authentication of a request and the check of a scope. The reading of a text as an
-- id is a parameter. A rejection is written to the audit log and committed; a missing header is none.
use decepti_forge.Base.{
  ℕ, String, Bool, true, not, ◌&&◌, List, [], ◌∷◌, ◌++◌, Option, none, some, if◌then◌else◌, is_text,
  ltb, text_append, str_eq, str_mem,
}
use decepti_forge.Access.Catalog.{permissions}
use decepti_forge.Access.Keys.{
  KeyRow, AuthContext, Authenticated, authenticated, denied, Denied, invalid_key, not_active,
  expired, authenticate,
}

-- The settings that `_authenticate` reads. The bindings are pairs of a key and an organization.
pub record Settings : Type 0 where
  pub auth_enabled : Bool
  pub is_development : Bool
  pub demo_api_key : String
  pub api_key_bindings : List (String × String)
  pub bootstrap_enabled : Bool
  pub bootstrap_expires_at : Option ℕ

-- `SecurityAuditRecord`
pub record Audit : Type 0 where
  pub action : String
  pub outcome : String
  pub organization : Option String
  pub detail : String

-- The outcome of a request: its context, or the status of the HTTPException.
pub data Outcome : Type 0 where
  granted : AuthContext → Outcome
  http_error : (status : ℕ) → Outcome

-- The audit log and the table of keys.
pub record World : Type 0 where
  pub audit : List Audit
  pub keys : List KeyRow

-- `_record_rejection`, followed by the exception.
unfoldable pub reject :
    (status : ℕ) → (action : String) → Option String → (detail : String) → World → Outcome × World
reject status action org detail w = (
  http_error status,
  record w {
    audit =
        w.audit
        ++ record { action = action; outcome = "rejected"; organization = org; detail = detail }
          ∷ [];
  },
)

-- `api_key_bindings.get(api_key)`
abbrev pub binding_of : (api_key : String) → List (String × String) → Option String
binding_of key [] = none
binding_of key ((k, org) ∷ more) = if str_eq k key then some org else binding_of key more

abbrev pub owner_of : (organization : String) → AuthContext
owner_of org = record { organization = org; scopes = permissions; role = "owner"; key_id = none }

-- `bootstrap_active`
abbrev pub is_before : (now : ℕ) → Option ℕ → Bool
is_before now none = true
is_before now (some until) = ltb now until

abbrev pub bootstrap_active : (now : ℕ) → Settings → Bool
bootstrap_active now s = s.bootstrap_enabled && is_before now s.bootstrap_expires_at

-- `error.message`
abbrev pub message_of : Denied → String
message_of invalid_key = "invalid API key"
message_of not_active = "API key is not active"
message_of expired = "API key has expired"

module _ (parse_id : String → Option String) where
  -- The comparison of a parsed header with the organization of the context.
  unfoldable pub compare_org : AuthContext → Option String → World → Outcome × World
  unfolding reject
  compare_org c none w = reject 400 "authz" none "invalid organization id" w
  compare_org c (some org) w =
      if str_eq org c.organization
      then (granted c, w)
      else reject 403 "authz" (some c.organization) "cross-org header" w

  -- The test of the organization header, if there is one.
  unfoldable pub check_header : AuthContext → (org_id : Option String) → World → Outcome × World
  unfolding compare_org
  check_header c none w = (granted c, w)
  check_header c (some text) w = compare_org c (parse_id text) w

  -- The audit event of a bootstrap key that was accepted.
  unfoldable pub after_bootstrap : Outcome × World → Outcome × World
  after_bootstrap (granted c, w) = (
    granted c,
    record w {
      audit =
          w.audit
          ++ record {
            action = "bootstrap_auth_used";
            outcome = "accepted";
            organization = some c.organization;
            detail = "bootstrap key authenticated";
          }
            ∷ [];
    },
  )
  after_bootstrap (http_error status, w) = (http_error status, w)

  -- The bootstrap key that is bound to an organization.
  unfoldable pub bootstrap :
      (bound_org : Option String) → (org_id : Option String) → World → Outcome × World
  unfolding reject check_header after_bootstrap
  bootstrap none org_id w = reject 400 "authz" none "invalid organization id" w
  bootstrap (some org) org_id w = after_bootstrap (check_header (owner_of org) org_id w)

  -- The static key of development: the organization of the header, or the demo organization.
  unfoldable pub demo_access :
      (demo_organization : String) → (org_id : Option String) → World → Outcome × World
  unfolding reject
  demo_access demo none w = (granted (owner_of demo), w)
  demo_access demo (some text) w =
      if is_text text
      then (elim (parse_id text) [
        | none ↦ reject 400 "authz" none "invalid organization id" w
        | some org ↦ (granted (owner_of org), w)
      ])
      else (granted (owner_of demo), w)

  module _ (hash_key : String → String) (demo_organization : String) where
    -- What follows the authentication of a key of the table.
    unfoldable pub with_context : (org_id : Option String) → Authenticated → World → Outcome × World
    unfolding reject check_header
    with_context org_id (authenticated c) w = check_header c org_id w
    with_context org_id (denied d) w = reject 401 "auth" none (message_of d) w

    unfoldable pub with_table_key :
        (now : ℕ) → (api_key : String) → (org_id : Option String) → World → Outcome × World
    unfolding with_context authenticate
    with_table_key now key org_id w =
        let (result, keys) = authenticate hash_key now key w.keys in
        with_context org_id result (record w { keys = keys })

    unfoldable pub with_key :
        (now : ℕ)
        → Settings
        → (api_key : String) → (org_id : Option String) → World
        → Outcome × World
    unfolding reject bootstrap demo_access with_table_key
    with_key now s key org_id w =
        if s.is_development && str_eq key s.demo_api_key
        then demo_access demo_organization org_id w
        else (elim (binding_of key s.api_key_bindings) [
          | some bound ↦
              if bootstrap_active now s
              then bootstrap (parse_id bound) org_id w
              else reject 401 "auth" none "bootstrap key rejected (disabled or expired)" w
          | none ↦ with_table_key now key org_id w
        ])

    -- `_authenticate`; a key that is missing or empty is the empty text.
    unfoldable pub authenticate_request :
        (now : ℕ)
        → Settings
        → (api_key : String) → (org_id : Option String) → World
        → Outcome × World
    unfolding reject with_key
    authenticate_request now s key org_id w =
        if not s.auth_enabled
        then (if s.is_development
            then (granted (owner_of demo_organization), w)
            else (http_error 401, w))
        else if is_text key
        then with_key now s key org_id w
        else reject 401 "auth" none "missing key" w

    unfoldable pub in_scope : (scope : String) → Outcome × World → Outcome × World
    unfolding reject
    in_scope scope (http_error status, w) = (http_error status, w)
    in_scope scope (granted c, w) =
        if str_mem scope c.scopes
        then (granted c, w)
        else reject 403 "authz" (some c.organization) (text_append "missing " scope) w

    -- `require_scope`
    unfoldable pub require_scope :
        (scope : String)
        → (now : ℕ) → Settings
        → (api_key : String) → (org_id : Option String) → World
        → Outcome × World
    unfolding authenticate_request in_scope
    require_scope scope now s key org_id w =
        in_scope scope (authenticate_request now s key org_id w)
