-- ===== src/Access/Keys.antt =====
-- services/api_keys.py: ApiKeyService over the table of keys, in the order that the database returns
-- them. The digest of a key's text is a parameter, and the prefix and the secret that `generate_key`
-- draws are arguments; times are compared as they are stored.
use decepti_forge.Base.{
  ℕ, String, Bool, true, false, not, List, [], ◌∷◌, ◌++◌, Option, none, some, if◌then◌else◌, ltb,
  str_eq,
}
use decepti_forge.Secrets.Fields.{cut, join}
use decepti_forge.Access.Grants.{Refusal, Minted, minted, refused, mint}

-- `ApiKeyRecord`
pub record KeyRow : Type 0 where
  pub key_id : String
  pub organization : String
  pub key_prefix : String
  pub key_hash : String
  pub role : String
  pub scopes : List String
  pub is_active : Bool
  pub expires_at : Option ℕ
  pub last_used_at : Option ℕ

-- `AuthContext`
pub record AuthContext : Type 0 where
  pub organization : String
  pub scopes : List String
  pub role : String
  pub key_id : Option String

-- The errors of `authenticate`.
pub data Denied : Type 0 where
  invalid_key not_active expired : Denied

pub data Authenticated : Type 0 where
  authenticated : AuthContext → Authenticated
  denied : Denied → Authenticated

-- What `create` returns or raises.
pub data Created : Type 0 where
  created : KeyRow → Created
  not_grantable : Refusal → Created

-- The text of a new key, as `generate_key` writes it.
unfoldable pub key_text : (prefix secret : String) → String
unfolding join
key_text prefix secret = join "_" ("dfk" ∷ prefix ∷ secret ∷ [])

-- The prefix of a text: the part behind "dfk_" up to the next separator, or "".
unfoldable pub prefix_in : String × Option String → String
unfolding cut
prefix_in (before, none) = ""
prefix_in (before, some rest) = if str_eq before "dfk" then (cut "_" rest).0 else ""

unfoldable pub prefix_of : (plaintext : String) → String
unfolding cut prefix_in
prefix_of plaintext = prefix_in (cut "_" plaintext)

-- `revoke`
unfoldable pub revoke : (organization key_id : String) → List KeyRow → Bool × List KeyRow
revoke org id [] = (false, [])
revoke org id (r ∷ rs) =
    let (done, rest) = revoke org id rs in
    if str_eq r.key_id id
    then (if str_eq r.organization org
        then (true, record r { is_active = false } ∷ rs)
        else (false, r ∷ rs))
    else (done, r ∷ rest)

abbrev pub is_expired : (now : ℕ) → Option ℕ → Bool
is_expired now none = false
is_expired now (some until) = ltb until now

module _ (hash_key : String → String) where
  unfoldable pub insert_key :
      (key_id organization role prefix secret : String) (expires_at : Option ℕ)
      → Minted
      → List KeyRow
      → Created × List KeyRow
  unfolding key_text
  insert_key id org role prefix secret expires (refused r) rows = (not_grantable r, rows)
  insert_key id org role prefix secret expires (minted scopes) rows =
      let row : KeyRow = record {
        key_id = id;
        organization = org;
        key_prefix = prefix;
        key_hash = hash_key (key_text prefix secret);
        role = role;
        scopes = scopes;
        is_active = true;
        expires_at = expires;
        last_used_at = none;
      } in
      (created row, rows ++ row ∷ [])

  -- `create`
  unfoldable pub create :
      (key_id organization role : String)
      → (issuer_scopes : Option (List String)) → (prefix secret : String) → (expires_at : Option ℕ)
      → List KeyRow
      → Created × List KeyRow
  unfolding insert_key
  create id org role issuer prefix secret expires rows =
      insert_key id org role prefix secret expires (mint issuer role) rows

  -- The tests on the row that was found.
  abbrev pub check_row : (now : ℕ) → (plaintext : String) → KeyRow → Authenticated × KeyRow
  check_row now plaintext r =
      if not (str_eq r.key_hash (hash_key plaintext))
      then (denied invalid_key, r)
      else if not r.is_active
      then (denied not_active, r)
      else if is_expired now r.expires_at
      then (denied expired, r)
      else (
        authenticated (record {
          organization = r.organization;
          scopes = r.scopes;
          role = r.role;
          key_id = some r.key_id;
        }),
        record r { last_used_at = some now },
      )

  -- `authenticate`: the first row with the prefix is the one that is tested.
  unfoldable pub authenticate :
      (now : ℕ) → (plaintext : String) → List KeyRow → Authenticated × List KeyRow
  authenticate now plaintext [] = (denied invalid_key, [])
  authenticate now plaintext (r ∷ rs) =
      let (result, rest) = authenticate now plaintext rs in
      let (found, r') = check_row now plaintext r in
      if str_eq r.key_prefix (prefix_of plaintext) then (found, r' ∷ rs) else (result, r ∷ rest)
