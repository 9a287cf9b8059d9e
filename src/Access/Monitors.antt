-- ===== src/Access/Monitors.antt =====
-- services/monitor_credentials.py: the credentials of monitors and the check of a signed request. The
-- cipher, the digests and `str.upper` are parameters; the identity that `generate_monitor_identity`
-- draws is an argument. A header that is missing is the empty text, which the code treats alike.
use decepti_forge.Base.{
  ℕ, String, Bool, true, not, ◌&&◌, List, [], ◌∷◌, ◌++◌, Option, none, some, if◌then◌else◌, is_text,
  str_eq, any,
}
use decepti_forge.Secrets.Tokens.{
  Library, Provider, Decrypted, decrypted, encrypt, decrypt, key_version,
}
use decepti_forge.Secrets.Signing.{Request, canonical_request, verify}
use decepti_forge.Access.Keys.{is_expired}

-- `MonitorCredentialRecord`
pub record MonitorRow : Type 0 where
  pub credential_id : String
  pub organization : String
  pub monitor_id : String
  pub secret_ciphertext : String
  pub secret_key_version : String
  pub is_active : Bool
  pub expires_at : Option ℕ
  pub last_used_at : Option ℕ

-- The errors of `verify_request`.
pub data MonitorError : Type 0 where
  missing_headers unknown_credential other_organization not_active expired unreadable
        invalid_signature :
      MonitorError

-- What `verify_request` returns or raises.
pub data Verified : Type 0 where
  verified : (credential_id monitor_id organization : String) → Verified
  monitor_error : MonitorError → Verified

-- The query by the monitor id.
unfoldable pub find_monitor : (monitor_id : String) → List MonitorRow → Option MonitorRow
find_monitor id [] = none
find_monitor id (r ∷ rs) = if str_eq r.monitor_id id then some r else find_monitor id rs

-- `record.last_used_at = now` on the row that was found.
unfoldable pub touch : (now : ℕ) → (monitor_id : String) → List MonitorRow → List MonitorRow
touch now id [] = []
touch now id (r ∷ rs) =
    if str_eq r.monitor_id id
    then record r { last_used_at = some now } ∷ rs
    else r ∷ touch now id rs

-- The test on the headers.
abbrev pub has_headers : Request → (signature : String) → Bool
has_headers q signature =
    is_text q.monitor_id && (is_text q.timestamp && (is_text q.nonce && is_text signature))

module _ (lib : Library) (cipher : Provider) where
  -- The record of a new credential.
  unfoldable pub new_monitor :
      (credential_id organization monitor_id secret nonce : String) → Option ℕ → MonitorRow
  unfolding encrypt
  new_monitor id org monitor secret nonce expires = record {
    credential_id = id;
    organization = org;
    monitor_id = monitor;
    secret_ciphertext = encrypt lib nonce cipher secret;
    secret_key_version = key_version lib cipher;
    is_active = true;
    expires_at = expires;
    last_used_at = none;
  }

  -- `create`; none where the unique constraint on the monitor id fails.
  unfoldable pub create :
      (credential_id organization monitor_id secret nonce : String)
      → (expires_at : Option ℕ) → List MonitorRow
      → Option (List MonitorRow)
  unfolding new_monitor
  create id org monitor secret nonce expires rows =
      if any (λ (r : MonitorRow). str_eq r.monitor_id monitor) rows
      then none
      else some (rows ++ new_monitor id org monitor secret nonce expires ∷ [])

module _ (lib : Library) (upper sha256 : String → String) (hmac : String → String → String)
    (cipher : Provider) where
  -- The check of the signature with the decrypted secret.
  unfoldable pub check_signature :
      Request → (signature : String) → MonitorRow → Decrypted → Verified
  unfolding canonical_request verify
  check_signature q signature r (decrypted secret) =
      if verify hmac secret (canonical_request upper sha256 q) signature
      then verified r.credential_id q.monitor_id q.organization_id
      else monitor_error invalid_signature
  check_signature q signature r _ = monitor_error unreadable

  -- The tests on the row that was found.
  unfoldable pub check_monitor :
      (now : ℕ) → Request → (signature : String) → Option MonitorRow → Verified
  unfolding decrypt check_signature
  check_monitor now q signature none = monitor_error unknown_credential
  check_monitor now q signature (some r) =
      if not (str_eq r.organization q.organization_id)
      then monitor_error other_organization
      else if not r.is_active
      then monitor_error not_active
      else if is_expired now r.expires_at
      then monitor_error expired
      else check_signature q signature r (decrypt lib cipher r.secret_ciphertext)

  unfoldable pub after_check :
      (now : ℕ) → Request → List MonitorRow → Verified → Verified × List MonitorRow
  unfolding touch
  after_check now q rows (verified id monitor org) =
      (verified id monitor org, touch now q.monitor_id rows)
  after_check now q rows (monitor_error e) = (monitor_error e, rows)

  -- `verify_request`
  unfoldable pub verify_request :
      (now : ℕ) → Request → (signature : String) → List MonitorRow → Verified × List MonitorRow
  unfolding find_monitor check_monitor after_check
  verify_request now q signature rows =
      if has_headers q signature
      then after_check now q rows (check_monitor now q signature (find_monitor q.monitor_id rows))
      else (monitor_error missing_headers, rows)
