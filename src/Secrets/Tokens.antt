-- ===== src/Secrets/Tokens.antt =====
-- services/encryption.py: the stored form of an encrypted value. The base64 codec and the Fernet
-- cipher of a secret are parameters, with the law that reading gives back what was written, and so is
-- the hexadecimal digest behind a key's version.
use Prim.Native.Char.{code}
use decepti_forge.Base.{
  String, text_append, ◌≡◌, Bool, true, false, [], ◌∷◌, Option, none, some, if◌then◌else◌, is_text,
  str_eq, ◌==◌,
}
use decepti_forge.Secrets.Fields.{cut, join, lacks}

-- `Fernet(key).encrypt` with the key that `_fernet_for` derives from a secret; the text `nonce` is
-- the random part. `decrypt` is none where Fernet raises InvalidToken or the decoding a ValueError.
pub record Library : Type 0 where
  pub fernet_encrypt : (secret nonce plaintext : String) → String
  pub fernet_decrypt : (secret token : String) → Option String
  pub base64_encode : String → String
  pub base64_decode : String → Option String
  pub hex_version : (secret : String) → String
  pub fernet_lem :
      (secret nonce plaintext : String)
      → fernet_decrypt secret (fernet_encrypt secret nonce plaintext) ≡ some plaintext
  pub base64_lem : (plaintext : String) → base64_decode (base64_encode plaintext) ≡ some plaintext
  pub hex_lem : (secret : String) → lacks ":" (hex_version secret) ≡ true

-- The two providers.
pub data Provider : Type 0 where
  noop : Provider
  local : (secret : String) → Provider

pub data Decrypted : Type 0 where
  decrypted : String → Decrypted
  encryption_error : Decrypted
  value_error : Decrypted

-- `_, _, payload = token.split(":", 2)`; none where that raises ValueError.
unfoldable pub payload_of : (token : String) → Option String
unfolding cut
payload_of token = second_part (cut ":" token).1
  where
    second_part : Option String → Option String
    second_part none = none
    second_part (some rest) = (cut ":" rest).1

abbrev pub or_raise : Decrypted → Option String → Decrypted
or_raise error none = error
or_raise error (some text) = decrypted text

module _ (lib : Library) where
  open lib use {fernet_encrypt, fernet_decrypt, base64_encode, base64_decode, hex_version}

  -- `mode` and `key_version`
  abbrev pub mode_of : Provider → String
  mode_of noop = "disabled"
  mode_of (local secret) = "local"

  abbrev pub key_version : Provider → String
  key_version noop = "none"
  key_version (local secret) = text_append "k" (hex_version secret)

  abbrev pub payload : (nonce : String) → Provider → (plaintext : String) → String
  payload nonce noop plaintext = base64_encode plaintext
  payload nonce (local secret) plaintext = fernet_encrypt secret nonce plaintext

  -- `encrypt` of both providers.
  unfoldable pub encrypt : (nonce : String) → Provider → (plaintext : String) → String
  unfolding join
  encrypt nonce p plaintext = join ":" (mode_of p ∷ key_version p ∷ payload nonce p plaintext ∷ [])

  abbrev pub read_payload : Provider → Option String → Decrypted
  read_payload noop none = value_error
  read_payload noop (some text) = or_raise value_error (base64_decode text)
  read_payload (local secret) none = encryption_error
  read_payload (local secret) (some text) = or_raise encryption_error (fernet_decrypt secret text)

  -- `decrypt` of both providers; the local one turns every failure into EncryptionError.
  unfoldable pub decrypt : Provider → (token : String) → Decrypted
  unfolding payload_of
  decrypt p token = read_payload p (payload_of token)

-- `stored.startswith("{")`
abbrev pub is_json : String → Bool
is_json String.[] = false
is_json (String.◌∷◌ c s) = code c == code "{"

module _ (lib : Library) where
  -- `_seal` of repositories/artifacts.py
  unfoldable pub seal : (nonce : String) → Provider → (serialized : String) → String
  unfolding encrypt
  seal nonce p serialized = encrypt lib nonce p serialized

  -- `_unseal`, which tolerates the plain JSON of older rows.
  unfoldable pub unseal : Provider → (stored : String) → Decrypted
  unfolding decrypt
  unseal p stored = if is_json stored then decrypted stored else decrypt lib p stored

-- The settings that choose the provider.
pub record Settings : Type 0 where
  pub encryption_mode : String
  pub encryption_key : String

pub data Built : Type 0 where
  built : Provider → Built
  runtime_error : (message : String) → Built

-- `build_encryption_provider`
unfoldable pub build_encryption_provider : Settings → Built
build_encryption_provider s =
    if str_eq s.encryption_mode "local"
    then (if is_text s.encryption_key
        then built (local s.encryption_key)
        else runtime_error "EVIDENCE_ENCRYPTION_MODE=local requires EVIDENCE_ENCRYPTION_KEY")
    else if str_eq s.encryption_mode "disabled"
    then built noop
    else runtime_error (text_append "unsupported EVIDENCE_ENCRYPTION_MODE: " s.encryption_mode)

-- `secret_cipher`, with `_DEV_KEY_MATERIAL`.
unfoldable pub secret_cipher : Settings → Provider
secret_cipher s =
    local (
      if is_text s.encryption_key
      then s.encryption_key
      else "deceptiforge-insecure-development-key")
