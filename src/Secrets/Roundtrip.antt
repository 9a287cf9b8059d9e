-- ===== src/Secrets/Roundtrip.antt =====
-- What is stored can be read again.
use Prim.Native.Char.{Char, code}
use text.Mathlib.TextLemmas.{nil-append, cons-append}
use decepti_forge.Base.{
  String, text_append, ◌≡◌, refl, ap, true, false, [], ◌∷◌, Option, some, ◌==◌,
}
use decepti_forge.Secrets.Fields.{join, cut-join, lacks}
use decepti_forge.Secrets.Tokens.{
  Library, Provider, noop, local, decrypted, payload_of, key_version, payload, encrypt, decrypt,
  is_json, seal, unseal,
}

payload_of_token :
    (mode version body : String)
    → lacks ":" mode ≡ true
    → lacks ":" version ≡ true
    → payload_of (join ":" (mode ∷ version ∷ body ∷ [])) ≡ some body
unfolding payload_of join
payload_of_token mode version body hm hv =
    rw (cut-join ":" mode version (body ∷ []) hm)
      (ap (λ (p : String × Option String). p.1) (cut-join ":" version body [] hv))

plain_disabled : lacks ":" "disabled" ≡ true
unfolding lacks
plain_disabled = refl

plain_none : lacks ":" "none" ≡ true
unfolding lacks
plain_none = refl

plain_local : lacks ":" "local" ≡ true
unfolding lacks
plain_local = refl

plain_version : (hex : String) → lacks ":" hex ≡ true → lacks ":" (text_append "k" hex) ≡ true
unfolding lacks
plain_version hex h = rw (cons-append "k" "" hex, nil-append) h

not_json :
    (c : Char) (mode version body : String)
    → (code c == code "{") ≡ false
    → is_json (join ":" (String.◌∷◌ c mode ∷ version ∷ body ∷ [])) ≡ false
unfolding join
not_json c mode version body h = rw cons-append h

module _ (lib : Library) where
  open lib use {fernet_lem, base64_lem, hex_lem}

  token_payload :
      (nonce : String) (p : Provider) (text : String)
      → payload_of (encrypt lib nonce p text) ≡ some (payload lib nonce p text)
  unfolding encrypt
  token_payload nonce noop text = payload_of_token "disabled" "none" _ plain_disabled plain_none
  token_payload nonce (local secret) text =
      payload_of_token "local" _ _ plain_local
        (plain_version (lib.hex_version secret) (hex_lem secret))

  -- Every value that a provider encrypts, with any random part, it decrypts to the same value; the
  -- payload may hold any separators.
  pub decrypt-encrypt :
      (nonce : String) (p : Provider) (plaintext : String)
      → decrypt lib p (encrypt lib nonce p plaintext) ≡ decrypted plaintext
  unfolding decrypt
  decrypt-encrypt nonce noop text = rw (token_payload nonce noop text, base64_lem text)
  decrypt-encrypt nonce (local secret) text =
      rw (token_payload nonce (local secret) text, fernet_lem secret nonce text)

  -- What the repository seals it reads again, since no token begins like the plain JSON of older rows.
  pub unseal-seal :
      (nonce : String) (p : Provider) (serialized : String)
      → unseal lib p (seal lib nonce p serialized) ≡ decrypted serialized
  unfolding unseal seal encrypt
  unseal-seal nonce noop text =
      rw (not_json "d" "isabled" (key_version lib noop) (payload lib nonce noop text) refl)
        (decrypt-encrypt nonce noop text)
  unseal-seal nonce (local secret) text =
      rw
        (not_json "l" "ocal" (key_version lib (local secret))
          (payload lib nonce (local secret) text) refl)
        (decrypt-encrypt nonce (local secret) text)
