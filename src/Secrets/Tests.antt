-- ===== src/Secrets/Tests.antt =====
-- Round trips and canonical forms at concrete values, with a library that encrypts nothing.
use decepti_forge.Base.{String, ◌≡◌, refl, true, some}
use decepti_forge.Secrets.Fields.{lacks}
use decepti_forge.Secrets.Tokens.{Library, noop, decrypted, seal, unseal}
use decepti_forge.Secrets.Roundtrip.{unseal-seal}
use decepti_forge.Secrets.Signing.{Request, canonical_request, canonical_binds}

version_plain : (secret : String) → lacks ":" "0123456789ab" ≡ true
unfolding lacks
version_plain secret = refl

abbrev plain_library : Library
plain_library = record {
  fernet_encrypt = λ secret nonce text. text;
  fernet_decrypt = λ secret token. some token;
  base64_encode = λ text. text;
  base64_decode = λ text. some text;
  hex_version = λ secret. "0123456789ab";
  fernet_lem = λ secret nonce text. refl;
  base64_lem = λ text. refl;
  hex_lem = version_plain;
}

unseal-seal_example : unseal plain_library noop (seal plain_library "n" noop "{}") ≡ decrypted "{}"
unseal-seal_example = unseal-seal plain_library "n" noop "{}"

abbrev request : Request
request = record {
  method = "POST";
  path = "/monitor";
  organization_id = "acme";
  monitor_id = "m1";
  timestamp = "10";
  nonce = "abc";
  body = "{}";
}

-- Another body with the same digest under a digest that forgets everything.
abbrev request' : Request
request' = record request { body = "[]" }

canonical_binds_example :
    (request.method ≡ request'.method)
    × (request.path ≡ request'.path)
    × (request.organization_id ≡ request'.organization_id)
    × (request.monitor_id ≡ request'.monitor_id)
    × (request.timestamp ≡ request'.timestamp)
    × (request.nonce ≡ request'.nonce)
    × (◌≡◌ {A = String} "digest" "digest")
unfolding lacks canonical_request
canonical_binds_example =
    canonical_binds (λ s. s) (λ s. "digest") request request'
      (refl, (refl, (refl, (refl, (refl, (refl, (refl, (refl, tt))))))))
      (refl, (refl, (refl, (refl, (refl, (refl, (refl, (refl, tt)))))))) refl
