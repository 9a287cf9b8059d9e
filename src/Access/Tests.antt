-- ===== src/Access/Tests.antt =====
-- Keys, monitors and requests at concrete values.
use decepti_forge.Base.{String, ◌≡◌, ◌≢◌, refl, true, false, List, [], ◌∷◌, none, some, str_mem}
use decepti_forge.Secrets.Fields.{lacks}
use decepti_forge.Secrets.Tokens.{Library, local}
use decepti_forge.Secrets.Signing.{Request, canonical_request, sign}
use decepti_forge.Access.Catalog.{role_scopes, admin_scopes, service_scopes}
use decepti_forge.Access.Grants.{mint, minted, assert_grantable}
use decepti_forge.Access.Authority.{IsReached, self, by_mint, no_escalation}
use decepti_forge.Access.Keys.{KeyRow, authenticated, authenticate, create, revoke, key_text}
use decepti_forge.Access.Sessions.{authenticate-create}
use decepti_forge.Access.Revocation.{key_of, run, revokes, authenticates, revoked_forever}
use decepti_forge.Access.Monitors
use decepti_forge.Access.Monitors.{
  MonitorRow, find_monitor, new_monitor, verify_request, check_monitor,
}
use decepti_forge.Access.Signatures.{
  credential_of, IsSigned, verify_request_sound, verify_request-create,
}
use decepti_forge.Access.Authorize.{Settings, World, require_scope}
use decepti_forge.Access.Tenancy.{Holds, IsNamed, IsAudited, require_scope_checked}

minted_service : mint (some admin_scopes) "service" ≡ minted service_scopes
unfolding mint assert_grantable role_scopes
minted_service = refl

abbrev chain : IsReached admin_scopes service_scopes
chain = by_mint "service" self minted_service

no_escalation_example : str_mem "coverage:recalculate" admin_scopes ≡ true
no_escalation_example = no_escalation admin_scopes service_scopes "coverage:recalculate" chain refl

abbrev digest : String → String
digest text = text

prefix_plain : lacks "_" "0a1b" ≡ true
unfolding lacks
prefix_plain = refl

authenticate-create_example :
    (authenticate digest 5
      (key_text "0a1b" "s_e")
      (create digest "k1" "acme" "service" (some admin_scopes) "0a1b" "s_e" (some 9) []).1).0
    ≡ authenticated (record {
      organization = "acme";
      scopes = service_scopes;
      role = "service";
      key_id = some "k1";
    })
authenticate-create_example =
    authenticate-create digest "k1" "acme" "service" (some admin_scopes) service_scopes "0a1b" "s_e"
      (some 9) 5 [] minted_service prefix_plain refl refl

abbrev keys : List KeyRow
keys =
    record {
      key_id = "k1";
      organization = "acme";
      key_prefix = "0a1b";
      key_hash = "dfk_0a1b_s";
      role = "service";
      scopes = service_scopes;
      is_active = true;
      expires_at = none;
      last_used_at = none;
    }
    ∷ []

revoked : (revoke "acme" "k1" keys).0 ≡ true
unfolding revoke
revoked = refl

revoked_forever_example :
    key_of
      (authenticate digest 8 "dfk_0a1b_s" (
        run digest
          (authenticates 6 "dfk_0a1b_s" ∷ revokes "acme" "k1" ∷ [])
          (revoke "acme" "k1" keys).1)).0
    ≢ some "k1"
revoked_forever_example =
    revoked_forever digest "acme" "k1" "dfk_0a1b_s" 8
      (authenticates 6 "dfk_0a1b_s" ∷ revokes "acme" "k1" ∷ []) keys (refl, tt) revoked
      (tt, (tt, tt))

version_plain : (secret : String) → lacks ":" "0123456789ab" ≡ true
unfolding lacks
version_plain secret = refl

-- A library that encrypts nothing.
abbrev library : Library
library = record {
  fernet_encrypt = λ secret nonce text. text;
  fernet_decrypt = λ secret token. some token;
  base64_encode = λ text. text;
  base64_decode = λ text. some text;
  hex_version = λ secret. "0123456789ab";
  fernet_lem = λ secret nonce text. refl;
  base64_lem = λ text. refl;
  hex_lem = version_plain;
}

abbrev request : Request
request = record {
  method = "POST";
  path = "/monitor";
  organization_id = "acme";
  monitor_id = "dfm_1";
  timestamp = "10";
  nonce = "abc";
  body = "{}";
}

-- A signature that forgets the text.
abbrev sign_with : (secret text : String) → String
sign_with secret text = secret

abbrev monitors : List MonitorRow
monitors = new_monitor library (local "key") "c1" "acme" "dfm_1" "secret" "n" none ∷ []

made :
    Monitors.create library (local "key") "c1" "acme" "dfm_1" "secret" "n" none [] ≡ some monitors
unfolding Monitors.create
made = refl

verify_request-create_example :
    credential_of
      (verify_request library digest digest sign_with
        (local "key")
        7
        request
        (sign sign_with "secret" (canonical_request digest digest request))
        monitors).0
    ≡ some "c1"
verify_request-create_example =
    verify_request-create library digest digest sign_with (local "key") "c1" "acme" "dfm_1" "secret"
      "n" none 7 request [] monitors made refl refl refl refl

accepted :
    credential_of
      (verify_request library digest digest sign_with (local "key") 7 request "secret" monitors).0
    ≡ some "c1"
accepted =
    verify_request-create library digest digest sign_with (local "key") "c1" "acme" "dfm_1" "secret"
      "n" none 7 request [] monitors made refl refl refl refl

verify_request_sound_example :
    (r : MonitorRow) × (find_monitor "dfm_1" monitors ≡ some r)
    × ("c1" ≡ r.credential_id)
    × IsSigned library digest digest sign_with (local "key") 7 request "secret" r
verify_request_sound_example =
    verify_request_sound library digest digest sign_with (local "key") 7 request "secret" "c1"
      monitors accepted

abbrev settings : Settings
settings = record {
  auth_enabled = true;
  is_development = false;
  demo_api_key = "";
  api_key_bindings = [];
  bootstrap_enabled = false;
  bootstrap_expires_at = none;
}

abbrev world : World
world = record { audit = []; keys = keys }

require_scope_checked_example :
    let r =
      require_scope
        (λ s. some s)
        digest
        "demo"
        "monitoring:ingest"
        7
        settings
        "dfk_0a1b_s"
        (some "other")
        world in
    Holds "monitoring:ingest" r.0 × IsNamed (λ s. some s) (some "other") r.0 × IsAudited world r
require_scope_checked_example =
    require_scope_checked (λ s. some s) digest "demo" "monitoring:ingest" 7 settings "dfk_0a1b_s"
      (some "other") world refl refl
