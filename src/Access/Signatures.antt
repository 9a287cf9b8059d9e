-- ===== src/Access/Signatures.antt =====
-- services/monitor_credentials.py: verify_request after create, and what it accepts.
use decepti_forge.Base.{
  ℕ, String, ◌≡◌, refl, sym, ◌∙◌, Bool, true, false, List, [], ◌∷◌, ◌++◌, Option, none, some,
  str_eq, str_eq_iff, str_eq_refl, any, arith, Bool-cases, inl, inr,
}
use decepti_forge.Secrets.Tokens.{
  Library, Provider, Decrypted, decrypted, encryption_error, value_error, decrypt,
}
use decepti_forge.Secrets.Roundtrip.{decrypt-encrypt}
use decepti_forge.Secrets.Signing.{Request, canonical_request, sign, verify}
use decepti_forge.Access.Keys.{is_expired}
use decepti_forge.Access.Monitors.{
  MonitorRow, Verified, verified, monitor_error, find_monitor, new_monitor, create, check_signature,
  check_monitor, has_headers, after_check, verify_request,
}

-- The credential of a request that was accepted.
abbrev pub credential_of : Verified → Option String
credential_of (verified id monitor org) = some id
credential_of (monitor_error e) = none

abbrev pub has_monitor : String → List MonitorRow → Bool
has_monitor monitor rows = any (λ (r : MonitorRow). str_eq r.monitor_id monitor) rows

find_last :
    (monitor : String) (r : MonitorRow) (rows : List MonitorRow)
    → has_monitor monitor rows ≡ false
    → r.monitor_id ≡ monitor
    → find_monitor monitor (rows ++ r ∷ []) ≡ some r
unfolding find_monitor
find_last monitor r [] fresh same = ground (arith, same, str_eq_iff r.monitor_id monitor)
find_last monitor r (x ∷ xs) fresh same = ground (arith, fresh, same, find_last monitor r xs)

module _ (lib : Library) (cipher : Provider) where
  new_name :
      (id org monitor secret nonce : String) (expires : Option ℕ)
      → (new_monitor lib cipher id org monitor secret nonce expires).monitor_id ≡ monitor
  unfolding new_monitor
  new_name id org monitor secret nonce expires = refl

  create_lem :
      (id org monitor secret nonce : String) (expires : Option ℕ) (rows rows' : List MonitorRow)
      → create lib cipher id org monitor secret nonce expires rows ≡ some rows'
      → (has_monitor monitor rows ≡ false)
        × (rows' ≡ rows ++ new_monitor lib cipher id org monitor secret nonce expires ∷ [])
  unfolding create
  create_lem id org monitor secret nonce expires rows rows' made =
      elim (Bool-cases (has_monitor monitor rows)) [
        | inl taken ↦ absurd (cc (rw taken at made))
        | inr fresh ↦ (fresh, cc (rw fresh at made))
      ]

module _ (lib : Library) (upper sha256 : String → String) (hmac : String → String → String)
    (cipher : Provider) where
  -- Why a request was accepted: the row of its monitor, and the secret behind its signature.
  pub record IsSigned (now : ℕ) (q : Request) (signature : String) (row : MonitorRow) : Type 0 where
    pub secret : String
    pub reads : decrypt lib cipher row.secret_ciphertext ≡ decrypted secret
    pub signs : signature ≡ hmac secret (canonical_request upper sha256 q)
    pub owns : row.organization ≡ q.organization_id
    pub active : row.is_active ≡ true
    pub alive : is_expired now row.expires_at ≡ false

  signed_secret :
      (q : Request) (signature : String) (r : MonitorRow) (d : Decrypted) (id : String)
      → credential_of (check_signature lib upper sha256 hmac cipher q signature r d) ≡ some id
      → (secret : String) × (d ≡ decrypted secret)
        × (signature ≡ hmac secret (canonical_request upper sha256 q))
        × (id ≡ r.credential_id)
  unfolding verify check_signature
  signed_secret q signature r (decrypted secret) id ok =
      let text = canonical_request upper sha256 q in
      elim (Bool-cases (str_eq (hmac secret text) signature)) [
        | inr forged ↦ absurd (cc (rw forged at ok))
        | inl same ↦ (
          secret,
          refl,
          sym ((str_eq_iff (hmac secret text) signature).0 same),
          cc (rw same at ok),
        )
      ]
  signed_secret q signature r encryption_error id ok = absurd (cc ok)
  signed_secret q signature r value_error id ok = absurd (cc ok)

  checked :
      (now : ℕ) (q : Request) (signature id : String) (found : Option MonitorRow)
      → credential_of (check_monitor lib upper sha256 hmac cipher now q signature found) ≡ some id
      → (r : MonitorRow) × (found ≡ some r) × (id ≡ r.credential_id) × IsSigned now q signature r
  unfolding check_monitor
  checked now q signature id none ok = absurd (cc ok)
  checked now q signature id (some r) ok =
      elim (Bool-cases (str_eq r.organization q.organization_id)) [
        | inr foreign ↦ absurd (cc (rw foreign at ok))
        | inl own ↦ elim (Bool-cases r.is_active) [
          | inr stopped ↦ absurd (cc (rw (own, stopped) at ok))
          | inl active ↦ elim (Bool-cases (is_expired now r.expires_at)) [
            | inl late ↦ absurd (cc (rw (own, active, late) at ok))
            | inr alive ↦
                let (secret, reads, signs, same) =
                  signed_secret q signature r (decrypt lib cipher r.secret_ciphertext) id
                    (rw (own, active, alive) at ok) in
                (
                  r,
                  refl,
                  same,
                  record {
                    secret = secret;
                    reads = reads;
                    signs = signs;
                    owns = (str_eq_iff r.organization q.organization_id).0 own;
                    active = active;
                    alive = alive;
                  },
                )
          ]
        ]
      ]

  credential_after :
      (now : ℕ) (q : Request) (rows : List MonitorRow) (v : Verified)
      → credential_of (after_check lib upper sha256 hmac cipher now q rows v).0 ≡ credential_of v
  unfolding after_check
  credential_after now q rows (verified id monitor org) = refl
  credential_after now q rows (monitor_error e) = refl

  -- A request is accepted only if it is signed: there is a row for its monitor that belongs to its
  -- organization, is active and has not expired, and the signature is the HMAC of the request's
  -- canonical form under the secret that the row's ciphertext reads as.
  pub verify_request_sound :
      (now : ℕ) (q : Request) (signature id : String) (rows : List MonitorRow)
      → credential_of (verify_request lib upper sha256 hmac cipher now q signature rows).0 ≡ some id
      → (r : MonitorRow) × (find_monitor q.monitor_id rows ≡ some r)
        × (id ≡ r.credential_id)
        × IsSigned now q signature r
  unfolding verify_request
  verify_request_sound now q signature id rows ok =
      let found = find_monitor q.monitor_id rows in
      let v = check_monitor lib upper sha256 hmac cipher now q signature found in
      elim (Bool-cases (has_headers q signature)) [
        | inr missing ↦ absurd (cc (rw missing at ok))
        | inl complete ↦
            checked now q signature id found
              (sym (credential_after now q rows v) ∙ (rw complete at ok))
      ]

  own_signature :
      (q : Request) (secret : String) (r : MonitorRow)
      → credential_of (
          check_signature lib upper sha256 hmac cipher q
            (hmac secret (canonical_request upper sha256 q))
            r
            (decrypted secret))
        ≡ some r.credential_id
  unfolding check_signature verify
  own_signature q secret r = rw (str_eq_refl (hmac secret (canonical_request upper sha256 q)))

  accepts :
      (now : ℕ) (q : Request) (id org monitor secret nonce : String) (expires : Option ℕ)
      → q.organization_id ≡ org
      → is_expired now expires ≡ false
      → credential_of (
          check_monitor lib upper sha256 hmac cipher now q
            (hmac secret (canonical_request upper sha256 q))
            (some (new_monitor lib cipher id org monitor secret nonce expires)))
        ≡ some id
  unfolding check_monitor new_monitor
  accepts now q id org monitor secret nonce expires owned alive =
      let own : str_eq org q.organization_id ≡ true = rw owned (str_eq_refl org) in
      rw (own, alive, decrypt-encrypt lib nonce cipher secret)
        (own_signature q secret (new_monitor lib cipher id org monitor secret nonce expires))

  -- A monitor that was created can sign: a request of its organization with all headers, signed with
  -- the secret that `create` returned, is accepted as the new credential while it has not expired.
  pub verify_request-create :
      (id org monitor secret nonce : String) (expires : Option ℕ) (now : ℕ) (q : Request)
      (rows rows' : List MonitorRow)
      → create lib cipher id org monitor secret nonce expires rows ≡ some rows'
      → q.monitor_id ≡ monitor
      → q.organization_id ≡ org
      → is_expired now expires ≡ false
      → let signature = sign hmac secret (canonical_request upper sha256 q) in
        has_headers q signature ≡ true
        → credential_of (verify_request lib upper sha256 hmac cipher now q signature rows').0
          ≡ some id
  unfolding verify_request
  verify_request-create id org monitor secret nonce expires now q rows rows' made named owned alive
        complete =
      let new = new_monitor lib cipher id org monitor secret nonce expires in
      let (fresh, rows_eq) =
        create_lem lib cipher id org monitor secret nonce expires rows rows' made in
      let found : find_monitor q.monitor_id rows' ≡ some new =
        rw (named, rows_eq)
          (find_last monitor new rows fresh
            (new_name lib cipher id org monitor secret nonce expires)) in
      let text = canonical_request upper sha256 q in
      rw (complete, found)
        (credential_after now q rows'
            (check_monitor lib upper sha256 hmac cipher now q (hmac secret text) (some new))
          ∙ accepts now q id org monitor secret nonce expires owned alive)
