-- ===== src/Secrets/Signing.antt =====
-- services/monitor_signing.py: the canonical form of a signed request and its signature. The digests
-- are parameters: the hexadecimal SHA-256 of a body, and the hexadecimal HMAC-SHA256 of a text under a
-- secret; and so is `str.upper` on a method.
use decepti_forge.Base.{String, ◌≡◌, refl, Bool, List, [], ◌∷◌, str_eq}
use decepti_forge.Secrets.Fields.{join, Lacks, join-injective}

-- The arguments of `canonical_request`.
pub record Request : Type 0 where
  pub method : String
  pub path : String
  pub organization_id : String
  pub monitor_id : String
  pub timestamp : String
  pub nonce : String
  pub body : String

module _ (upper sha256 : String → String) where
  -- `SIGNATURE_VERSION` and the other parts, in order.
  abbrev pub parts : Request → List String
  parts r =
      "monitor-signature-v1"
      ∷ upper r.method
      ∷ r.path
      ∷ r.organization_id
      ∷ r.monitor_id
      ∷ r.timestamp
      ∷ r.nonce
      ∷ sha256 r.body
      ∷ []

  -- `canonical_request`
  unfoldable pub canonical_request : Request → String
  unfolding join
  canonical_request r = join "\n" (parts r)

  -- Two requests whose parts have no line break have the same canonical form only if they agree in
  -- the method, the path, the organization, the monitor, the timestamp, the nonce and the digest of
  -- the body: no part can take over text of another.
  pub canonical_binds :
      (r r' : Request)
      → Lacks "\n" (parts r)
      → Lacks "\n" (parts r')
      → canonical_request r ≡ canonical_request r'
      → (upper r.method ≡ upper r'.method)
        × (r.path ≡ r'.path)
        × (r.organization_id ≡ r'.organization_id)
        × (r.monitor_id ≡ r'.monitor_id)
        × (r.timestamp ≡ r'.timestamp)
        × (r.nonce ≡ r'.nonce)
        × (sha256 r.body ≡ sha256 r'.body)
  unfolding canonical_request
  canonical_binds r r' l l' e =
      let same = join-injective "\n" (parts r) (parts r') refl l l' e in
      (cc same, cc same, cc same, cc same, cc same, cc same, cc same)

module _ (hmac : (secret text : String) → String) where
  -- `sign`
  abbrev pub sign : (secret canonical : String) → String
  sign secret canonical = hmac secret canonical

  -- `verify`
  unfoldable pub verify : (secret canonical provided_signature : String) → Bool
  verify secret canonical provided = str_eq (sign secret canonical) provided
