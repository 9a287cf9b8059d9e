-- ===== src/Access/Sessions.antt =====
-- services/api_keys.py: authenticate after create.
use decepti_forge.Base.{
  ℕ, String, ◌≡◌, refl, ap, Bool, true, false, List, [], ◌∷◌, ◌++◌, Option, none, some, arith,
  str_eq, str_eq_refl, any,
}
use decepti_forge.Secrets.Fields.{join, cut-join, lacks}
use decepti_forge.Access.Grants.{minted, mint}
use decepti_forge.Access.Keys.{
  KeyRow, authenticated, key_text, prefix_in, prefix_of, insert_key, create, is_expired, check_row,
  authenticate,
}

dfk_plain : lacks "_" "dfk" ≡ true
unfolding lacks
dfk_plain = refl

prefix_of_key :
    (prefix secret : String) → lacks "_" prefix ≡ true → prefix_of (key_text prefix secret) ≡ prefix
unfolding prefix_of key_text prefix_in join
prefix_of_key prefix secret plain =
    rw (cut-join "_" "dfk" prefix (secret ∷ []) dfk_plain)
      (ap (λ (p : String × Option String). p.0) (cut-join "_" prefix secret [] plain))

abbrev pub has_prefix : String → List KeyRow → Bool
has_prefix prefix rows = any (λ (r : KeyRow). str_eq r.key_prefix prefix) rows

abbrev pub new_row :
    (String → String) → (id org role prefix secret : String) → Option ℕ → List String → KeyRow
new_row hash_key id org role prefix secret expires scopes = record {
  key_id = id;
  organization = org;
  key_prefix = prefix;
  key_hash = hash_key (key_text prefix secret);
  role = role;
  scopes = scopes;
  is_active = true;
  expires_at = expires;
  last_used_at = none;
}

module _ (hash_key : String → String) where
  found_last :
      (now : ℕ) (text : String) (r : KeyRow) (rows : List KeyRow)
      → has_prefix (prefix_of text) rows ≡ false
      → str_eq r.key_prefix (prefix_of text) ≡ true
      → (authenticate hash_key now text (rows ++ r ∷ [])).0 ≡ (check_row hash_key now text r).0
  unfolding authenticate
  found_last now text r [] fresh same = rw same
  found_last now text r (x ∷ xs) fresh same = ground (arith, fresh, found_last now text r xs, same)

  -- A key that is created can be used: it authenticates to its organization, with its role and its
  -- scopes, while it has not expired, where no earlier key has the drawn prefix and the prefix has no
  -- separator.
  pub authenticate-create :
      (id org role : String) (issuer : Option (List String)) (scopes : List String)
      (prefix secret : String) (expires : Option ℕ) (now : ℕ) (rows : List KeyRow)
      → mint issuer role ≡ minted scopes
      → lacks "_" prefix ≡ true
      → has_prefix prefix rows ≡ false
      → is_expired now expires ≡ false
      → let rows' = (create hash_key id org role issuer prefix secret expires rows).1 in
        (authenticate hash_key now (key_text prefix secret) rows').0
        ≡ authenticated
            (record { organization = org; scopes = scopes; role = role; key_id = some id })
  unfolding create insert_key
  authenticate-create id org role issuer scopes prefix secret expires now rows made plain fresh
        alive =
      let row = new_row hash_key id org role prefix secret expires scopes in
      let text = key_text prefix secret in
      let same = prefix_of_key prefix secret plain in
      let fresh' : has_prefix (prefix_of text) rows ≡ false = rw same fresh in
      let known : str_eq prefix (prefix_of text) ≡ true = rw same (str_eq_refl prefix) in
      rw (made, found_last now text row rows fresh' known, str_eq_refl (hash_key text), alive)
