-- ===== src/Access/Revocation.antt =====
-- services/api_keys.py: authenticate after revoke, over any operations on the table.
use decepti_forge.Base.{
  IsDistinct, ℕ, String, ◌≡◌, ◌≢◌, refl, Bool, true, false, not, ◌&&◌, ◌||◌, List, [], ◌∷◌, ◌++◌,
  Option, none, some, if◌then◌else◌, arith, str_eq, str_eq_iff, str_mem, map, All, Bool-cases, inl,
  inr,
}
use decepti_forge.Access.Grants.{Minted, minted, refused, mint}
use decepti_forge.Access.Keys.{
  KeyRow, Authenticated, authenticated, denied, insert_key, create, revoke, is_expired, check_row,
  authenticate,
}
use decepti_forge.Access.Sessions.{new_row}

-- Whether a key with an id is still active.
unfoldable pub is_usable : (key_id : String) → List KeyRow → Bool
is_usable id [] = false
is_usable id (r ∷ rs) = str_eq r.key_id id && r.is_active || is_usable id rs

-- The key of an authenticated context.
abbrev pub key_of : Authenticated → Option String
key_of (authenticated c) = c.key_id
key_of (denied d) = none

module _ (hash_key : String → String) where
  key_of_row :
      (now : ℕ) (text : String) (r : KeyRow)
      → key_of (check_row hash_key now text r).0 ≡ (
          if str_eq r.key_hash (hash_key text) && (r.is_active && not (is_expired now r.expires_at))
          then some r.key_id
          else none)
  key_of_row now text r = ground arith

  unusable_denied :
      (now : ℕ) (id text : String) (rows : List KeyRow)
      → is_usable id rows ≡ false
      → key_of (authenticate hash_key now text rows).0 ≢ some id
  unfolding authenticate is_usable
  unusable_denied now id text [] h e = absurd (cc e)
  unusable_denied now id text (r ∷ rs) h e =
      ground
        (arith, h, e, key_of_row now text r, unusable_denied now id text rs, str_eq_iff r.key_id id)

  unusable_kept :
      (now : ℕ) (id text : String) (rows : List KeyRow)
      → is_usable id rows ≡ false
      → is_usable id (authenticate hash_key now text rows).1 ≡ false
  unfolding authenticate is_usable
  unusable_kept now id text [] h = refl
  unusable_kept now id text (r ∷ rs) h = ground (arith, h, unusable_kept now id text rs)

revoke_kept :
    (org other id : String) (rows : List KeyRow)
    → is_usable id rows ≡ false
    → is_usable id (revoke org other rows).1 ≡ false
unfolding revoke is_usable
revoke_kept org other id [] h = refl
revoke_kept org other id (r ∷ rs) h = ground (arith, h, revoke_kept org other id rs)

absent_unusable :
    (id : String) (rows : List KeyRow)
    → str_mem id (map (λ (r : KeyRow). r.key_id) rows) ≡ false
    → is_usable id rows ≡ false
unfolding is_usable
absent_unusable id [] h = refl
absent_unusable id (r ∷ rs) h =
    ground (arith, h, absent_unusable id rs, str_eq_iff r.key_id id, str_eq_iff id r.key_id)

revoke_unusable :
    (org id : String) (rows : List KeyRow)
    → IsDistinct (map (λ (r : KeyRow). r.key_id) rows)
    → (revoke org id rows).0 ≡ true
    → is_usable id (revoke org id rows).1 ≡ false
unfolding revoke is_usable
revoke_unusable org id [] d done = absurd (cc done)
revoke_unusable org id (r ∷ rs) (absent, d) done = elim (Bool-cases (str_eq r.key_id id)) [
  | inr other ↦ ground (arith, other, done, revoke_unusable org id rs d)
  | inl same ↦
      let gone = absent_unusable r.key_id rs absent in
      let name = (str_eq_iff r.key_id id).0 same in ground (arith, done, same, rw name at gone)
]

-- The operations on the table of keys.
pub data Operation : Type 0 where
  creates :
      (key_id organization role : String)
      → Option (List String)
      → (prefix secret : String) → Option ℕ
      → Operation
  revokes : (organization key_id : String) → Operation
  authenticates : (now : ℕ) → (plaintext : String) → Operation

-- A created key is not named like this.
abbrev pub IsOther : (key_id : String) → Operation → Type 0
IsOther id (creates new org role issuer prefix secret expires) = new ≢ id
IsOther id _ = Unit

module _ (hash_key : String → String) where
  abbrev pub apply : Operation → List KeyRow → List KeyRow
  unfolding create revoke authenticate
  apply (creates id org role issuer prefix secret expires) rows =
      (create hash_key id org role issuer prefix secret expires rows).1
  apply (revokes org id) rows = (revoke org id rows).1
  apply (authenticates now text) rows = (authenticate hash_key now text rows).1

  unfoldable pub run : List Operation → List KeyRow → List KeyRow
  run [] rows = rows
  run (o ∷ os) rows = run os (apply o rows)

  add_usable :
      (id : String) (r : KeyRow) (rows : List KeyRow)
      → is_usable id rows ≡ false
      → r.key_id ≢ id
      → is_usable id (rows ++ r ∷ []) ≡ false
  unfolding is_usable
  add_usable id r [] h other = ground (arith, other, str_eq_iff r.key_id id)
  add_usable id r (x ∷ xs) h other = ground (arith, h, add_usable id r xs, other)

  insert_usable :
      (id new org role prefix secret : String) (expires : Option ℕ) (m : Minted)
      (rows : List KeyRow)
      → is_usable id rows ≡ false
      → new ≢ id
      → is_usable id (insert_key hash_key new org role prefix secret expires m rows).1 ≡ false
  unfolding insert_key
  insert_usable id new org role prefix secret expires (refused r) rows h other = h
  insert_usable id new org role prefix secret expires (minted scopes) rows h other =
      add_usable id (new_row hash_key new org role prefix secret expires scopes) rows h other

  apply_usable :
      (id : String) (o : Operation) (rows : List KeyRow)
      → IsOther id o
      → is_usable id rows ≡ false
      → is_usable id (apply o rows) ≡ false
  unfolding apply create
  apply_usable id (creates new org role issuer prefix secret expires) rows other h =
      insert_usable id new org role prefix secret expires (mint issuer role) rows h other
  apply_usable id (revokes org name) rows other h = revoke_kept org name id rows h
  apply_usable id (authenticates now text) rows other h = unusable_kept hash_key now id text rows h

  run_usable :
      (id : String) (os : List Operation) (rows : List KeyRow)
      → All (IsOther id) os
      → is_usable id rows ≡ false
      → is_usable id (run os rows) ≡ false
  unfolding run
  run_usable id [] rows others h = h
  run_usable id (o ∷ os) rows (other, others) h =
      run_usable id os (apply o rows) others (apply_usable id o rows other h)

  -- A revoked key is dead for good: once `revoke` has found it, no text authenticates as it, at any
  -- time, whatever keys are created under other ids, revoked and used in between; ids are a primary
  -- key.
  pub revoked_forever :
      (org id text : String) (now : ℕ) (os : List Operation) (rows : List KeyRow)
      → IsDistinct (map (λ (r : KeyRow). r.key_id) rows)
      → (revoke org id rows).0 ≡ true
      → All (IsOther id) os
      → key_of (authenticate hash_key now text (run os (revoke org id rows).1)).0 ≢ some id
  revoked_forever org id text now os rows d done others =
      unusable_denied hash_key now id text (run os (revoke org id rows).1)
        (run_usable id os (revoke org id rows).1 others (revoke_unusable org id rows d done))
