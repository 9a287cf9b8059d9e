-- ===== src/Access/Tenancy.antt =====
-- security.py: require_scope, its context and its audit log.
use decepti_forge.Base.{
  ℕ, suc, ◌≤◌, String, ◌≡◌, ap, ◌∙◌, true, false, List, Option, none, some, text_append, is_text,
  str_eq, str_eq_iff, str_mem, arith, length, length-append, Bool-cases, Option-cases, inl, inr,
}
use decepti_forge.Access.Keys.{
  KeyRow, AuthContext, Authenticated, authenticated, denied, authenticate,
}
use decepti_forge.Access.Authorize.{
  Settings, Outcome, granted, http_error, World, reject, binding_of, owner_of, bootstrap_active,
  compare_org, check_header, after_bootstrap, bootstrap, with_context, with_table_key, with_key,
  authenticate_request, in_scope, require_scope, message_of,
}

-- The audit log never shrinks, and grows by a refusal.
abbrev pub IsAudited : World → Outcome × World → Type 0
IsAudited w (granted c, w') = length w.audit ≤ length w'.audit
IsAudited w (http_error status, w') = suc (length w.audit) ≤ length w'.audit

-- A granted context holds the scope.
abbrev pub Holds : (scope : String) → Outcome → Type 0
Holds scope (granted c) = str_mem scope c.scopes ≡ true
Holds scope (http_error status) = Unit

reject-IsAudited :
    (status : ℕ) (action : String) (org : Option String) (detail : String) (w : World)
    → IsAudited w (reject status action org detail w)
unfolding reject
reject-IsAudited status action org detail w = omega (arith, length-append w.audit _)

-- A refusal after the log has grown.
after_growth :
    (w w' : World) (r : Outcome × World)
    → length w.audit ≤ length w'.audit
    → IsAudited w' r
    → IsAudited w r
after_growth w w' (granted c, w'') le h = omega (arith, le, h)
after_growth w w' (http_error status, w'') le h = omega (arith, le, h)

module _ (parse_id : String → Option String) where
  -- A granted context is the organization that the header names, if it names one.
  abbrev pub IsNamed : (org_id : Option String) → Outcome → Type 0
  IsNamed none o = Unit
  IsNamed (some text) (granted c) = parse_id text ≡ some c.organization
  IsNamed (some text) (http_error status) = Unit

  -- Both facts about the outcome of a stage.
  record IsChecked (org_id : Option String) (w : World) (r : Outcome × World) : Type 0 where
    pub named : IsNamed org_id r.0
    pub audited : IsAudited w r

  refused :
      (org_id : Option String) (status : ℕ) (action : String) (org : Option String)
      (detail : String) (w : World)
      → IsChecked org_id w (reject status action org detail w)
  unfolding reject
  refused none status action org detail w = record {
    named = tt;
    audited = reject-IsAudited status action org detail w;
  }
  refused (some text) status action org detail w = record {
    named = tt;
    audited = reject-IsAudited status action org detail w;
  }

  check_header-IsChecked :
      (c : AuthContext) (org_id : Option String) (w : World)
      → IsChecked org_id w (check_header parse_id c org_id w)
  unfolding check_header compare_org
  check_header-IsChecked c none w = record { named = tt; audited = omega arith }
  check_header-IsChecked c (some text) w = elim (Option-cases (parse_id text)) [
    | inl unread ↦ rw unread (refused (some text) 400 "authz" none "invalid organization id" w)
    | inr (org, read) ↦ elim (Bool-cases (str_eq org c.organization)) [
      | inr other ↦
          rw (read, other)
            (refused (some text) 403 "authz" (some c.organization) "cross-org header" w)
      | inl same ↦
          rw (read, same)
            (record {
              named = read ∙ ap some ((str_eq_iff org c.organization).0 same);
              audited = omega arith;
            })
    ]
  ]

  after_bootstrap-IsChecked :
      (org_id : Option String) (w : World) (r : Outcome × World)
      → IsChecked org_id w r
      → IsChecked org_id w (after_bootstrap parse_id r)
  unfolding after_bootstrap
  after_bootstrap-IsChecked org_id w (granted c, w') h = record {
    named = h.named;
    audited = omega (arith, h.audited, length-append w'.audit _);
  }
  after_bootstrap-IsChecked org_id w (http_error status, w') h = h

  keep_audit :
      (org_id : Option String) (w : World) (keys : List KeyRow) (r : Outcome × World)
      → IsChecked org_id (record w { keys = keys }) r
      → IsChecked org_id w r
  keep_audit org_id w keys (granted c, w') h = record { named = h.named; audited = h.audited }
  keep_audit org_id w keys (http_error status, w') h = record {
    named = h.named;
    audited = h.audited;
  }

  bootstrap-IsChecked :
      (bound org_id : Option String) (w : World)
      → IsChecked org_id w (bootstrap parse_id bound org_id w)
  unfolding bootstrap
  bootstrap-IsChecked none org_id w = refused org_id 400 "authz" none "invalid organization id" w
  bootstrap-IsChecked (some org) org_id w =
      after_bootstrap-IsChecked org_id w (check_header parse_id (owner_of org) org_id w)
        (check_header-IsChecked (owner_of org) org_id w)

  module _ (hash_key : String → String) (demo_organization : String) where
    with_context-IsChecked :
        (org_id : Option String) (a : Authenticated) (w : World)
        → IsChecked org_id w (with_context parse_id hash_key demo_organization org_id a w)
    unfolding with_context
    with_context-IsChecked org_id (authenticated c) w = check_header-IsChecked c org_id w
    with_context-IsChecked org_id (denied d) w = refused org_id 401 "auth" none (message_of d) w

    with_table_key-IsChecked :
        (now : ℕ) (key : String) (org_id : Option String) (w : World)
        → IsChecked org_id w (with_table_key parse_id hash_key demo_organization now key org_id w)
    unfolding with_table_key
    with_table_key-IsChecked now key org_id w =
        let (result, keys) = authenticate hash_key now key w.keys in
        keep_audit org_id w keys
          (with_context parse_id hash_key demo_organization org_id result
            (record w { keys = keys }))
          (with_context-IsChecked org_id result (record w { keys = keys }))

    with_key-IsChecked :
        (now : ℕ) (s : Settings) (key : String) (org_id : Option String) (w : World)
        → s.is_development ≡ false
        → IsChecked org_id w (with_key parse_id hash_key demo_organization now s key org_id w)
    unfolding with_key
    with_key-IsChecked now s key org_id w live =
        elim (Option-cases (binding_of key s.api_key_bindings)) [
          | inl free ↦ rw (live, free) (with_table_key-IsChecked now key org_id w)
          | inr (bound, known) ↦ elim (Bool-cases (bootstrap_active now s)) [
            | inl open_window ↦
                rw (live, known, open_window) (bootstrap-IsChecked (parse_id bound) org_id w)
            | inr closed ↦
                rw (live, known, closed)
                  (refused org_id 401 "auth" none "bootstrap key rejected (disabled or expired)" w)
          ]
        ]

    authenticate_request-IsChecked :
        (now : ℕ) (s : Settings) (key : String) (org_id : Option String) (w : World)
        → s.is_development ≡ false
        → s.auth_enabled ≡ true
        → IsChecked org_id w
            (authenticate_request parse_id hash_key demo_organization now s key org_id w)
    unfolding authenticate_request
    authenticate_request-IsChecked now s key org_id w live on = elim (Bool-cases (is_text key)) [
      | inl given ↦ rw (on, given) (with_key-IsChecked now s key org_id w live)
      | inr missing ↦ rw (on, missing) (refused org_id 401 "auth" none "missing key" w)
    ]

    in_scope-IsChecked :
        (scope : String) (org_id : Option String) (w : World) (r : Outcome × World)
        → IsChecked org_id w r
        → IsChecked org_id w (in_scope parse_id hash_key demo_organization scope r)
    unfolding in_scope
    in_scope-IsChecked scope org_id w (http_error status, w') h = h
    in_scope-IsChecked scope org_id w (granted c, w') h =
        elim (Bool-cases (str_mem scope c.scopes)) [
          | inl held ↦ rw held h
          | inr lacking ↦
              let detail = text_append "missing " scope in
              let next = refused org_id 403 "authz" (some c.organization) detail w' in
              let denial = reject 403 "authz" (some c.organization) detail w' in
              rw lacking (record {
                named = next.named;
                audited = after_growth w w' denial h.audited next.audited;
              })
        ]

    in_scope-Holds :
        (scope : String) (r : Outcome × World)
        → Holds scope (in_scope parse_id hash_key demo_organization scope r).0
    unfolding in_scope reject
    in_scope-Holds scope (http_error status, w) = tt
    in_scope-Holds scope (granted c, w) = elim (Bool-cases (str_mem scope c.scopes)) [
      | inl held ↦ rw held held
      | inr lacking ↦ rw lacking tt
    ]

    -- Outside development and with authentication on, a request that is granted a scope holds it
    -- and acts for the organization that its header names, if it names one, and a request that is
    -- refused, for whatever reason, leaves at least one more event in the audit log, which never shrinks.
    pub require_scope_checked :
        (scope : String) (now : ℕ) (s : Settings) (key : String) (org_id : Option String)
        (w : World)
        → s.is_development ≡ false
        → s.auth_enabled ≡ true
        → let r = require_scope parse_id hash_key demo_organization scope now s key org_id w in
          Holds scope r.0 × IsNamed org_id r.0 × IsAudited w r
    unfolding require_scope
    require_scope_checked scope now s key org_id w live on =
        let checked =
          in_scope-IsChecked scope org_id w
            (authenticate_request parse_id hash_key demo_organization now s key org_id w)
            (authenticate_request-IsChecked now s key org_id w live on) in
        (
          in_scope-Holds scope
              (authenticate_request parse_id hash_key demo_organization now s key org_id w),
          checked.named,
          checked.audited,
        )
