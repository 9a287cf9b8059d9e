-- ===== src/Export/Routed.antt =====
-- services/integrations/outbox.py: emit_event, the rows that it makes.
use mathlib.Core.List.{Memᴰ, append-nil, append_assoc}
use decepti_forge.Base.{
  ℕ, ◌≡◌, refl, sym, ◌∙◌, String, Bool, true, List, [], ◌∷◌, ◌++◌, some, select, All, All-map,
  str_eq, str_eq_iff, Bool-cases, inl, inr, arith, length,
}
use decepti_forge.Export.Envelope.{Envelope}
use decepti_forge.Export.Minimized.{narrative_consented}
use decepti_forge.Export.Routing.{Channel, is_listening, matches, matching_integrations}
use decepti_forge.Export.Outbox.{
  Outgoing, has_key, key_of, new_delivery, enqueue_delivery, shaped, emit_all, emit_event,
}

module _ (org : String) (channels : List Channel) (e : Envelope) where
  -- A channel that the query and the routing let through.
  abbrev IsChosen : Channel → Type 0
  IsChosen c = Memᴰ c channels × (is_listening org c ≡ true) × (matches c e ≡ true)

  -- Why a row is in the outbox: its integration, and the consent to its narrative.
  pub record IsRouted (r : Outgoing) : Type 0 where
    pub channel : Channel
    pub listed : Memᴰ channel channels
    pub named : r.integration ≡ channel.channel_id
    pub owned : r.organization ≡ org
    pub own_channel : channel.organization ≡ org
    pub active : channel.status ≡ "active"
    pub matched : matches channel e ≡ true
    pub consented :
        (t : String)
        → r.envelope.narrative_summary ≡ some t
        → (channel.include_narrative ≡ true) × (e.narrative_summary ≡ some t)

select_twice {ℓ} :
    {A : Type ℓ} (p q : A → Bool) (xs : List A)
    → All (λ (x : A). Memᴰ x xs × (p x ≡ true) × (q x ≡ true)) (select q (select p xs))
select_twice p q [] = tt
select_twice p q (x ∷ xs) =
    let rest =
      All-map (λ y. Memᴰ y xs × (p y ≡ true) × (q y ≡ true))
        (λ y. Memᴰ y (x ∷ xs) × (p y ≡ true) × (q y ≡ true)) (select q (select p xs))
        (λ y h. (Memᴰ.tail h.0, h.1, h.2)) (select_twice p q xs) in
    elim (Bool-cases (p x)) [
      | inr out ↦ rw out rest
      | inl chosen ↦ elim (Bool-cases (q x)) [
        | inr out ↦ rw (chosen, out) rest
        | inl passed ↦ rw (chosen, passed) ((Memᴰ.head refl, chosen, passed), rest)
      ]
    ]

is_listening_lem :
    (org : String) (c : Channel)
    → is_listening org c ≡ true
    → (c.organization ≡ org) × (c.status ≡ "active")
is_listening_lem org c h = elim (Bool-cases (str_eq c.organization org)) [
  | inr foreign ↦ absurd (cc (rw foreign at h))
  | inl own ↦
      ((str_eq_iff c.organization org).0 own, (str_eq_iff c.status "active").0 (rw own at h))
]

module _ (decimal : ℕ → String) (digest : Envelope → String) (size : Envelope → ℕ) (org : String)
    (now version max_bytes : ℕ) (e : Envelope) where
  new_delivery-IsRouted :
      (channels : List Channel) (c : Channel)
      → IsChosen org channels e c
      → IsRouted org channels e (
          new_delivery decimal digest size org now version c
            (shaped decimal digest size max_bytes c e))
  new_delivery-IsRouted channels c (listed, listens, matched) =
      let (own, active) = is_listening_lem org c listens in
      record {
        channel = c;
        listed = listed;
        named = refl;
        owned = refl;
        own_channel = own;
        active = active;
        matched = matched;
        consented = λ t out.
            let (analyst_only, included, same) =
              narrative_consented size c.payload_profile c.include_narrative max_bytes e t out in
            (included, same);
      }

  -- What a step adds to the outbox.
  abbrev Adds : (P : Outgoing → Type 0) → ℕ → (rows rows' : List Outgoing) → Type 0
  Adds P n rows rows' =
      (added : List Outgoing) × (rows' ≡ rows ++ added) × (length added ≡ n) × All P added

  emit_all-Adds :
      (channels cs : List Channel) (rows : List Outgoing)
      → All (IsChosen org channels e) cs
      → let done = emit_all decimal digest size org now version max_bytes cs e rows in
        Adds (IsRouted org channels e) done.0 rows done.1
  unfolding emit_all enqueue_delivery
  emit_all-Adds channels [] rows h = ([], sym (append-nil rows), refl, tt)
  emit_all-Adds channels (c ∷ cs) rows (h, hs) =
      let e' = shaped decimal digest size max_bytes c e in
      let new = new_delivery decimal digest size org now version c e' in
      elim (Bool-cases (has_key (key_of decimal digest size org c e' version) rows)) [
        | inl taken ↦ rw taken (emit_all-Adds channels cs rows hs)
        | inr fresh ↦
            let (added, same, n, routed) = emit_all-Adds channels cs (rows ++ new ∷ []) hs in
            rw fresh (
              new ∷ added,
              same ∙ append_assoc rows (new ∷ []) added,
              omega (arith, n),
              (new_delivery-IsRouted channels c h, routed),
            )
      ]

  -- What an event adds to the outbox are as many rows as it returns, each of them for an active
  -- integration of the organization that matches the event; a row carries a narrative only if its
  -- integration includes narratives, and then that of the event.
  pub emit_event-IsRouted :
      (channels : List Channel) (rows : List Outgoing)
      → let done = emit_event decimal digest size org now version max_bytes channels e rows in
        (added : List Outgoing) × (done.1 ≡ rows ++ added)
        × (length added ≡ done.0)
        × All (IsRouted org channels e) added
  unfolding emit_event matching_integrations
  emit_event-IsRouted channels rows =
      emit_all-Adds channels (matching_integrations org e channels) rows
        (select_twice (is_listening org) (λ c. matches c e) channels)
