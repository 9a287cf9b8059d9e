-- ===== src/Export/Emitted.antt =====
-- services/integrations/outbox.py: emit_event, and emit_event again.
use decepti_forge.Base.{
  ℕ, ◌≡◌, refl, sym, ◌∙◌, subst, String, Bool, true, false, List, [], ◌∷◌, ◌++◌, All, All-map, map,
  str_eq, str_eq_iff, str_eq_refl, str_mem, ltb, arith, inl, inr, Bool-cases,
}
use decepti_forge.Export.Envelope.{
  Envelope, EventType, event_name, PayloadProfile, minimal, standard, analyst, compliance_summary,
}
use decepti_forge.Export.Profiles.{drop_narrative, shape, bound_size, apply_profile}
use decepti_forge.Export.Routing.{Channel, idempotency_key, matching_integrations}
use decepti_forge.Export.Outbox.{
  Outgoing, has_key, key_of, new_delivery, enqueue_delivery, shaped, emit_all, emit_event,
}

has_key-append :
    (k : String) (xs ys : List Outgoing) → has_key k xs ≡ true → has_key k (xs ++ ys) ≡ true
unfolding has_key
has_key-append k [] ys h = absurd (cc h)
has_key-append k (x ∷ xs) ys h = ground (arith, h, has_key-append k xs ys)

has_key-last :
    (k : String) (xs : List Outgoing) (r : Outgoing) → r.key ≡ k → has_key k (xs ++ r ∷ []) ≡ true
unfolding has_key
has_key-last k [] r same = rw (same, str_eq_refl k) refl
has_key-last k (x ∷ xs) r same = ground (arith, has_key-last k xs r same)

-- A profile keeps what the key of a delivery is made of.
bound_size-keeps :
    (size : Envelope → ℕ) (max_bytes : ℕ) (e : Envelope)
    → ((bound_size size max_bytes e).source_object_id ≡ e.source_object_id)
      × ((bound_size size max_bytes e).event_type ≡ e.event_type)
bound_size-keeps size max_bytes e = elim (Bool-cases (ltb max_bytes (size e))) [
  | inl long ↦ rw long (refl, refl)
  | inr short ↦ rw short (refl, refl)
]

drop_narrative-keeps :
    (include : Bool) (e : Envelope)
    → ((drop_narrative include e).source_object_id ≡ e.source_object_id)
      × ((drop_narrative include e).event_type ≡ e.event_type)
drop_narrative-keeps true e = (refl, refl)
drop_narrative-keeps false e = (refl, refl)

shape-keeps :
    (profile : PayloadProfile) (e : Envelope)
    → ((shape profile e).source_object_id ≡ e.source_object_id)
      × ((shape profile e).event_type ≡ e.event_type)
shape-keeps minimal e = (refl, refl)
shape-keeps standard e = (refl, refl)
shape-keeps analyst e = (refl, refl)
shape-keeps compliance_summary e = (refl, refl)

apply_profile-keeps :
    (size : Envelope → ℕ) (profile : PayloadProfile) (include : Bool) (max_bytes : ℕ) (e : Envelope)
    → ((apply_profile size profile include max_bytes e).source_object_id ≡ e.source_object_id)
      × ((apply_profile size profile include max_bytes e).event_type ≡ e.event_type)
unfolding apply_profile
apply_profile-keeps size profile include max_bytes e =
    let kept = drop_narrative include e in
    let (source₁, type₁) = drop_narrative-keeps include e in
    let (source₂, type₂) = shape-keeps profile kept in
    let (source₃, type₃) = bound_size-keeps size max_bytes (shape profile kept) in
    (source₃ ∙ source₂ ∙ source₁, type₃ ∙ type₂ ∙ type₁)

same_key :
    {source source' : String} {type type' : EventType} (org id version : String)
    → source ≡ source'
    → type ≡ type'
    → idempotency_key org id source version (event_name type)
      ≡ idempotency_key org id source' version (event_name type')
same_key org id version ps pt = rw (ps, pt) refl

module _ (decimal : ℕ → String) (digest : Envelope → String) (size : Envelope → ℕ) where
  enqueue_delivery-held :
      (org : String) (now version : ℕ) (c : Channel) (e : Envelope) (k : String)
      (rows : List Outgoing)
      → has_key k rows ≡ true
      → has_key k (enqueue_delivery decimal digest size org now version c e rows).1 ≡ true
  unfolding enqueue_delivery
  enqueue_delivery-held org now version c e k rows h =
      let new = new_delivery decimal digest size org now version c e in
      ground (arith, h, has_key-append k rows (new ∷ []))

  enqueue_delivery-key :
      (org : String) (now version : ℕ) (c : Channel) (e : Envelope) (rows : List Outgoing)
      → has_key
          (key_of decimal digest size org c e version)
          (enqueue_delivery decimal digest size org now version c e rows).1
        ≡ true
  unfolding enqueue_delivery
  enqueue_delivery-key org now version c e rows =
      let k = key_of decimal digest size org c e version in
      let new = new_delivery decimal digest size org now version c e in
      ground (arith, has_key-last k rows new refl)

  enqueue_delivery-again :
      (org : String) (now version : ℕ) (c : Channel) (e : Envelope) (rows : List Outgoing)
      → has_key (key_of decimal digest size org c e version) rows ≡ true
      → enqueue_delivery decimal digest size org now version c e rows ≡ (false, rows)
  unfolding enqueue_delivery
  enqueue_delivery-again org now version c e rows h = rw h refl

  -- The deliveries of an event to these integrations are in the outbox.
  abbrev AreQueued :
      (org : String) → (version max_bytes : ℕ) → Envelope → List Outgoing → List Channel → Type 0
  AreQueued org version max_bytes e rows cs =
      All
        (λ (c : Channel).
          has_key
            (key_of decimal digest size org c (shaped decimal digest size max_bytes c e) version)
            rows
          ≡ true)
        cs

  emit_all-held :
      (org : String) (now version max_bytes : ℕ) (cs : List Channel) (e : Envelope) (k : String)
      (rows : List Outgoing)
      → has_key k rows ≡ true
      → has_key k (emit_all decimal digest size org now version max_bytes cs e rows).1 ≡ true
  unfolding emit_all
  emit_all-held org now version max_bytes [] e k rows h = h
  emit_all-held org now version max_bytes (c ∷ cs) e k rows h =
      let e' = shaped decimal digest size max_bytes c e in
      let rows' = (enqueue_delivery decimal digest size org now version c e' rows).1 in
      emit_all-held org now version max_bytes cs e k rows'
        (enqueue_delivery-held org now version c e' k rows h)

  emit_all-AreQueued :
      (org : String) (now version max_bytes : ℕ) (cs : List Channel) (e : Envelope)
      (rows : List Outgoing)
      → AreQueued org version max_bytes e
          (emit_all decimal digest size org now version max_bytes cs e rows).1
          cs
  unfolding emit_all
  emit_all-AreQueued org now version max_bytes [] e rows = tt
  emit_all-AreQueued org now version max_bytes (c ∷ cs) e rows =
      let e' = shaped decimal digest size max_bytes c e in
      let rows' = (enqueue_delivery decimal digest size org now version c e' rows).1 in
      (
        emit_all-held org now version max_bytes cs e (key_of decimal digest size org c e' version)
            rows' (enqueue_delivery-key org now version c e' rows),
        emit_all-AreQueued org now version max_bytes cs e rows',
      )

  emit_all-again :
      (org : String) (now version max_bytes : ℕ) (cs : List Channel) (e : Envelope)
      (rows : List Outgoing)
      → AreQueued org version max_bytes e rows cs
      → emit_all decimal digest size org now version max_bytes cs e rows ≡ (0, rows)
  unfolding emit_all
  emit_all-again org now version max_bytes [] e rows h = refl
  emit_all-again org now version max_bytes (c ∷ cs) e rows (h, hs) =
      let e' = shaped decimal digest size max_bytes c e in
      rw
        (
          enqueue_delivery-again org now version c e' rows h,
          emit_all-again org now version max_bytes cs e rows hs,
        )
        refl

  key_of-shaped :
      (org : String) (version max_bytes : ℕ) (c : Channel) (e : Envelope)
      → key_of decimal digest size org c (shaped decimal digest size max_bytes c e) version
        ≡ key_of decimal digest size org c e version
  key_of-shaped org version max_bytes c e =
      let (source, type) =
        apply_profile-keeps size c.payload_profile c.include_narrative max_bytes e in
      same_key org c.channel_id (decimal version) source type

  -- A delivery of the event to the integration with a name is in the outbox.
  abbrev IsQueued : (org : String) → (version : ℕ) → Envelope → List Outgoing → String → Type 0
  IsQueued org version e rows id =
      has_key
        (idempotency_key org id e.source_object_id (decimal version) (event_name e.event_type)) rows
      ≡ true

  -- The channels are among others by their names.
  abbrev AreAmong : List Channel → List Channel → Type 0
  AreAmong others =
      All
        (λ (c : Channel). str_mem c.channel_id (map (λ (x : Channel). x.channel_id) others) ≡ true)

  AreQueued-named :
      (org : String) (version max_bytes : ℕ) (e : Envelope) (rows : List Outgoing) (id : String)
      (cs : List Channel)
      → AreQueued org version max_bytes e rows cs
      → str_mem id (map (λ (x : Channel). x.channel_id) cs) ≡ true
      → IsQueued org version e rows id
  AreQueued-named org version max_bytes e rows id [] h mem = absurd (cc mem)
  AreQueued-named org version max_bytes e rows id (c ∷ cs) (h, hs) mem =
      elim (Bool-cases (str_eq id c.channel_id)) [
        | inl same ↦
            subst (IsQueued org version e rows) (sym ((str_eq_iff id c.channel_id).0 same))
              (rw (key_of-shaped org version max_bytes c e) at h)
        | inr other ↦ AreQueued-named org version max_bytes e rows id cs hs (rw other at mem)
      ]

  -- An event that is emitted again with the same version, at any time, makes no delivery and changes
  -- nothing, if the deliveries that the first emission left are still in the outbox, among any others,
  -- and every integration that now matches the event matched it then. Between the two, rows may have
  -- been added and changed but for their keys, integrations disabled, and profiles and size limits
  -- changed.
  pub emit_once :
      (org : String) (now again version max_bytes max_bytes' : ℕ)
      (channels channels' : List Channel) (e : Envelope) (rows later : List Outgoing)
      → ((k : String)
          → has_key k (emit_event decimal digest size org now version max_bytes channels e rows).1
            ≡ true
          → has_key k later ≡ true)
      → AreAmong (matching_integrations org e channels) (matching_integrations org e channels')
      → emit_event decimal digest size org again version max_bytes' channels' e later ≡ (0, later)
  unfolding emit_event
  emit_once org now again version max_bytes max_bytes' channels channels' e rows later kept known =
      let cs = matching_integrations org e channels in
      let cs' = matching_integrations org e channels' in
      let rows' = (emit_all decimal digest size org now version max_bytes cs e rows).1 in
      let left = emit_all-AreQueued org now version max_bytes cs e rows in
      emit_all-again org again version max_bytes' cs' e later (
        All-map
          (λ (c : Channel). str_mem c.channel_id (map (λ (x : Channel). x.channel_id) cs) ≡ true)
          (λ (c : Channel).
            has_key
              (key_of decimal digest size org c (shaped decimal digest size max_bytes' c e) version)
              later
            ≡ true)
          cs'
          (λ c mem. rw (key_of-shaped org version max_bytes' c e) (
            kept (key_of decimal digest size org c e version)
              (AreQueued-named org version max_bytes e rows' c.channel_id cs left mem)))
          known)
