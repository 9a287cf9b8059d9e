-- ===== src/Export/Outbox.antt =====
-- services/integrations/outbox.py with `enqueue_delivery` of repositories/integrations.py. The rows
-- stand in the order of their creation; the size of an event's JSON text, its digest and the
-- decimal text of a version are parameters.
use decepti_forge.Base.{
  ℕ, ◌+◌, String, Bool, true, false, List, [], ◌∷◌, ◌++◌, any, str_eq, if◌then◌else◌,
}
use decepti_forge.Export.Worker.{DeliveryStatus, queued}
use decepti_forge.Export.Envelope.{Envelope, event_name, source_name}
use decepti_forge.Export.Profiles.{apply_profile}
use decepti_forge.Export.Routing.{Channel, idempotency_key, matching_integrations}

-- `IntegrationDeliveryRecord` as it is created. The constraint `uq_integration_delivery_idempotency`
-- keeps the keys apart.
pub record Outgoing : Type 0 where
  pub organization : String
  pub integration : String
  pub source_type : String
  pub source : String
  pub type_name : String
  pub version : ℕ
  pub key : String
  pub status : DeliveryStatus
  pub next_attempt_at : ℕ
  pub envelope : Envelope
  pub payload_hash : String

unfoldable pub has_key : String → List Outgoing → Bool
has_key k rows = any (λ (r : Outgoing). str_eq r.key k) rows

module _ (decimal : ℕ → String) (digest : Envelope → String) (size : Envelope → ℕ) where
  abbrev pub key_of : (organization : String) → Channel → Envelope → (version : ℕ) → String
  key_of org c e version =
      idempotency_key org c.channel_id e.source_object_id (decimal version)
        (event_name e.event_type)

  abbrev pub new_delivery :
      (organization : String) → (now version : ℕ) → Channel → Envelope → Outgoing
  new_delivery org now version c e = record {
    organization = org;
    integration = c.channel_id;
    source_type = source_name e.source_object_type;
    source = e.source_object_id;
    type_name = event_name e.event_type;
    version = version;
    key = key_of org c e version;
    status = queued;
    next_attempt_at = now;
    envelope = e;
    payload_hash = digest e;
  }

  -- `enqueue_delivery`: whether a row was made, and the rows. The constraint refuses a key that is
  -- there already.
  unfoldable pub enqueue_delivery :
      (organization : String)
      → (now version : ℕ) → Channel
      → Envelope
      → List Outgoing
      → Bool × List Outgoing
  unfolding has_key
  enqueue_delivery org now version c e rows =
      if has_key (key_of org c e version) rows
      then (false, rows)
      else (true, rows ++ new_delivery org now version c e ∷ [])

  abbrev pub shaped : (max_bytes : ℕ) → Channel → Envelope → Envelope
  shaped max_bytes c e = apply_profile size c.payload_profile c.include_narrative max_bytes e

  -- The loop of `emit_event`: how many rows were made, and the rows.
  unfoldable pub emit_all :
      (organization : String)
      → (now version max_bytes : ℕ) → List Channel
      → Envelope
      → List Outgoing
      → ℕ × List Outgoing
  unfolding enqueue_delivery
  emit_all org now version max_bytes [] e rows = (0, rows)
  emit_all org now version max_bytes (c ∷ cs) e rows =
      let (made, rows') = enqueue_delivery org now version c (shaped max_bytes c e) rows in
      let (count, rows'') = emit_all org now version max_bytes cs e rows' in
      (if made then count + 1 else count, rows'')

  unfoldable pub emit_event :
      (organization : String)
      → (now version max_bytes : ℕ) → List Channel
      → Envelope
      → List Outgoing
      → ℕ × List Outgoing
  unfolding emit_all matching_integrations
  emit_event org now version max_bytes channels e rows =
      emit_all org now version max_bytes (matching_integrations org e channels) e rows
