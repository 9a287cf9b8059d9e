-- ===== src/Export/Worker.antt =====
-- services/integrations/worker.py: what one attempt does to a delivery and its integration. The
-- check of the endpoint, the random part of the delay and the answer of the destination (through the
-- adapter) are given; times are in milliseconds, and one attempt reads the clock once.
use decepti_forge.Base.{
  ℕ, ◌+◌, ◌*◌, ◌-◌, String, Bool, ◌||◌, List, [], ◌∷◌, ◌++◌, Option, none, some, if◌then◌else◌, leb,
  str_eq,
}
use decepti_forge.Export.Retry.{RetryDecision, success, retry, permanent, backoff}

pub data DeliveryStatus : Type 0 where
  queued retrying delivering delivered dead_lettered : DeliveryStatus

-- `IntegrationDeadLetterRecord`
pub record DeadLetter : Type 0 where
  pub reason : String
  pub attempts : ℕ
  pub first_failed_at : ℕ
  pub final_failed_at : ℕ

-- `IntegrationDeliveryRecord`, with its dead letters and the audit events about it.
pub record Delivery : Type 0 where
  pub number : ℕ
  pub integration_id : ℕ
  pub status : DeliveryStatus
  pub attempt_count : ℕ
  pub next_attempt_at : ℕ
  pub lease_until : Option ℕ
  pub response_status : Option ℕ
  pub safe_error_code : Option String
  pub created_at : ℕ
  pub delivered_at : Option ℕ
  pub dead_letters : List DeadLetter
  pub audit : List String

-- `SecurityIntegrationRecord`, as far as the worker changes it.
pub record Integration : Type 0 where
  pub state : String
  pub failure_code : Option String
  pub last_success_at : Option ℕ
  pub last_failure_at : Option ℕ

-- `DeliveryResult`
pub record Result : Type 0 where
  pub decision : RetryDecision
  pub http_status : Option ℕ
  pub error_code : Option String
  pub retry_after_seconds : Option ℕ

pub record Settings : Type 0 where
  pub max_attempts : ℕ
  pub max_age : ℕ

-- `mark_delivered`
unfoldable pub mark_delivered : (now : ℕ) → Option ℕ → Delivery → Delivery
mark_delivered now code d = record d {
  status = delivered;
  response_status = code;
  attempt_count = d.attempt_count + 1;
  lease_until = none;
  delivered_at = some now;
  safe_error_code = none;
}

-- `mark_retry`
unfoldable pub mark_retry : (now delay : ℕ) → Option String → Option ℕ → Delivery → Delivery
mark_retry now delay error code d = record d {
  status = retrying;
  attempt_count = d.attempt_count + 1;
  next_attempt_at = now + delay;
  lease_until = none;
  response_status = code;
  safe_error_code = error;
}

-- `mark_dead_letter`
unfoldable pub mark_dead_letter : (now : ℕ) → (reason : String) → Option ℕ → Delivery → Delivery
mark_dead_letter now reason code d = record d {
  status = dead_lettered;
  attempt_count = d.attempt_count + 1;
  lease_until = none;
  response_status = code;
  safe_error_code = some reason;
  dead_letters =
      d.dead_letters
      ++ record {
        reason = reason;
        attempts = d.attempt_count + 1;
        first_failed_at = d.created_at;
        final_failed_at = now;
      }
        ∷ [];
}

-- `set_status` after a success, and after a failure.
abbrev pub succeed : (now : ℕ) → Integration → Integration
succeed now i = record i { state = "active"; failure_code = none; last_success_at = some now }

abbrev pub degrade : (now : ℕ) → String → Integration → Integration
degrade now error i = record i {
  state = "degraded";
  failure_code = some error;
  last_failure_at = some now;
}

abbrev pub or_else : Option String → String → String
or_else none other = other
or_else (some s) other = if str_eq s "" then other else s

abbrev pub delay_of : (jitter : ℕ → ℕ → ℕ) → Option ℕ → (attempt : ℕ) → ℕ
unfolding backoff
delay_of jitter (some seconds) attempt = seconds * 1000
delay_of jitter none attempt = backoff jitter attempt

-- `exhausted`
abbrev pub is_exhausted : Settings → (now : ℕ) → Delivery → Bool
is_exhausted s now d =
    leb s.max_attempts (d.attempt_count + 1) || leb s.max_age (now - d.created_at)

-- The audit event of a blocked endpoint.
abbrev pub blocked : Delivery → Delivery
blocked d = record d { audit = d.audit ++ "ssrf_rejected" ∷ [] }

module _ (s : Settings) (jitter : ℕ → ℕ → ℕ) (now : ℕ) where
  -- After the answer.
  unfoldable pub settle : Result → Integration → Delivery → Delivery × Integration
  unfolding mark_delivered mark_retry mark_dead_letter
  settle r i d = elim r.decision [
    | success ↦ (mark_delivered now r.http_status d, succeed now i)
    | permanent ↦ (
      mark_dead_letter now (or_else r.error_code "permanent_failure") r.http_status d,
      degrade now "permanent_failure" i,
    )
    | retry ↦
        if is_exhausted s now d
        then (
          mark_dead_letter now "max_attempts_exceeded" r.http_status d,
          degrade now "delivery_exhausted" i,
        )
        else (
          mark_retry now (delay_of jitter r.retry_after_seconds (d.attempt_count + 1)) r.error_code
              r.http_status d,
          i,
        )
  ]

  -- The part of `_process` that ends in an answer of the destination: none where an error escapes,
  -- as that of an adapter, or of a secret that cannot be decrypted.
  abbrev send : Option Result → Integration → Delivery → Option (Delivery × Option Integration)
  send none i d = none
  send (some r) i d = let (d', i') = settle r i d in some (d', some i')

  -- `_process`: none where an error escapes. The integration is none where it is missing.
  unfoldable pub process :
      (endpoint_ok : Bool)
      → (answer : Option Result) → Option Integration
      → Delivery
      → Option (Delivery × Option Integration)
  unfolding settle mark_dead_letter
  process endpoint_ok answer none d = some (mark_dead_letter now "integration_missing" none d, none)
  process endpoint_ok answer (some i) d =
      if str_eq i.state "active"
      then (if endpoint_ok
          then send answer i d
          else some (blocked (mark_dead_letter now "ssrf_blocked" none d), some i))
      else some (mark_dead_letter now "integration_inactive" none d, some i)
