-- ===== src/Export/Tests.antt =====
-- Deliveries at concrete answers and claims.
use decepti_forge.Base.{
  ℕ, ◌≡◌, refl, Bool, true, false, List, [], ◌∷◌, Option, none, some, arith, num_mem, String,
  length, All, str_mem, map,
}
use decepti_forge.Export.Retry.{retry, backoff, raw_backoff}
use decepti_forge.Export.Worker.{
  Delivery, queued, delivered, Integration, Result, Settings, process, settle, mark_retry,
}
use decepti_forge.Export.Attempts.{Attempt, is_settled, is_retrying, process_all, process_all_ends}
use decepti_forge.Export.Claims.{claim_all, claim_one, claim_deliveries, candidates}
use decepti_forge.Export.Jobs.{
  State, Job, committed, process_row, process_claimed, run_once, run_jobs,
}
use decepti_forge.Export.Turns.{holds, no_double_claim}
use decepti_forge.Export.Blocked.{IsBlockedBy, oldest_blocks}
use decepti_forge.Alerting.Types.{high, medium}
use decepti_forge.Export.Envelope.{Envelope, alert_created, alert, analyst, minimal}
use decepti_forge.Export.Profiles.{apply_profile}
use decepti_forge.Export.Routing.{Channel, idempotency_key, matches, matching_integrations}
use decepti_forge.Export.Outbox.{Outgoing, emit_event}
use decepti_forge.Export.Emitted.{emit_once}
use decepti_forge.Export.Routed.{IsRouted, emit_event-IsRouted}

abbrev half : ℕ → ℕ → ℕ
half attempt spread = 0

abbrev delivery : Delivery
delivery = record {
  number = 1;
  integration_id = 4;
  status = queued;
  attempt_count = 0;
  next_attempt_at = 5;
  lease_until = none;
  response_status = none;
  safe_error_code = none;
  created_at = 0;
  delivered_at = none;
  dead_letters = [];
  audit = [];
}

abbrev settings : Settings
settings = record { max_attempts = 2; max_age = 86_400_000 }

abbrev integration : Integration
integration = record {
  state = "active";
  failure_code = none;
  last_success_at = none;
  last_failure_at = none;
}

-- The answer 503.
abbrev busy : Result
busy = record {
  decision = retry;
  http_status = some 503;
  error_code = none;
  retry_after_seconds = none;
}

-- The second attempt is lost with its job, and no answer came in the third.
abbrev attempt : ℕ → Option Result → Bool → Attempt
attempt now answer commits = record {
  now = now;
  endpoint_ok = true;
  answer = answer;
  integration = some integration;
  batch_commits = commits;
}

abbrev attempts : List Attempt
attempts =
    attempt 10 (some busy) true
    ∷ attempt 20 (some busy) false
    ∷ attempt 30 none true
    ∷ attempt 40 (some busy) true
    ∷ []

process_all_ends_example : is_settled (process_all settings half attempts delivery).status ≡ true
process_all_ends_example =
    process_all_ends settings half attempts delivery (omega arith) (omega arith)

abbrev integrations : ℕ → Option Integration
integrations n = some integration

-- A job in which the destination answers as given.
abbrev job : Option Result → Job
job answer = record {
  now = 10;
  claimed_at = 10;
  limit = 5;
  lease = 30;
  endpoint_ok = λ n. true;
  answer = λ n. answer;
}

abbrev after_busy : State
unfolding run_once claim_deliveries candidates claim_all claim_one process_claimed process_row
    process settle mark_retry backoff raw_backoff
after_busy =
    committed (delivery ∷ [], integrations)
      (run_once settings half (job (some busy)) (delivery ∷ [], integrations))

ran :
    run_once settings half (job (some busy)) (delivery ∷ [], integrations)
    ≡ some (1 ∷ [], after_busy)
unfolding after_busy
ran = refl

-- A worker that read its candidates before claims the delivery at once.
again : num_mem 1 (claim_all 11 41 (1 ∷ []) after_busy.0).0 ≡ true
unfolding after_busy claim_all claim_one
again = refl

no_double_claim_example : holds is_retrying 1 after_busy.0 ≡ true
no_double_claim_example =
    no_double_claim settings half (job (some busy)) (delivery ∷ [], integrations) after_busy
      (1 ∷ []) 1 11 41 (1 ∷ []) ran refl again

blocked_twice : All (IsBlockedBy settings half delivery (integrations 4)) (job none ∷ job none ∷ [])
blocked_twice = (blocking, (blocking, tt))
  where
    blocking : IsBlockedBy settings half delivery (integrations 4) (job none)
    blocking = record { takes = omega arith; due = refl; escaping = refl }

-- A delivery that has been made, and one behind the delivery that blocks it.
abbrev made : Delivery
made = record delivery { number = 3; status = delivered; attempt_count = 1 }

abbrev behind : Delivery
behind = record delivery { number = 2 }

oldest_blocks_example :
    run_jobs settings half (job none ∷ job none ∷ []) (made ∷ delivery ∷ behind ∷ [], integrations)
    ≡ (made ∷ delivery ∷ behind ∷ [], integrations)
oldest_blocks_example =
    oldest_blocks settings half delivery (made ∷ []) (behind ∷ []) integrations
      (job none ∷ job none ∷ []) ((refl, refl), tt) blocked_twice

abbrev event : Envelope
event = record {
  schema_version = "df-security-event-v1";
  event_id = "e1";
  event_type = alert_created;
  organization_id = "org";
  occurred_at = 1000;
  severity = high;
  confidence = 90;
  title = "contact";
  summary = "a decoy was read";
  source_system = "deceptiforge";
  source_object_type = alert;
  source_object_id = "a1";
  trace_ids = [];
  decoy_types = "key" ∷ [];
  affected_surfaces = "repository" ∷ [];
  repository_id = none;
  connector_id = none;
  incident_status = none;
  recommended_actions = [];
  deterministic_evidence_summary = "one read";
  narrative_summary = some "someone looked";
  request_or_correlation_ids = [];
  links = [];
  metadata = [];
}

abbrev siem : Channel
siem = record {
  channel_id = "siem";
  organization = "org";
  status = "active";
  routing = record { event_types = []; surface_types = "repository" ∷ [] };
  payload_profile = analyst;
  include_narrative = true;
  include_coverage = true;
  include_operational = false;
  minimum_severity = medium;
}

abbrev channels : List Channel
channels =
    record siem { channel_id = "old"; status = "disabled" }
    ∷ siem
    ∷ record siem { channel_id = "small"; payload_profile = minimal }
    ∷ []

abbrev one : ℕ → String
one n = "1"

abbrev hash_of : Envelope → String
hash_of e = "hash"

abbrev small : Envelope → ℕ
small e = 100

abbrev emitted : ℕ × List Outgoing
emitted = emit_event one hash_of small "org" 5 1 4096 channels event []

emitted_two : emitted.0 ≡ 2
unfolding emit_event idempotency_key apply_profile
emitted_two = refl

-- Later one integration is disabled, and another's profile is changed.
abbrev fewer : List Channel
fewer = record siem { payload_profile = minimal } ∷ []

among :
    All
      (λ (c : Channel). str_mem c.channel_id ("siem" ∷ "small" ∷ []) ≡ true)
      (matching_integrations "org" event fewer)
unfolding matching_integrations matches
among = (refl, tt)

matched :
    map (λ (c : Channel). c.channel_id) (matching_integrations "org" event channels)
    ≡ "siem" ∷ "small" ∷ []
unfolding matching_integrations matches
matched = refl

emit_once_example :
    emit_event one hash_of small "org" 9 1 2048 fewer event emitted.1 ≡ (0, emitted.1)
emit_once_example =
    emit_once one hash_of small "org" 5 9 1 4096 2048 channels fewer event [] emitted.1 (λ k h. h)
      (rw matched among)

emit_event-IsRouted_example :
    (added : List Outgoing) × (emitted.1 ≡ added)
    × (length added ≡ emitted.0)
    × All (IsRouted "org" channels event) added
emit_event-IsRouted_example = emit_event-IsRouted one hash_of small "org" 5 1 4096 event channels []
