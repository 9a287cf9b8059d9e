-- ===== src/Alerting/Pipeline.antt =====
-- `AlertingPipeline`. Its dictionary from alert id to alert is the list of its alerts, in insertion
-- order. `uuid5` (the library's digest of the identity text) and the decimal text of the episode
-- number are one parameter, `alert_id_of organization key episode`.
use decepti_forge.Base.{
  ℕ, ◌+◌, ◌*◌, ◌/◌, min, max, String, text_append, is_text, Bool, true, ◌&&◌, List, [], ◌∷◌, ◌++◌,
  Option, none, some, leb, abs_diff, if◌then◌else◌, str_eq, take_last,
}
use decepti_forge.Alerting.Types.{monitor_value, Tripwire, Event, Evidence, Alert}
use decepti_forge.Alerting.Scoring.{severity}

-- One second, in the clock's unit.
abbrev pub second : ℕ
second = 1_000_000

-- `AlertingConfig.deduplication_window_seconds`; its thresholds are read by no code.
pub record Config : Type 0 where
  pub window_seconds : ℕ

abbrev pub window : Config → ℕ
window c = c.window_seconds * second

-- `_valid`
unfoldable pub is_valid : Event → Bool
is_valid e = is_text e.trace_identifier && is_text e.excerpt && leb 50 e.confidence

abbrev join : String → String → String
join a b = text_append a (text_append ":" b)

-- `_key`
unfoldable pub key_of : Event → String
key_of e = join e.trace_identifier (
    join e.decoy_id
      (join (monitor_value e.monitor_type) (join e.observed_location (join e.source e.method))))

-- `_fallback`
unfoldable pub fallback : Event → Tripwire
fallback e = record {
  trace_identifier = e.trace_identifier;
  decoy_id = e.decoy_id;
  placement_id = e.correlation_id;
  target_location = e.observed_location;
  template_id = "unknown";
  decoy_type = "unknown";
  enabled = true;
}

-- `tripwire or self._fallback(event)`
abbrev pub entry_of : Option Tripwire → Event → Tripwire
unfolding fallback
entry_of none e = fallback e
entry_of (some t) e = t

-- The distance of an event from the last sighting of an alert.
abbrev pub gap : Event → Alert → ℕ
gap e a = abs_diff e.timestamp a.last_seen

abbrev pub is_match : Config → String → Event → Alert → Bool
is_match c key e a = str_eq a.deduplication_key key && leb (gap e a) (window c)

-- `min(..., key=gap)` keeps the first of several that are equally near.
abbrev pub nearer : Event → Alert → Option Alert → Option Alert
nearer e a none = some a
nearer e a (some b) = if leb (gap e a) (gap e b) then some a else some b

-- `_matching_alert`
unfoldable pub matching_alert : Config → String → Event → List Alert → Option Alert
matching_alert c key e [] = none
matching_alert c key e (a ∷ as') =
    let rest = matching_alert c key e as' in if is_match c key e a then nearer e a rest else rest

abbrev pub evidence_of : Event → Evidence
evidence_of e = record { excerpt = e.excerpt; digest = e.digest; location = e.observed_location }

-- The number of the episode: the time bucket of the event.
abbrev pub episode_of : Config → Event → ℕ
episode_of c e = e.timestamp / (max 1 c.window_seconds * second)

-- `_update`
unfoldable pub update_alert : Alert → Event → Tripwire → Alert
update_alert a e entry = record a {
  first_seen = min a.first_seen e.timestamp;
  last_seen = max a.last_seen e.timestamp;
  event_count = a.event_count + 1;
  severity = severity e entry.decoy_type 100 (a.event_count + 1);
  confidence = max a.confidence e.confidence;
  evidence = take_last 5 (a.evidence ++ evidence_of e ∷ []);
  raw_event_ids = take_last 20 (a.raw_event_ids ++ e.event_id ∷ []);
}

-- `self._alerts[id] = alert`
unfoldable pub store_alert : Alert → List Alert → List Alert
store_alert a [] = a ∷ []
store_alert a (b ∷ bs) = if str_eq b.alert_id a.alert_id then a ∷ bs else b ∷ store_alert a bs

module _ (alert_id_of : String → String → ℕ → String) (organization : String) where
  -- `_create`
  unfoldable pub create_alert : Config → Event → Tripwire → Alert
  create_alert c e entry = record {
    alert_id = alert_id_of organization (key_of e) (episode_of c e);
    trace_identifier = e.trace_identifier;
    decoy_id = e.decoy_id;
    severity = severity e entry.decoy_type 100 1;
    source_monitor = e.monitor_type;
    confidence = e.confidence;
    first_seen = e.timestamp;
    last_seen = e.timestamp;
    event_count = 1;
    deduplication_key = key_of e;
    episode_bucket = episode_of c e;
    placement_id = entry.placement_id;
    decoy_type = entry.decoy_type;
    evidence = evidence_of e ∷ [];
    raw_event_ids = e.event_id ∷ [];
    correlation_id = e.correlation_id;
  }

  -- The alert that an accepted event leads to: the update of its match, or a new one.
  unfoldable pub outcome : Config → Event → Tripwire → Option Alert → Alert
  unfolding create_alert update_alert
  outcome c e entry none = create_alert c e entry
  outcome c e entry (some a) =
      if leb (gap e a) (window c) then update_alert a e entry else create_alert c e entry

  -- `ingest`
  unfoldable pub ingest : Config → Event → Option Tripwire → List Alert → Option Alert × List Alert
  ingest c e tripwire alerts =
      if is_valid e
      then (let a = outcome c e (entry_of tripwire e) (matching_alert c (key_of e) e alerts) in
          (some a, store_alert a alerts))
      else (none, alerts)
