-- ===== src/Alerting/Tests.antt =====
-- Concrete alerts and events.
mod SampleIds
use mathlib.Core.List.Memᴰ
use decepti_forge.Base.{
  ℕ, ◌+◌, ◌≤◌, ◌*◌, String, ◌≡◌, refl, Bool, true, false, List, [], ◌∷◌, Option, none, some, arith,
  length, All,
}
use decepti_forge.Alerting.Types.{
  Severity, rank, medium, high, MonitorType, file_content, repository, Event, Evidence, Alert,
  Tripwire,
}
use decepti_forge.Alerting.Scoring.{severity, severity_mono, severity_floor}
use decepti_forge.Alerting.Merge.{
  combine_alerts, combine_alerts_comm, combine_alerts_assoc, SameFacts,
}
use decepti_forge.Alerting.Pipeline.{
  Config, second, store_alert, outcome, matching_alert, key_of, episode_of, create_alert, ingest,
  entry_of, is_match, is_valid, evidence_of,
}
use decepti_forge.Alerting.Bounds.{IsWellFormed, combine_alerts-IsWellFormed, ingest-IsWellFormed}
use decepti_forge.Alerting.Totals.{total, IsDistinct}
use decepti_forge.Alerting.Counts.{ingest_all, ingest_all_counts, InOrder}
use decepti_forge.Alerting.Late.{ingest_late_overwrites}
use SampleIds.{sample_id, numbered_inj}

abbrev config : Config
config = record { window_seconds = 300 }

-- A hit on one canary file at a given second.
abbrev hit_at : ℕ → ℕ → Event
hit_at seconds confidence = record {
  event_id = "e1";
  trace_identifier = "trace-1";
  decoy_id = "decoy-1";
  monitor_type = repository;
  observed_location = "config/.env";
  excerpt = "trace-1";
  timestamp = seconds * second;
  source = "scan";
  confidence = confidence;
  digest = "d1";
  method = "exact";
  correlation_id = "corr-1";
}

abbrev first_alert : Alert
unfolding create_alert
first_alert = create_alert sample_id "org" config (hit_at 1000 90) (entry_of none (hit_at 1000 90))

first_alert-IsWellFormed : IsWellFormed first_alert
unfolding first_alert
first_alert-IsWellFormed = omega arith

valid : is_valid (hit_at 1000 90) ≡ true
unfolding is_valid
valid = refl

-- Two hits in one episode, and one in a later episode.
abbrev three_hits : List (Event × Option Tripwire)
three_hits = (hit_at 1000 90, none) ∷ (hit_at 1010 90, none) ∷ (hit_at 9000 90, none) ∷ []

three_hits-InOrder : InOrder 0 three_hits
unfolding is_valid
three_hits-InOrder = (refl, omega arith, (refl, omega arith, (refl, omega arith, tt)))

ingest_all_counts_example : total (ingest_all sample_id "org" config three_hits []) ≡ 3
ingest_all_counts_example =
    ingest_all_counts sample_id "org" config three_hits (omega arith)
      (λ k k' b b' same. numbered_inj k k' b b' same) three_hits-InOrder

two_alerts : length (ingest_all sample_id "org" config three_hits []) ≡ 2
unfolding ingest_all ingest is_valid store_alert outcome matching_alert key_of
two_alerts = refl

-- An alert of the episode that was last seen much later.
abbrev long_lived : Alert
long_lived = record first_alert { last_seen = 5000 * second; event_count = 7 }

abbrev elsewhere : Alert
elsewhere = record first_alert { alert_id = "other"; deduplication_key = "other"; event_count = 2 }

two_held : IsDistinct (long_lived ∷ elsewhere ∷ [])
unfolding first_alert key_of
two_held = ((refl, tt), (tt, tt))

both_far :
    All
      (λ (b : Alert). is_match config (key_of (hit_at 1000 90)) (hit_at 1000 90) b ≡ false)
      (long_lived ∷ elsewhere ∷ [])
unfolding first_alert key_of
both_far = (refl, (refl, tt))

-- Nine events were counted; seven of them are lost.
ingest_late_overwrites_example :
    total (ingest sample_id "org" config (hit_at 1000 90) none (long_lived ∷ elsewhere ∷ [])).1 + 7
    ≡ total (long_lived ∷ elsewhere ∷ []) + 1
unfolding first_alert
ingest_late_overwrites_example =
    ingest_late_overwrites sample_id "org" config (hit_at 1000 90) none long_lived
      (long_lived ∷ elsewhere ∷ []) valid two_held (Memᴰ.head refl) refl both_far
