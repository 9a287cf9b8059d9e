-- ===== src/Alerting/Merge.antt =====
-- `combine_alerts`: the merge of two alerts for one episode.
use decepti_forge.Base.{◌+◌, min, max, ◌≡◌, ◌++◌, ltb, if◌then◌else◌, arith, take_last}
use decepti_forge.Alerting.Types.{Severity, rank, Alert}

-- `max(a, b, key=rank)`: the first of two that tie.
abbrev pub max_severity : Severity → Severity → Severity
max_severity a b = if ltb (rank a) (rank b) then b else a

unfoldable pub combine_alerts : (existing candidate : Alert) → Alert
combine_alerts existing candidate = record existing {
  event_count = existing.event_count + candidate.event_count;
  first_seen = min existing.first_seen candidate.first_seen;
  last_seen = max existing.last_seen candidate.last_seen;
  severity = max_severity existing.severity candidate.severity;
  confidence = max existing.confidence candidate.confidence;
  evidence = take_last 5 (existing.evidence ++ candidate.evidence);
  raw_event_ids = take_last 20 (existing.raw_event_ids ++ candidate.raw_event_ids);
}

-- The fields that concurrent ingests must agree on.
pub record SameFacts (a b : Alert) : Type 0 where
  pub counts : a.event_count ≡ b.event_count
  pub firsts : a.first_seen ≡ b.first_seen
  pub lasts : a.last_seen ≡ b.last_seen
  pub severities : a.severity ≡ b.severity
  pub confidences : a.confidence ≡ b.confidence

-- The merge commutes in the fields that matter under concurrency: count, first and last sighting,
-- severity and confidence.
pub combine_alerts_comm : (a b : Alert) → SameFacts (combine_alerts a b) (combine_alerts b a)
unfolding combine_alerts
combine_alerts_comm a b = ground arith

-- The order in which three ingests of one episode meet the row does not matter either.
pub combine_alerts_assoc :
    (a b c : Alert)
    → SameFacts (combine_alerts (combine_alerts a b) c) (combine_alerts a (combine_alerts b c))
unfolding combine_alerts
combine_alerts_assoc a b c = ground arith
