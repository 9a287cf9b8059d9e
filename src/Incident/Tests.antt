-- ===== src/Incident/Tests.antt =====
-- Three alerts, of which two belong together.
use decepti_forge.Base.{ℕ, ◌*◌, String, Bool, false, List, [], ◌∷◌, All}
use decepti_forge.Alerting.Types.{Alert, high, repository}
use decepti_forge.Alerting.Pipeline.{second}
use decepti_forge.Incident.Engine.{Config, Group, reconstruct}
use decepti_forge.Incident.Groups.{IsGroup, reconstruct-IsGroup}

abbrev config : Config
config = record { correlation_window_seconds = 3600; max_alerts = 1000 }

abbrev alert : (number trace : String) → ℕ → Alert
alert number trace seconds = record {
  alert_id = number;
  trace_identifier = trace;
  decoy_id = trace;
  severity = high;
  source_monitor = repository;
  confidence = 90;
  first_seen = seconds * second;
  last_seen = seconds * second;
  event_count = 1;
  deduplication_key = trace;
  episode_bucket = 0;
  placement_id = trace;
  decoy_type = "secret";
  evidence = [];
  raw_event_ids = [];
  correlation_id = trace;
}

abbrev alerts : List Alert
alerts = alert "a" "t1" 10 ∷ alert "b" "t2" 20 ∷ alert "c" "t1" 30 ∷ []

-- The order of the ids plays no part, since no two alerts begin at one time.
abbrev any_order : String → String → Bool
any_order a b = false

reconstruct-IsGroup_example : All (IsGroup config) (reconstruct any_order config alerts)
reconstruct-IsGroup_example = reconstruct-IsGroup any_order config alerts

abbrev pair : Group
pair = record { first = alert "a" "t1" 10; others = alert "c" "t1" 30 ∷ [] }
