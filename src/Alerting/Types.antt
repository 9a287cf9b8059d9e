-- ===== src/Alerting/Types.antt =====
-- The vocabulary of models/domain/operations.py that alerting and reconstruction use.
use decepti_forge.Base.{ℕ, String, Bool, List}

pub data Severity : Type 0 where
  info low medium high critical : Severity

-- `_SEVERITY_RANK`, and the same table in the reconstruction engine.
abbrev pub rank : Severity → ℕ
rank info = 0
rank low = 1
rank medium = 2
rank high = 3
rank critical = 4

pub data MonitorType : Type 0 where
  file_content repository database_payload text_payload : MonitorType

-- `MonitorType.value`
abbrev pub monitor_value : MonitorType → String
monitor_value file_content = "file_content"
monitor_value repository = "repository"
monitor_value database_payload = "database_payload"
monitor_value text_payload = "text_payload"

-- `TripwireRegistryEntry`
pub record Tripwire : Type 0 where
  pub trace_identifier : String
  pub decoy_id : String
  pub placement_id : String
  pub target_location : String
  pub template_id : String
  pub decoy_type : String
  pub enabled : Bool

-- `RawDetectionEvent`; `source` and `method` are the values of their enumerations.
pub record Event : Type 0 where
  pub event_id : String
  pub trace_identifier : String
  pub decoy_id : String
  pub monitor_type : MonitorType
  pub observed_location : String
  pub excerpt : String
  pub timestamp : ℕ
  pub source : String
  pub confidence : ℕ
  pub digest : String
  pub method : String
  pub correlation_id : String

-- `AlertEvidence`
pub record Evidence : Type 0 where
  pub excerpt : String
  pub digest : String
  pub location : String

-- `NormalizedAlert`, without its texts for people.
pub record Alert : Type 0 where
  pub alert_id : String
  pub trace_identifier : String
  pub decoy_id : String
  pub severity : Severity
  pub source_monitor : MonitorType
  pub confidence : ℕ
  pub first_seen : ℕ
  pub last_seen : ℕ
  pub event_count : ℕ
  pub deduplication_key : String
  pub episode_bucket : ℕ
  pub placement_id : String
  pub decoy_type : String
  pub evidence : List Evidence
  pub raw_event_ids : List String
  pub correlation_id : String
