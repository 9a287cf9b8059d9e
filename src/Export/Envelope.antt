-- ===== src/Export/Envelope.antt =====
-- models/domain/integrations.py: the events that leave the platform. A confidence is in hundredths,
-- a time in milliseconds, a dictionary the list of its entries.
use decepti_forge.Base.{ℕ, String, List, Option}
use decepti_forge.Alerting.Types.{Severity}

pub data SourceType : Type 0 where
  alert incident coverage_gap operational_event : SourceType

pub data PayloadProfile : Type 0 where
  minimal standard analyst compliance_summary : PayloadProfile

pub data EventType : Type 0 where
  alert_created alert_updated alert_escalated incident_created incident_updated incident_resolved
        incident_stale incident_superseded coverage_critical_gap coverage_score_drop
        coverage_sensor_degraded coverage_decoy_expired monitor_activation_failed
        connector_unhealthy retention_failed reconstruction_failed delivery_failed :
      EventType

-- `EventType.value`
abbrev pub event_name : EventType → String
event_name alert_created = "deceptiforge.alert.created"
event_name alert_updated = "deceptiforge.alert.updated"
event_name alert_escalated = "deceptiforge.alert.escalated"
event_name incident_created = "deceptiforge.incident.created"
event_name incident_updated = "deceptiforge.incident.updated"
event_name incident_resolved = "deceptiforge.incident.resolved"
event_name incident_stale = "deceptiforge.incident.stale"
event_name incident_superseded = "deceptiforge.incident.superseded"
event_name coverage_critical_gap = "deceptiforge.coverage.critical_gap"
event_name coverage_score_drop = "deceptiforge.coverage.score_drop"
event_name coverage_sensor_degraded = "deceptiforge.coverage.sensor_degraded"
event_name coverage_decoy_expired = "deceptiforge.coverage.decoy_expired"
event_name monitor_activation_failed = "deceptiforge.monitor.activation_failed"
event_name connector_unhealthy = "deceptiforge.connector.unhealthy"
event_name retention_failed = "deceptiforge.retention.failed"
event_name reconstruction_failed = "deceptiforge.reconstruction.failed"
event_name delivery_failed = "deceptiforge.integration.delivery_failed"

-- `source_for_event`, with the table `_SOURCE_FOR_EVENT` by the prefix of each name.
abbrev pub source_for_event : EventType → SourceType
source_for_event alert_created = alert
source_for_event alert_updated = alert
source_for_event alert_escalated = alert
source_for_event incident_created = incident
source_for_event incident_updated = incident
source_for_event incident_resolved = incident
source_for_event incident_stale = incident
source_for_event incident_superseded = incident
source_for_event coverage_critical_gap = coverage_gap
source_for_event coverage_score_drop = coverage_gap
source_for_event coverage_sensor_degraded = coverage_gap
source_for_event coverage_decoy_expired = coverage_gap
source_for_event _ = operational_event

-- `SourceType.value`
abbrev pub source_name : SourceType → String
source_name alert = "alert"
source_name incident = "incident"
source_name coverage_gap = "coverage_gap"
source_name operational_event = "operational_event"

-- `SecurityEventEnvelope`
pub record Envelope : Type 0 where
  pub schema_version : String
  pub event_id : String
  pub event_type : EventType
  pub organization_id : String
  pub occurred_at : ℕ
  pub severity : Severity
  pub confidence : ℕ
  pub title : String
  pub summary : String
  pub source_system : String
  pub source_object_type : SourceType
  pub source_object_id : String
  pub trace_ids : List String
  pub decoy_types : List String
  pub affected_surfaces : List String
  pub repository_id : Option String
  pub connector_id : Option String
  pub incident_status : Option String
  pub recommended_actions : List String
  pub deterministic_evidence_summary : String
  pub narrative_summary : Option String
  pub request_or_correlation_ids : List String
  pub links : List (String × String)
  pub metadata : List (String × String)
