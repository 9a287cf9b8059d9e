-- ===== src/Incident.antt =====
-- The reconstruction of incidents from alerts.
pub mod Engine
pub mod Groups
mod Tests
