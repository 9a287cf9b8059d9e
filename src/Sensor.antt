-- ===== src/Sensor.antt =====
-- The agent activity sensor: scope violations, sequences and severity.
pub mod Rules
pub mod Sequence
pub mod Sessions
mod Tests
