-- ===== src/Artifacts.antt =====
-- repositories/artifacts.py: the stored alerts.
pub mod Alerts
pub mod Facts
pub mod Upserts
pub mod Refinement
pub mod Isolation
pub mod Jobs
pub mod Queue
pub mod Shares
pub mod Fairness
pub mod Incidents
pub mod Stale
pub mod Worker
pub mod Held
pub mod Steps
pub mod Drain
pub mod Retention
pub mod Purges
mod Tests
