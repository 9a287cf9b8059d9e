-- ===== src/Export.antt =====
-- The export of security events: profiles and routing, the outbox, retries, the worker and the
-- claims of deliveries.
pub mod Envelope
pub mod Profiles
pub mod Routing
pub mod Outbox
pub mod Minimized
pub mod Emitted
pub mod Routed
pub mod Retry
pub mod Worker
pub mod Attempts
pub mod Claims
pub mod Jobs
pub mod Turns
pub mod Blocked
mod Tests
