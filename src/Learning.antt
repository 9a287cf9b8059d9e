-- ===== src/Learning.antt =====
-- The lifecycle of calibration models.
pub mod Versions
pub mod Lifecycle
mod Tests
