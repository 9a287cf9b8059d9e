-- ===== src/Capacity.antt =====
-- services/capacity.py: the limits of tenants, and the admission of monitoring events.
pub mod Limits
pub mod Quota
pub mod Windows
pub mod Admission
mod Tests
