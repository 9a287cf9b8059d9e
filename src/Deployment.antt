-- ===== src/Deployment.antt =====
-- The lifecycle of a decoy deployment: approval, execution, verification and removal.
pub mod Status
pub mod Rows
pub mod Service
pub mod Verify
pub mod Removal
pub mod Requests
pub mod Operations
pub mod Steps
pub mod Approvals
pub mod Activation
pub mod Tripwires
pub mod Requesting
mod Tests
