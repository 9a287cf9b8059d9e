-- ===== src/Secrets.antt =====
-- Secrets at rest and on the wire: services/encryption.py and services/monitor_signing.py.
pub mod Fields
pub mod Tokens
pub mod Roundtrip
pub mod Signing
mod Tests
