-- ===== src/Access.antt =====
-- services/api_keys.py and security.py: API keys, their scopes and the authentication of requests.
pub mod Catalog
pub mod Grants
pub mod Authority
pub mod Keys
pub mod Sessions
pub mod Revocation
pub mod Monitors
pub mod Signatures
pub mod Authorize
pub mod Tenancy
mod Tests
