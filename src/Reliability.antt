-- ===== src/Reliability.antt =====
-- The reliability control plane: models/domain/reliability.py (the failover state machine),
-- services/reliability/failover.py with the event log of repositories/reliability.py,
-- services/reliability/fencing.py and the readiness rule of services/reliability/degraded.py.
pub mod States
pub mod Failover
pub mod History
pub mod Fencing
mod Tests
