-- ===== src/Replay.antt =====
-- services/replay.py: nonce stores and the replay guard. Times are microseconds since the epoch.
-- The code's `float(timestamp)` is a parameter of the guard; its values are told apart here as
-- the comparisons of the code tell them apart (finite, infinite, not a number).
pub mod Store
pub mod Guard
pub mod SingleUse
pub mod Gaps
mod Tests
