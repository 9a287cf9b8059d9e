-- ===== src/Alerting.antt =====
-- services/alerting: severity scoring, the merge of alerts for one episode, and the pipeline that
-- normalizes and deduplicates raw events; the types are those of models/domain/operations.py.
-- Times are microseconds since the epoch, UUIDs are their texts, and a confidence or a score is
-- counted in hundredths: the rounding of floats is not modelled.
pub mod Types
pub mod Scoring
pub mod Merge
pub mod Pipeline
pub mod Bounds
pub mod Totals
pub mod Counts
pub mod Late
mod Tests
