-- ===== src/RateLimit.antt =====
-- services/rate_limit.py: the in-memory sliding-window limiter (`InMemoryRateLimiter`) and the
-- decision of the Redis limiter. Times are microseconds of the monotonic clock.
pub mod Window
pub mod Bound
pub mod Redis
mod Tests
