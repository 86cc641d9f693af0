-- ===== src/RateLimits.antt =====
-- The rate limits (src/pitwall/rate_limits).
pub mod Algorithm
pub mod Store
pub mod Limiter
