-- ===== src/Routing.antt =====
-- src/pitwall/routing: what selects a provider and calls it.
pub mod Cooldown
pub mod Planner
pub mod Constraints
pub mod Coalescing
pub mod Hedging
pub mod Cascade
pub mod Fallback
