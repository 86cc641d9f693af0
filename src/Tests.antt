-- ===== src/Tests.antt =====
-- The definitions on concrete inputs, and the theorems there.
mod Leases
mod Cooldowns
mod Spending
mod Pacing
mod Plans
mod Cascades
mod Fallbacks
mod Limits
mod Autopilots
mod Coalescings
mod Hedgings
mod Gitopses
mod Limiters
mod SubBudgeting
mod SyncGates
