-- ===== src/Gitops.antt =====
-- src/pitwall/gitops: the registry of capabilities and providers against its declared state.
pub mod Schema
pub mod Snapshots
pub mod Differ
pub mod Desired
pub mod Repository
pub mod Reconcile
