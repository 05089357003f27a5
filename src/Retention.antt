-- ===== src/Retention.antt =====
-- crates/televault-backup/src/retention: which snapshots of a profile are kept and which are pruned.
pub mod Types
pub mod Policy
pub mod Evaluator
pub mod Engine
pub mod Tests
