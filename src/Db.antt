-- ===== src/Db.antt =====
-- crates/televault-db: the catalogue, as tables and the statements that are run on them.
pub mod Table
pub mod Catalog
pub mod Profiles
pub mod Files
pub mod Chunks
pub mod Snapshots
pub mod Schedules
pub mod Retention
pub mod Integrity
pub mod Tests
