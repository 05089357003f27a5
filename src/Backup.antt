-- ===== src/Backup.antt =====
-- crates/televault-backup: the detection of changes between a scan and the catalogue.
pub mod ChangeDetector
pub mod Tests
