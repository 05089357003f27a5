-- ===== src/Core.antt =====
-- crates/televault-core: the enums and the error that the other crates share, and the checks on identifiers and
-- paths.
pub mod Models
pub mod Error
pub mod Validation
pub mod Tests
