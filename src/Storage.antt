-- ===== src/Storage.antt =====
-- crates/televault-storage: the contract between transfers and a remote store.
pub mod Error
pub mod Types
pub mod Objects
pub mod Mock
mod Tests
