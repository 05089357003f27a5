-- ===== src/Manifest.antt =====
-- crates/televault-manifest: the manifest of a logical file and its physical chunks.
pub mod Types
pub mod Chunk
pub mod Root
pub mod Tests
