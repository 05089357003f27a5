-- ===== src/Crypto.antt =====
-- crates/televault-crypto: the bytes that bind a chunk's ciphertext to its place. The cipher and the
-- key derivation are third-party code and are not modelled.
pub mod Aad
pub mod Tests
