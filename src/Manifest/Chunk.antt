-- ===== src/Manifest/Chunk.antt =====
-- crates/televault-manifest/src/chunk.rs: physical chunks, and how many a file is split into.
pub mod Count
use televault.Prelude.{ℕ, ◌+◌, ◌-◌, ◌*◌, ◌/◌, ◌%◌, ◌^◌, ltb, if◌then◌else◌, Text, ◌>>◌, Result, ok}
use televault.Manifest.Types.{
  Checked, IntegrityMetadata, validate_integrity, StorageReference, validate_reference,
}

abbrev pub chunk_threshold_bytes : ℕ
chunk_threshold_bytes = 2 * 1024 * 1024 * 1024

abbrev pub target_chunk_size_bytes : ℕ
target_chunk_size_bytes = 1800 * 1024 * 1024

-- `u64::div_ceil`
abbrev pub div_ceil : ℕ → ℕ → ℕ
div_ceil a b = if ltb 0 (a % b) then a / b + 1 else a / b

-- `calculate_expected_chunk_count`; `count as u32` keeps the low 32 bits.
unfoldable pub calculate_expected_chunk_count : ℕ → ℕ
calculate_expected_chunk_count file_size =
    if ltb file_size chunk_threshold_bytes
    then 1
    else div_ceil file_size target_chunk_size_bytes % 2 ^ 32

pub record ChunkManifest : Type 0 where
  pub chunk_id : Text
  pub index : ℕ  -- u32
  pub plaintext_size : ℕ  -- u64
  pub stored_size : ℕ
  pub integrity : IntegrityMetadata
  pub storage_reference : StorageReference

-- `ChunkManifest::validate`
unfoldable pub validate_chunk : ChunkManifest → Checked
validate_chunk c = do validate_integrity c.integrity; validate_reference c.storage_reference
