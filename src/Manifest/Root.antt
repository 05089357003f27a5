-- ===== src/Manifest/Root.antt =====
-- crates/televault-manifest/src/manifest.rs: the root manifest and its check. JSON is written and
-- read by serde, which is not modelled.
pub mod Parts
pub mod Chunks
pub mod Valid
use televault.Prelude.{
  Bool, true, false, ℕ, suc, ◌+◌, ◌*◌, ◌%◌, ◌^◌, ltb, ◌==◌, not, if◌then◌else◌, Option, none, some,
  List, [], ◌∷◌, ◌++◌, Text, text, trim, is_empty, ◌>>◌, ◌>>=◌, Result, ok, err, guard, map_err,
}
use televault.Prelude.Keyed.{contains}
use televault.Core.Error.{app_error_text}
use televault.Core.Validation.{validate_safe_relative_path}
use televault.Manifest.Types.{
  Checked, ManifestError, unsupported_version, chunk_ordering, duplicate_chunk_id, size_mismatch,
  IntegrityMetadata, validate_integrity, EncryptionMetadata, validate_encryption,
  CompressionMetadata, ManifestVersion, v1,
}
use televault.Manifest.Chunk.{ChunkManifest, validate_chunk}

pub record LogicalFileMetadata : Type 0 where
  pub file_id : Text
  pub file_name : Text
  pub relative_path : Text
  pub original_size : ℕ  -- u64
  pub created_at : Option ℕ
  pub modified_at : Option ℕ
  pub mime_type : Option Text

-- `LogicalFileMetadata::validate`
unfoldable pub validate_file : LogicalFileMetadata → Checked
validate_file f = do
  guard (not (is_empty (trim f.file_name)))
      (ManifestError.validation (text "logical_file.file_name") (text "file_name cannot be empty"))
  guard (not (is_empty (trim f.relative_path))) (
      ManifestError.validation (text "logical_file.relative_path")
        (text "relative_path cannot be empty"))
  map_err
      (λ e.
        ManifestError.validation (text "logical_file.relative_path")
          (text "path safety validation failed: " ++ app_error_text e))
      (validate_safe_relative_path f.relative_path)

pub record ManifestV1 : Type 0 where
  pub manifest_version : ManifestVersion
  pub manifest_id : Text
  pub logical_file : LogicalFileMetadata
  pub encryption : Option EncryptionMetadata
  pub compression : CompressionMetadata
  pub integrity : IntegrityMetadata
  pub chunks : List ChunkManifest

abbrev pub u64_limit : ℕ
u64_limit = 2 ^ 64

-- `plaintext_sum.checked_add(...)`, with the error for an overflow.
abbrev pub checked_add : ℕ → ℕ → Result ManifestError ℕ
checked_add a b =
    if ltb (a + b) u64_limit
    then ok (a + b)
    else err (
        ManifestError.validation (text "chunks.plaintext_size")
          (text "integer overflow calculating chunk plaintext sum"))

-- The loop over `self.chunks.iter().enumerate()`: the index, the identifiers seen and the sum so far.
unfoldable pub check_chunks : ℕ → List Text → ℕ → List ChunkManifest → Result ManifestError ℕ
check_chunks idx seen plaintext_sum [] = ok plaintext_sum
check_chunks idx seen plaintext_sum (c ∷ cs) = do
  validate_chunk c
  guard (c.index == idx % 2 ^ 32) (chunk_ordering idx (idx % 2 ^ 32) c.index)
  guard (not (contains seen c.chunk_id)) (duplicate_chunk_id c.chunk_id)
  next ← checked_add plaintext_sum c.plaintext_size
  check_chunks (suc idx) (c.chunk_id ∷ seen) next cs

abbrev pub check_version : ManifestVersion → Checked
check_version v1 = ok tt

abbrev pub validate_encryption? : Option EncryptionMetadata → Checked
validate_encryption? none = ok tt
validate_encryption? (some e) = validate_encryption e

abbrev pub is_nil : List ChunkManifest → Bool
is_nil [] = true
is_nil (c ∷ cs) = false

-- `ManifestV1::validate`
unfoldable pub validate_manifest : ManifestV1 → Checked
validate_manifest m = do
  check_version m.manifest_version
  guard (not (is_empty (trim m.manifest_id)))
      (ManifestError.validation (text "manifest_id") (text "manifest_id cannot be empty"))
  validate_file m.logical_file
  validate_integrity m.integrity
  validate_encryption? m.encryption
  guard (not (is_nil m.chunks))
      (ManifestError.validation (text "chunks") (text "manifest must contain at least one chunk"))
  plaintext_sum ← check_chunks 0 [] 0 m.chunks
  guard (plaintext_sum == m.logical_file.original_size)
      (size_mismatch m.logical_file.original_size plaintext_sum)
