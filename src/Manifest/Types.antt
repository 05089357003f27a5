-- ===== src/Manifest/Types.antt =====
-- crates/televault-manifest/src/{types,error,version}.rs: the metadata that a manifest holds, and
-- the checks on each part.
use televault.Prelude.{
  ℕ, not, Option, none, some, ◌++◌, ◌==◌, Text, text, trim, is_empty, byte_len, is_ascii_hexdigit,
  find_bad, decimal, ◌∷◌, Result, ok, err, ◌>>◌, guard,
}
use televault.Prelude.Int.{ℤ, is_zero, is_nonpositive}
use televault.Core.Models.{CompressionAlgorithm, EncryptionAlgorithm}

pub data ManifestError : Type 0 where
  validation : (field message : Text) → ManifestError
  unsupported_version : Text → ManifestError
  chunk_ordering : (position expected actual : ℕ) → ManifestError
  duplicate_chunk_id : Text → ManifestError
  size_mismatch : (logical_size chunks_sum : ℕ) → ManifestError
  invalid_hash : (algorithm reason : Text) → ManifestError
  serialization : Text → ManifestError
  deserialization : Text → ManifestError

abbrev pub Checked : Type 0
Checked = Result ManifestError (Unit {0})

pub data ManifestVersion : Type 0 where
  v1 : ManifestVersion

pub data HashAlgorithm : Type 0 where
  sha256 : HashAlgorithm

abbrev pub algorithm_name : HashAlgorithm → Text
algorithm_name sha256 = text "sha256"

pub record IntegrityMetadata : Type 0 where
  pub algorithm : HashAlgorithm
  pub digest : Text

abbrev non_hex : HashAlgorithm → Option ℕ → Checked
non_hex a none = ok tt
non_hex a (some c) = err (
    invalid_hash (algorithm_name a)
      (text "contains invalid hexadecimal character '" ++ c ∷ text "'"))

-- `IntegrityMetadata::validate`.
unfoldable pub validate_integrity : IntegrityMetadata → Checked
validate_integrity m = do
  let trimmed = trim m.digest
  guard (byte_len trimmed == 64) (
      invalid_hash (algorithm_name m.algorithm) (
        text "expected 64 hexadecimal characters, got "
        ++ decimal (byte_len trimmed)
        ++ text " characters"))
  non_hex m.algorithm (find_bad is_ascii_hexdigit trimmed)

pub record CompressionMetadata : Type 0 where
  pub algorithm : CompressionAlgorithm

pub record KdfInfo : Type 0 where
  pub salt_hex : Text
  pub memory_kib : ℕ
  pub iterations : ℕ
  pub parallelism : ℕ

abbrev non_hex_salt : Option ℕ → Checked
non_hex_salt none = ok tt
non_hex_salt (some c) = err (
    validation (text "encryption.kdf.salt_hex")
      (text "salt contains non-hex character '" ++ c ∷ text "'"))

-- `KdfInfo::validate`.
unfoldable pub validate_kdf : KdfInfo → Checked
validate_kdf k = do
  let trimmed = trim k.salt_hex
  guard (not (is_empty trimmed))
      (validation (text "encryption.kdf.salt_hex") (text "salt cannot be empty"))
  non_hex_salt (find_bad is_ascii_hexdigit trimmed)
  guard (not (k.memory_kib == 0))
      (validation (text "encryption.kdf.memory_kib") (text "memory cost must be positive"))
  guard (not (k.iterations == 0))
      (validation (text "encryption.kdf.iterations") (text "iterations must be positive"))

pub record EncryptionMetadata : Type 0 where
  pub format_version : ℕ
  pub algorithm : EncryptionAlgorithm
  pub kdf : Option KdfInfo

abbrev pub validate_kdf? : Option KdfInfo → Checked
validate_kdf? none = ok tt
validate_kdf? (some k) = validate_kdf k

-- `EncryptionMetadata::validate`.
unfoldable pub validate_encryption : EncryptionMetadata → Checked
validate_encryption e = do
  guard (e.format_version == 1) (
      validation (text "encryption.format_version")
        (text "unsupported crypto format version " ++ decimal e.format_version))
  validate_kdf? e.kdf

pub data StorageReference : Type 0 where
  telegram : (chat_id message_id : ℤ) (file_id : Text) → StorageReference
  local_staging : (relative_path : Text) → StorageReference
  pending : StorageReference

-- `StorageReference::validate`.
unfoldable pub validate_reference : StorageReference → Checked
validate_reference (telegram chat_id message_id file_id) = do
  guard (not (is_zero chat_id))
      (validation (text "storage.telegram.chat_id") (text "chat_id cannot be 0"))
  guard (not (is_nonpositive message_id))
      (validation (text "storage.telegram.message_id") (text "message_id must be positive"))
  guard (not (is_empty (trim file_id)))
      (validation (text "storage.telegram.file_id") (text "file_id cannot be empty"))
validate_reference (local_staging relative_path) =
    guard (not (is_empty (trim relative_path))) (
      validation (text "storage.local_staging.relative_path")
        (text "relative_path cannot be empty"))
validate_reference pending = ok tt
