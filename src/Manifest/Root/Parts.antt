-- ===== src/Manifest/Root/Parts.antt =====
-- What the checks on the parts of a manifest accept (crates/televault-manifest/src/types.rs and the
-- logical file of manifest.rs).
use televault.Prelude.{
  ◌≡◌, ◌≢◌, ◌↔◌, false, Option, none, some, [], arith, Text, ok, is_ascii_hexdigit, byte_len,
  find_bad,
}
use televault.Prelude.Int.{is_zero, is_nonpositive}
use televault.Core.Validation.{validate_safe_relative_path}
use televault.Manifest.Types.{
  IntegrityMetadata, validate_integrity, KdfInfo, validate_kdf, EncryptionMetadata, validate_kdf?,
  validate_encryption, StorageReference, validate_reference, telegram, local_staging, pending,
}
use televault.Manifest.Chunk.{ChunkManifest, validate_chunk}
use televault.Manifest.Root.{validate_encryption?, trim, LogicalFileMetadata, validate_file}

abbrev pub IsHex : Text → Type 0
IsHex s = find_bad is_ascii_hexdigit s ≡ none

-- A digest of 64 hexadecimal digits, blanks around it aside.
abbrev pub IsDigest : IntegrityMetadata → Type 0
IsDigest m = (byte_len (trim m.digest) ≡ 64) × IsHex (trim m.digest)

pub validate_integrity_iff : (m : IntegrityMetadata) → (validate_integrity m ≡ ok tt) ↔ IsDigest m
unfolding validate_integrity
validate_integrity_iff m = (λ h. ground arith, λ v. ground arith)

abbrev pub IsKdf : KdfInfo → Type 0
IsKdf k = (trim k.salt_hex ≢ []) × IsHex (trim k.salt_hex) × (k.memory_kib ≢ 0) × (k.iterations ≢ 0)

validate_kdf_iff : (k : KdfInfo) → (validate_kdf k ≡ ok tt) ↔ IsKdf k
unfolding validate_kdf
validate_kdf_iff k = (λ h. ground arith, λ v. ground arith)

abbrev pub IsKdf? : Option KdfInfo → Type 0
IsKdf? none = Unit
IsKdf? (some k) = IsKdf k

validate_kdf?_iff : (k : Option KdfInfo) → (validate_kdf? k ≡ ok tt) ↔ IsKdf? k
validate_kdf?_iff none = ground arith
validate_kdf?_iff (some k) = validate_kdf_iff k

abbrev pub IsEncryption : EncryptionMetadata → Type 0
IsEncryption e = (e.format_version ≡ 1) × IsKdf? e.kdf

pub validate_encryption_iff :
    (e : EncryptionMetadata) → (validate_encryption e ≡ ok tt) ↔ IsEncryption e
unfolding validate_encryption
validate_encryption_iff e =
    let inner = validate_kdf?_iff e.kdf in (λ h. ground (arith, inner), λ v. ground (arith, inner))

abbrev pub IsEncryption? : Option EncryptionMetadata → Type 0
IsEncryption? none = Unit
IsEncryption? (some e) = IsEncryption e

pub validate_encryption?_iff :
    (e : Option EncryptionMetadata) → (validate_encryption? e ≡ ok tt) ↔ IsEncryption? e
validate_encryption?_iff none = ground arith
validate_encryption?_iff (some e) = validate_encryption_iff e

abbrev pub IsReference : StorageReference → Type 0
IsReference (telegram chat_id message_id file_id) =
    (is_zero chat_id ≡ false) × (is_nonpositive message_id ≡ false) × (trim file_id ≢ [])
IsReference (local_staging relative_path) = trim relative_path ≢ []
IsReference pending = Unit

validate_reference_iff : (r : StorageReference) → (validate_reference r ≡ ok tt) ↔ IsReference r
unfolding validate_reference
validate_reference_iff (telegram chat_id message_id file_id) =
    (λ h. ground arith, λ v. ground arith)
validate_reference_iff (local_staging relative_path) = (λ h. ground arith, λ v. ground arith)
validate_reference_iff pending = (λ h. ground arith, λ v. ground arith)

abbrev pub IsChunk : ChunkManifest → Type 0
IsChunk c = IsDigest c.integrity × IsReference c.storage_reference

pub validate_chunk_iff : (c : ChunkManifest) → (validate_chunk c ≡ ok tt) ↔ IsChunk c
unfolding validate_chunk
validate_chunk_iff c = (
  λ h.
      ground
        (arith, validate_integrity_iff c.integrity, validate_reference_iff c.storage_reference),
  λ v.
      ground
        (arith, validate_integrity_iff c.integrity, validate_reference_iff c.storage_reference),
)

abbrev pub IsFile : LogicalFileMetadata → Type 0
IsFile f =
    (trim f.file_name ≢ [])
    × (trim f.relative_path ≢ [])
    × (validate_safe_relative_path f.relative_path ≡ ok tt)

pub validate_file_iff : (f : LogicalFileMetadata) → (validate_file f ≡ ok tt) ↔ IsFile f
unfolding validate_file
validate_file_iff f = (λ h. ground arith, λ v. ground arith)
