-- ===== src/Manifest/Tests.antt =====
-- The checks on manifests and the number of chunks on concrete inputs.
use televault.Prelude.{
  trim, trim_start, byte_len, find_bad, ℕ, ◌+◌, ◌*◌, ◌^◌, ◌≤◌, ◌<◌, ◌≡◌, refl, ◌↔◌, ◌⊎◌, none, List,
  [], ◌∷◌, arith, Text, text, text_eq, ok, err,
}
use televault.Prelude.Keyed.{contains}
use televault.Core.Validation.{
  segments, body, components, check_components, validate_safe_relative_path,
}
use televault.Prelude.Int.{pos, negsuc}
use televault.Core.Models.{CompressionAlgorithm}
use televault.Manifest.Types.{
  sha256, telegram, duplicate_chunk_id, chunk_ordering, ManifestVersion, IntegrityMetadata,
  validate_integrity, validate_reference, sha256, telegram,
}
use televault.Manifest.Chunk.{
  chunk_threshold_bytes, target_chunk_size_bytes, calculate_expected_chunk_count, ChunkManifest,
  validate_chunk,
}
use televault.Manifest.Chunk.Count.{calculate_expected_chunk_count_bounds}
use televault.Manifest.Root.{validate_file, ManifestV1, check_chunks, validate_manifest}
use televault.Manifest.Root.Valid.{IsValid, validate_manifest_iff}

abbrev five_gb : ℕ
five_gb = 5583457484

calculate_expected_chunk_count_bounds_example :
    ((five_gb < chunk_threshold_bytes) × (calculate_expected_chunk_count five_gb ≡ 1))
    ⊎ ((chunk_threshold_bytes ≤ five_gb)
        × (five_gb ≤ calculate_expected_chunk_count five_gb * target_chunk_size_bytes)
        × (calculate_expected_chunk_count five_gb * target_chunk_size_bytes
            < five_gb + target_chunk_size_bytes))
calculate_expected_chunk_count_bounds_example =
    calculate_expected_chunk_count_bounds five_gb (ground arith)

three_chunks : calculate_expected_chunk_count five_gb ≡ 3
unfolding calculate_expected_chunk_count
three_chunks = refl

two_chunks : calculate_expected_chunk_count chunk_threshold_bytes ≡ 2
unfolding calculate_expected_chunk_count
two_chunks = refl

-- From 7372800 TiB on, the conversion to `u32` loses the higher bits.
wraps : calculate_expected_chunk_count (2 ^ 32 * target_chunk_size_bytes) ≡ 0
unfolding calculate_expected_chunk_count
wraps = refl

abbrev digest : IntegrityMetadata
digest = record {
  algorithm = sha256;
  digest = text "e3b0c44298fc1c149afbf4c8996fb92427ae41e4649b934ca495991b7852b855";
}

abbrev chunk : Text → ℕ → ChunkManifest
chunk chunk_id index = record {
  chunk_id = chunk_id;
  index = index;
  plaintext_size = 50;
  stored_size = 50;
  integrity = digest;
  storage_reference = telegram (negsuc 1001234567889) (pos (index + 10)) (text "tg_file");
}

abbrev sample : List ChunkManifest → ManifestV1
sample chunks = record {
  manifest_version = ManifestVersion.v1;
  manifest_id = text "manifest-001";
  logical_file = record {
    file_id = text "file-sample-01";
    file_name = text "document.pdf";
    relative_path = text "documents/document.pdf";
    original_size = 100;
    created_at = none;
    modified_at = none;
    mime_type = none;
  };
  encryption = none;
  compression = record { algorithm = CompressionAlgorithm.none };
  integrity = digest;
  chunks = chunks;
}

abbrev good : ManifestV1
good = sample (chunk (text "chunk-000") 0 ∷ chunk (text "chunk-001") 1 ∷ [])

validate_manifest_iff_example : (validate_manifest good ≡ ok tt) ↔ IsValid good
validate_manifest_iff_example = validate_manifest_iff good

good_passes : validate_manifest good ≡ ok tt
unfolding validate_manifest validate_file validate_integrity validate_chunk validate_reference
    check_chunks validate_safe_relative_path check_components components body segments trim
    trim_start byte_len find_bad contains text_eq
good_passes = refl

-- Two chunks of one identifier, and chunks out of order.
repeated :
    validate_manifest (sample (chunk (text "chunk-000") 0 ∷ chunk (text "chunk-000") 1 ∷ []))
    ≡ err (duplicate_chunk_id (text "chunk-000"))
unfolding validate_manifest validate_file validate_integrity validate_chunk validate_reference
    check_chunks validate_safe_relative_path check_components components body segments trim
    trim_start byte_len find_bad contains text_eq
repeated = refl

disordered :
    validate_manifest (sample (chunk (text "chunk-000") 1 ∷ chunk (text "chunk-001") 0 ∷ []))
    ≡ err (chunk_ordering 0 0 1)
unfolding validate_manifest validate_file validate_integrity validate_chunk validate_reference
    check_chunks validate_safe_relative_path check_components components body segments trim
    trim_start byte_len find_bad contains text_eq
disordered = refl
