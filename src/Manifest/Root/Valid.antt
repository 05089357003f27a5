-- ===== src/Manifest/Root/Valid.antt =====
-- What the check of a manifest accepts (crates/televault-manifest/src/manifest.rs).
use televault.Prelude.{
  ◌<◌, ◌≡◌, refl, ◌≢◌, ◌↔◌, false, List, [], ◌∷◌, arith, All, Text, text_eq_iff, ok,
}
use televault.Prelude.Keyed.{contains, Distinct}
use televault.Manifest.Chunk.{ChunkManifest}
use televault.Manifest.Root.{ManifestV1, u64_limit, validate_manifest, trim}
use televault.Manifest.Root.Parts.{
  IsDigest, validate_integrity_iff, IsEncryption?, validate_encryption?_iff, IsFile,
  validate_file_iff,
}
use televault.Manifest.Root.Chunks.{
  AreInOrder, plaintext_total, chunk_ids, AreFresh, check_chunks_sound, check_chunks_complete,
}

abbrev AreUnseen : List Text → List Text → Type 0
AreUnseen seen ids = All (λ k. contains seen k ≡ false) ids

split_unseen :
    (k : Text) (seen ids : List Text)
    → AreUnseen (k ∷ seen) ids ↔ ((contains ids k ≡ false) × AreUnseen seen ids)
unfolding contains
split_unseen k seen [] = ground arith
split_unseen k seen (j ∷ ids) =
    let further = split_unseen k seen ids in
    (
      λ h. ground (arith, further, text_eq_iff k j, text_eq_iff j k),
      λ h. ground (arith, further, text_eq_iff k j, text_eq_iff j k),
    )

AreFresh-iff :
    (seen : List Text) (cs : List ChunkManifest)
    → AreFresh seen cs ↔ (Distinct (chunk_ids cs) × AreUnseen seen (chunk_ids cs))
AreFresh-iff seen [] = ground arith
AreFresh-iff seen (c ∷ cs) =
    let rest = AreFresh-iff (c.chunk_id ∷ seen) cs in
    let parts = split_unseen c.chunk_id seen (chunk_ids cs) in
    (λ h. ground (arith, rest, parts), λ h. ground (arith, rest, parts))

unseen : (ids : List Text) → AreUnseen [] ids
unfolding contains
unseen [] = tt
unseen (k ∷ ids) = (refl, unseen ids)

-- A manifest that names itself, with a valid file, digest and encryption, and at least one chunk:
-- the chunks are valid, numbered in their order, of distinct identifiers, and their sizes add up to
-- the size of the file, which a `u64` holds.
pub record IsValid (m : ManifestV1) : Type 0 where
  pub named : trim m.manifest_id ≢ []
  pub file : IsFile m.logical_file
  pub digest : IsDigest m.integrity
  pub encrypted : IsEncryption? m.encryption
  pub some_chunk : m.chunks ≢ []
  pub ordered : AreInOrder 0 m.chunks
  pub distinct : Distinct (chunk_ids m.chunks)
  pub complete : plaintext_total m.chunks ≡ m.logical_file.original_size
  pub fits : m.logical_file.original_size < u64_limit

-- The chain of checks, turned around: all that succeeded before the chunks are looked at.
validate_manifest-IsValid : (m : ManifestV1) → validate_manifest m ≡ ok tt → IsValid m
unfolding validate_manifest
validate_manifest-IsValid m e =
    let file = validate_file_iff m.logical_file in
    let digest = validate_integrity_iff m.integrity in
    let encrypted = validate_encryption?_iff m.encryption in
    let chunks = check_chunks_sound m.chunks 0 [] 0 m.logical_file.original_size (omega arith) in
    let fresh = AreFresh-iff [] m.chunks in
    record {
      named = ground arith;
      file = ground (arith, file);
      digest = ground (arith, file, digest);
      encrypted = ground (arith, file, digest, encrypted);
      some_chunk = ground arith;
      ordered = ground (arith, chunks);
      distinct = ground (arith, chunks, fresh);
      complete = ground (arith, chunks);
      fits = ground (arith, chunks);
    }

IsValid-validate_manifest : (m : ManifestV1) → IsValid m → validate_manifest m ≡ ok tt
unfolding validate_manifest
IsValid-validate_manifest m v =
    let file = validate_file_iff m.logical_file in
    let digest = validate_integrity_iff m.integrity in
    let encrypted = validate_encryption?_iff m.encryption in
    let fresh = AreFresh-iff [] m.chunks in
    let chunks =
      check_chunks_complete m.chunks 0 [] 0 v.ordered
        (fresh.1 (v.distinct, unseen (chunk_ids m.chunks))) (omega (arith, v.complete, v.fits)) in
    ground (
      arith, file, digest, encrypted, chunks, v.named, v.file, v.digest, v.encrypted, v.some_chunk,
      v.complete,
    )

-- `validate` accepts a manifest exactly if it is valid.
pub validate_manifest_iff : (m : ManifestV1) → (validate_manifest m ≡ ok tt) ↔ IsValid m
validate_manifest_iff m = (validate_manifest-IsValid m, IsValid-validate_manifest m)
