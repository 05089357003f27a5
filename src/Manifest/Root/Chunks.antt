-- ===== src/Manifest/Root/Chunks.antt =====
-- What the loop over the chunks accepts (crates/televault-manifest/src/manifest.rs).
use televault.Prelude.{ℕ, suc, ◌+◌, ◌%◌, ◌^◌, ◌<◌, ◌≡◌, false, List, [], ◌∷◌, arith, Text, ok}
use televault.Prelude.Keyed.{contains}
use televault.Manifest.Chunk.{ChunkManifest}
use televault.Manifest.Root.{check_chunks, u64_limit}
use televault.Manifest.Root.Parts.{IsChunk, validate_chunk_iff}

-- Every chunk is valid, and its index is its place in the list, kept in 32 bits.
abbrev pub AreInOrder : ℕ → List ChunkManifest → Type 0
AreInOrder idx [] = Unit
AreInOrder idx (c ∷ cs) = IsChunk c × (c.index ≡ idx % 2 ^ 32) × AreInOrder (suc idx) cs

abbrev pub plaintext_total : List ChunkManifest → ℕ
plaintext_total [] = 0
plaintext_total (c ∷ cs) = c.plaintext_size + plaintext_total cs

abbrev pub chunk_ids : List ChunkManifest → List Text
chunk_ids [] = []
chunk_ids (c ∷ cs) = c.chunk_id ∷ chunk_ids cs

-- No identifier stands among those seen before it.
abbrev pub AreFresh : List Text → List ChunkManifest → Type 0
AreFresh seen [] = Unit
AreFresh seen (c ∷ cs) = (contains seen c.chunk_id ≡ false) × AreFresh (c.chunk_id ∷ seen) cs

pub check_chunks_sound :
    (cs : List ChunkManifest) (idx : ℕ) (seen : List Text) (sum total : ℕ)
    → sum < u64_limit
    → check_chunks idx seen sum cs ≡ ok total
    → AreInOrder idx cs
      × AreFresh seen cs
      × (total ≡ sum + plaintext_total cs)
      × (total < u64_limit)
unfolding check_chunks
check_chunks_sound [] idx seen sum total b h = ground arith
check_chunks_sound (c ∷ cs) idx seen sum total b h = ground (
  arith,
  validate_chunk_iff c,
  check_chunks_sound cs (suc idx) (c.chunk_id ∷ seen) (sum + c.plaintext_size) total,
)

pub check_chunks_complete :
    (cs : List ChunkManifest) (idx : ℕ) (seen : List Text) (sum : ℕ)
    → AreInOrder idx cs
    → AreFresh seen cs
    → sum + plaintext_total cs < u64_limit
    → check_chunks idx seen sum cs ≡ ok (sum + plaintext_total cs)
unfolding check_chunks
check_chunks_complete [] idx seen sum o f h = ground arith
check_chunks_complete (c ∷ cs) idx seen sum o f h = ground (
  arith,
  validate_chunk_iff c,
  check_chunks_complete cs (suc idx) (c.chunk_id ∷ seen) (sum + c.plaintext_size),
)
