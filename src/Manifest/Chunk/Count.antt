-- ===== src/Manifest/Chunk/Count.antt =====
-- The number of chunks that a file is split into (crates/televault-manifest/src/chunk.rs).
use televault.Prelude.{ℕ, ◌+◌, ◌-◌, ◌*◌, ◌^◌, ◌≤◌, ◌<◌, ◌≡◌, arith, ◌⊎◌}
use televault.Manifest.Chunk.{
  chunk_threshold_bytes, target_chunk_size_bytes, calculate_expected_chunk_count,
}

-- For a file whose number of chunks a `u32` can hold: below 2 GiB it is one chunk, and from there on
-- the chunks of the target size are enough for the file, and one fewer would not be.
pub calculate_expected_chunk_count_bounds :
    (n : ℕ)
    → n ≤ (2 ^ 32 - 1) * target_chunk_size_bytes
    → ((n < chunk_threshold_bytes) × (calculate_expected_chunk_count n ≡ 1))
      ⊎ ((chunk_threshold_bytes ≤ n)
          × (n ≤ calculate_expected_chunk_count n * target_chunk_size_bytes)
          × (calculate_expected_chunk_count n * target_chunk_size_bytes
              < n + target_chunk_size_bytes))
unfolding calculate_expected_chunk_count
calculate_expected_chunk_count_bounds n h = ground arith
