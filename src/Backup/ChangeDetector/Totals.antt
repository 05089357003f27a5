-- ===== src/Backup/ChangeDetector/Totals.antt =====
-- The bytes of the detected changes (crates/televault-backup/src/change_detector.rs).
use televault.Prelude.{
  ℕ, ◌+◌, ◌^◌, ◌<◌, ◌≡◌, refl, Bool, false, Option, none, some, List, [], ◌∷◌, ◌++◌, arith,
  if◌then◌else◌, Text,
}
use televault.Prelude.Keyed.{lookup}
use televault.Prelude.Sorting.{insert_by, sort_by}
use televault.Backup.ChangeDetector.{
  ScannedFile, ChangeKind, FileChange, Previous, index_by_path, by_path, deletions, seen,
  change_of_scanned, scanned_changes, detect_changes, needs_transfer, is_unchanged, scanned_size,
  sum_where, total_transfer_bytes, total_reused_bytes, has_mutations,
}

abbrev pub total_size : List ScannedFile → ℕ
total_size [] = 0
total_size (s ∷ rest) = s.size_bytes + total_size rest

-- The sum without the bound of 64 bits.
abbrev plain_sum : (ChangeKind → Bool) → List FileChange → ℕ
plain_sum test [] = 0
plain_sum test (c ∷ cs) = (if test c.kind then scanned_size c.scanned else 0) + plain_sum test cs

module _ (test : ChangeKind → Bool) where
  sum_where_plain :
      (cs : List FileChange) → plain_sum test cs < 2 ^ 64 → sum_where test cs ≡ plain_sum test cs
  unfolding sum_where
  sum_where_plain [] h = refl
  sum_where_plain (c ∷ cs) h = ground (arith, sum_where_plain cs)

  plain_sum-insert_by :
      (c : FileChange) (cs : List FileChange)
      → plain_sum test (insert_by by_path c cs) ≡ plain_sum test (c ∷ cs)
  unfolding insert_by
  plain_sum-insert_by c [] = refl
  plain_sum-insert_by c (d ∷ cs) = ground (arith, plain_sum-insert_by c cs)

  plain_sum-sort_by :
      (cs : List FileChange) → plain_sum test (sort_by by_path cs) ≡ plain_sum test cs
  unfolding sort_by
  plain_sum-sort_by [] = refl
  plain_sum-sort_by (c ∷ cs) =
      omega (arith, plain_sum-insert_by c (sort_by by_path cs), plain_sum-sort_by cs)

  plain_sum-append :
      (cs ds : List FileChange) → plain_sum test (cs ++ ds) ≡ plain_sum test cs + plain_sum test ds
  plain_sum-append [] ds = omega arith
  plain_sum-append (c ∷ cs) ds = omega (arith, plain_sum-append cs ds)

  plain_sum-deletions :
      (paths : List Text) (records : List Previous) → plain_sum test (deletions paths records) ≡ 0
  unfolding deletions
  plain_sum-deletions paths [] = refl
  plain_sum-deletions paths (r ∷ records) = ground (arith, plain_sum-deletions paths records)

module _ (hex_digest : Text → Text) where
  one_change :
      (s : ScannedFile) (o : Option Previous)
      → plain_sum needs_transfer (change_of_scanned hex_digest s o ∷ [])
          + plain_sum is_unchanged (change_of_scanned hex_digest s o ∷ [])
        ≡ s.size_bytes
  one_change s none = omega arith
  one_change s (some p) = ground arith

  plain_sum-scanned_changes :
      (prev : List (Text × Previous)) (files : List ScannedFile)
      → plain_sum needs_transfer (scanned_changes hex_digest prev files)
          + plain_sum is_unchanged (scanned_changes hex_digest prev files)
        ≡ total_size files
  unfolding scanned_changes
  plain_sum-scanned_changes prev [] = refl
  plain_sum-scanned_changes prev (s ∷ rest) =
      omega (arith, one_change s (lookup s.relative_path prev), plain_sum-scanned_changes prev rest)

  plain_sum-detect_changes :
      (test : ChangeKind → Bool) (files : List ScannedFile) (records : List Previous)
      → plain_sum test (detect_changes hex_digest files records)
        ≡ plain_sum test (scanned_changes hex_digest (index_by_path records []) files)
  unfolding detect_changes
  plain_sum-detect_changes test files records =
      let found = scanned_changes hex_digest (index_by_path records []) files in
      let gone = deletions (seen files []) records in
      omega (
        arith,
        plain_sum-sort_by test (found ++ gone),
        plain_sum-append test found gone,
        plain_sum-deletions test (seen files []) records,
      )

  -- Where the sizes of the scanned files add up to less than 2^64 bytes, the bytes to transfer and
  -- the bytes reused are together those of all the scanned files.
  pub detect_changes_totals :
      (files : List ScannedFile) (records : List Previous)
      → total_size files < 2 ^ 64
      → total_transfer_bytes (detect_changes hex_digest files records)
          + total_reused_bytes (detect_changes hex_digest files records)
        ≡ total_size files
  unfolding total_transfer_bytes total_reused_bytes
  detect_changes_totals files records h =
      let cs = detect_changes hex_digest files records in
      let moved = plain_sum-detect_changes needs_transfer files records in
      let kept = plain_sum-detect_changes is_unchanged files records in
      let both = plain_sum-scanned_changes (index_by_path records []) files in
      let sent = sum_where_plain needs_transfer cs (omega (arith, moved, both)) in
      let reused = sum_where_plain is_unchanged cs (omega (arith, kept, both)) in
      omega (arith, sent, reused, moved, kept, both)

-- Without mutations, there is nothing to transfer.
pub no_mutations : (cs : List FileChange) → has_mutations cs ≡ false → total_transfer_bytes cs ≡ 0
unfolding has_mutations total_transfer_bytes sum_where
no_mutations [] h = refl
no_mutations (c ∷ cs) h = ground (arith, no_mutations cs)
