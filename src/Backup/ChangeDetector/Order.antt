-- ===== src/Backup/ChangeDetector/Order.antt =====
-- Which changes are detected, and their order (crates/televault-backup/src/change_detector.rs).
use televault.Prelude.Sorting.{IsSorted, sort_by-IsSorted, Mem-sort_by}
use televault.Prelude.Keyed.{lookup, contains, add, contains-add}
use televault.Backup.ChangeDetector.{
  ScannedFile, FileChange, Previous, index_by_path, deletion, by_path, deletions, seen,
  change_of_scanned, scanned_changes, detect_changes,
}
use mathlib.Core.List.{Memᴰ}
use televault.Prelude.{
  compare_text-flip, Ordering, ◌≡◌, refl, sym, ap, subst, ◌≢◌, inl, inr, false, Option, none, some,
  List, [], ◌∷◌, ◌++◌, arith, Bool-cases, All, Text, text_eq_iff, compare_text,
}

Mem_left : {A : Type 0} (x : A) (xs ys : List A) → Memᴰ x xs → Memᴰ x (xs ++ ys)
Mem_left x [] ys m = elim m [ ]
Mem_left x (z ∷ xs) ys (Memᴰ.head e) = Memᴰ.head e
Mem_left x (z ∷ xs) ys (Memᴰ.tail m) = Memᴰ.tail (Mem_left x xs ys m)

Mem_right : {A : Type 0} (x : A) (xs ys : List A) → Memᴰ x ys → Memᴰ x (xs ++ ys)
Mem_right x [] ys m = m
Mem_right x (z ∷ xs) ys m = Memᴰ.tail (Mem_right x xs ys m)

-- A change that is about a scanned file.
abbrev pub About : ScannedFile → FileChange → Type 0
About s c = (c.scanned ≡ some s) × (c.relative_path ≡ s.relative_path)

-- The paths never go back.
abbrev pub Ascends : List FileChange → Type 0
Ascends [] = Unit
Ascends (a ∷ []) = Unit
Ascends (a ∷ b ∷ bs) =
    (compare_text a.relative_path b.relative_path ≢ Ordering.gt) × Ascends (b ∷ bs)

sorted-Ascends : (cs : List FileChange) → IsSorted by_path cs → Ascends cs
sorted-Ascends [] h = tt
sorted-Ascends (a ∷ []) h = tt
sorted-Ascends (a ∷ b ∷ bs) (h, t) = (h, sorted-Ascends (b ∷ bs) t)

module _ (hex_digest : Text → Text) where
  scanned-About :
      (s : ScannedFile) (o : Option Previous) → About s (change_of_scanned hex_digest s o)
  scanned-About s none = (refl, refl)
  scanned-About s (some p) = (refl, refl)

  scanned_changes-About :
      (prev : List (Text × Previous)) (ss : List ScannedFile) (s : ScannedFile)
      → Memᴰ s ss
      → (c : FileChange) × Memᴰ c (scanned_changes hex_digest prev ss) × About s c
  unfolding scanned_changes
  scanned_changes-About prev [] s m = elim m [ ]
  scanned_changes-About prev (t ∷ ss) s (Memᴰ.head e) =
      let first = change_of_scanned hex_digest t (lookup t.relative_path prev) in
      (
        first,
        Memᴰ.head refl,
        subst (λ x. About x first) (sym e) (scanned-About t (lookup t.relative_path prev)),
      )
  scanned_changes-About prev (t ∷ ss) s (Memᴰ.tail m) =
      let (c, mem, about) = scanned_changes-About prev ss s m in (c, Memᴰ.tail mem, about)

unseen-contains :
    (k : Text) (ss : List ScannedFile) (paths : List Text)
    → contains paths k ≡ false
    → All (λ s. s.relative_path ≢ k) ss
    → contains (seen ss paths) k ≡ false
unfolding seen
unseen-contains k [] paths h all = h
unseen-contains k (s ∷ ss) paths h (other, all) =
    unseen-contains k ss (add s.relative_path paths)
      (ground (arith, contains-add paths s.relative_path k, text_eq_iff s.relative_path k)) all

deletions-deletion :
    (paths : List Text) (records : List Previous) (p : Previous)
    → Memᴰ p records
    → contains paths p.0.relative_path ≡ false
    → Memᴰ (deletion p) (deletions paths records)
unfolding deletions
deletions-deletion paths [] p m h = elim m [ ]
deletions-deletion paths (r ∷ records) p (Memᴰ.head e) h =
    let there = subst (λ (x : Previous). contains paths x.0.relative_path ≡ false) e h in
    rw there (Memᴰ.head (ap deletion e))
deletions-deletion paths (r ∷ records) p (Memᴰ.tail m) h =
    let rest = deletions-deletion paths records p m h in
    elim (Bool-cases (contains paths r.0.relative_path)) [
      | inl k ↦ rw k rest
      | inr k ↦ rw k (Memᴰ.tail rest)
    ]

-- Nothing is missed: each scanned file has a change with its path that holds the file, each record
-- whose path no scanned file has has its deletion among the changes, and the changes stand by ascending
-- path.
pub detect_changes_lem :
    (hex_digest : Text → Text) (files : List ScannedFile) (records : List Previous)
    → let changes = detect_changes hex_digest files records in
      ((s : ScannedFile) → Memᴰ s files → (c : FileChange) × Memᴰ c changes × About s c)
      × ((p : Previous)
          → Memᴰ p records
          → All (λ s. s.relative_path ≢ p.0.relative_path) files
          → Memᴰ (deletion p) changes)
      × Ascends changes
unfolding detect_changes contains
detect_changes_lem hex_digest files records =
    let found = scanned_changes hex_digest (index_by_path records []) files in
    let gone = deletions (seen files []) records in
    (
      λ s m.
          let (c, mem, about) =
            scanned_changes-About hex_digest (index_by_path records []) files s m in
          (c, Mem-sort_by by_path (found ++ gone) (Mem_left c found gone mem), about),
      λ p m all. Mem-sort_by by_path (found ++ gone) (
          Mem_right (deletion p) found gone (
            deletions-deletion (seen files []) records p m
              (unseen-contains p.0.relative_path files [] refl all))),
      sorted-Ascends _
          (sort_by-IsSorted by_path (λ a b. compare_text-flip a.relative_path b.relative_path) _),
    )
