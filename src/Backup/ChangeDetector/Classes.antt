-- ===== src/Backup/ChangeDetector/Classes.antt =====
-- What each detected change says of the files (crates/televault-backup/src/change_detector.rs).
use televault.Prelude.{
  All-append, ◌≡◌, refl, sym, ap, ◌∙◌, ◌≢◌, ◌↔◌, ◌⊎◌, inl, inr, Bool, true, false, Option, none,
  some, List, [], ◌∷◌, arith, if◌then◌else◌, Bool-cases, Option-cases, All, Text, text_eq,
  text_eq_iff, text_eq→eq,
}
use televault.Prelude.Keyed.{add, lookup, insert, lookup-insert, contains, contains-add}
use televault.Prelude.Sorting.{All-sort_by}
use mathlib.Core.List.{Memᴰ}
use televault.Backup.ChangeDetector.{
  new, modified, unchanged, deleted, ScannedFile, FileRecord, ChangeKind, FileChange, Previous,
  index_by_path, mtime_matches, is_same, change_of_previous, deletion, by_path, addition,
  change_of_scanned, scanned_changes, deletions, seen, detect_changes, new, modified, unchanged,
  deleted,
}

abbrev AreElsewhere : Text → List Previous → Type 0
AreElsewhere k records = All (λ p. p.0.relative_path ≢ k) records

-- A record found for a path is one of the records, and none is found only if there is none.
abbrev Found : Text → List Previous → List (Text × Previous) → Option Previous → Type 0
Found k records m none = AreElsewhere k records × (lookup k m ≡ none)
Found k records m (some p) = (Memᴰ p records × (p.0.relative_path ≡ k)) ⊎ (lookup k m ≡ some p)

Found-cons :
    (k : Text) (r : Previous) (records : List Previous) (m : List (Text × Previous))
    (o : Option Previous)
    → Found k records (insert r.0.relative_path r m) o
    → Found k (r ∷ records) m o
Found-cons k r records m none f =
    ground (arith, lookup-insert r.0.relative_path k r m, text_eq_iff r.0.relative_path k)
Found-cons k r records m (some p) (inl (mem, e)) = inl (Memᴰ.tail mem, e)
Found-cons k r records m (some p) (inr e) =
    let e' = sym (lookup-insert r.0.relative_path k r m) ∙ e in
    elim (Bool-cases (text_eq r.0.relative_path k)) [
      | inl h ↦
          let same : r ≡ p = ground (arith, h, e') in
          inl (
            Memᴰ.head (sym same),
            ap (λ (q : Previous). q.0.relative_path) (sym same) ∙ text_eq→eq r.0.relative_path k h,
          )
      | inr h ↦ inr (ground (arith, h, e'))
    ]

index_by_path-Found :
    (k : Text) (records : List Previous) (m : List (Text × Previous))
    → Found k records m (lookup k (index_by_path records m))
unfolding index_by_path
index_by_path-Found k [] m = elim (Option-cases (lookup k m)) [
  | inl e ↦ rw e (tt, e)
  | inr (p, e) ↦ rw e (inr e)
]
index_by_path-Found k (r ∷ records) m =
    Found-cons k r records m (lookup k (index_by_path records (insert r.0.relative_path r m)))
      (index_by_path-Found k records (insert r.0.relative_path r m))

-- What a change of each kind says, with the files that it is about.
abbrev pub Fits :
    (Text → Text) → List ScannedFile → List Previous → FileChange → ChangeKind → Type 0
Fits hex_digest files records c new =
    (s : ScannedFile) × Memᴰ s files
    × (c ≡ addition hex_digest s)
    × AreElsewhere s.relative_path records
Fits hex_digest files records c unchanged =
    (s : ScannedFile) × (p : Previous) × Memᴰ s files
    × Memᴰ p records
    × (c ≡ change_of_previous s p)
    × (p.0.relative_path ≡ s.relative_path)
    × (s.size_bytes ≡ p.0.original_size)
    × (p.0.modified_at ≡ some s.modified_at)
Fits hex_digest files records c modified =
    (s : ScannedFile) × (p : Previous) × Memᴰ s files
    × Memᴰ p records
    × (c ≡ change_of_previous s p)
    × (p.0.relative_path ≡ s.relative_path)
    × ((s.size_bytes ≢ p.0.original_size) ⊎ (p.0.modified_at ≢ some s.modified_at))
Fits hex_digest files records c deleted =
    (p : Previous) × Memᴰ p records
    × (c ≡ deletion p)
    × All (λ s. s.relative_path ≢ p.0.relative_path) files

mtime_iff : (o : Option Text) (t : Text) → (mtime_matches o t ≡ true) ↔ (o ≡ some t)
mtime_iff none t = ground arith
mtime_iff (some u) t = ground (arith, text_eq_iff u t)

is_same_iff :
    (f : FileRecord) (s : ScannedFile)
    → (is_same f s ≡ true)
      ↔ ((s.size_bytes ≡ f.original_size) × (f.modified_at ≡ some s.modified_at))
unfolding is_same
is_same_iff f s = ground (arith, mtime_iff f.modified_at s.modified_at)

module _ (hex_digest : Text → Text) (files : List ScannedFile) (records : List Previous) where
  abbrev pub IsRight : FileChange → Type 0
  IsRight c = Fits hex_digest files records c c.kind

  previous-Fits :
      (s : ScannedFile) (p : Previous) (same : Bool)
      → is_same p.0 s ≡ same
      → Memᴰ s files
      → Memᴰ p records
      → p.0.relative_path ≡ s.relative_path
      → Fits hex_digest files records
          (change_of_previous s p)
          (if same then unchanged else modified)
  previous-Fits s p true h ms mp e =
      let (sizes, times) = (is_same_iff p.0 s).0 h in (s, p, ms, mp, refl, e, sizes, times)
  previous-Fits s p false h ms mp e = (s, p, ms, mp, refl, e, ground (arith, is_same_iff p.0 s, h))

  scanned-IsRight :
      (s : ScannedFile) (o : Option Previous)
      → Memᴰ s files
      → Found s.relative_path records [] o
      → IsRight (change_of_scanned hex_digest s o)
  unfolding lookup
  scanned-IsRight s none ms f = (s, ms, refl, f.0)
  scanned-IsRight s (some p) ms (inl (mp, e)) = previous-Fits s p (is_same p.0 s) refl ms mp e
  scanned-IsRight s (some p) ms (inr e) = absurd (ground (arith, e))

  scanned_changes-IsRight :
      (ss : List ScannedFile)
      → ((s : ScannedFile) → Memᴰ s ss → Memᴰ s files)
      → All IsRight (scanned_changes hex_digest (index_by_path records []) ss)
  unfolding scanned_changes
  scanned_changes-IsRight [] f = tt
  scanned_changes-IsRight (s ∷ rest) f = (
    scanned-IsRight s (lookup s.relative_path (index_by_path records [])) (f s (Memᴰ.head refl))
        (index_by_path-Found s.relative_path records []),
    scanned_changes-IsRight rest (λ t m. f t (Memᴰ.tail m)),
  )

  -- A path that was not seen is that of no scanned file.
  unseen_files :
      (k : Text) (ss : List ScannedFile) (paths : List Text)
      → contains (seen ss paths) k ≡ false
      → All (λ s. s.relative_path ≢ k) ss × (contains paths k ≡ false)
  unfolding seen
  unseen_files k [] paths h = (tt, h)
  unseen_files k (s ∷ rest) paths h =
      let (others, fresh) = unseen_files k rest (add s.relative_path paths) h in
      ground
        (arith, others, fresh, contains-add paths s.relative_path k, text_eq_iff s.relative_path k)

  deletions-IsRight :
      (rs : List Previous)
      → ((r : Previous) → Memᴰ r rs → Memᴰ r records)
      → All IsRight (deletions (seen files []) rs)
  unfolding deletions
  deletions-IsRight [] f = tt
  deletions-IsRight (r ∷ rest) f =
      let later = deletions-IsRight rest (λ q m. f q (Memᴰ.tail m)) in
      elim (Bool-cases (contains (seen files []) r.0.relative_path)) [
        | inl h ↦ rw h later
        | inr h ↦
            rw h (
              (r, f r (Memᴰ.head refl), refl, (unseen_files r.0.relative_path files [] h).0),
              later,
            )
      ]

  -- Each detected change is right: a new file was scanned and is in no record; an unchanged or
  -- modified one was scanned and has a record under its path, with the same size and time or not;
  -- and a deleted one has a record and was not scanned.
  pub detect_changes-IsRight : All IsRight (detect_changes hex_digest files records)
  unfolding detect_changes
  detect_changes-IsRight = All-sort_by by_path IsRight _ (
      All-append IsRight _ _ (scanned_changes-IsRight files (λ s m. m))
        (deletions-IsRight records (λ r m. m)))
