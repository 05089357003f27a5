-- ===== src/Backup/Tests.antt =====
-- Changes of concrete files: one of each kind.
use mathlib.Core.List.{Memᴰ}
use televault.Prelude.{
  All, ◌≢◌, ℕ, ◌≡◌, refl, ◌≢◌, true, false, none, some, List, [], ◌∷◌, ◌++◌, map, All, Text, text,
  text_eq, compare_text,
}
use televault.Prelude.Keyed.{lookup, insert, contains, add}
use televault.Prelude.Sorting.{sort_by, insert_by}
use televault.Backup.ChangeDetector.{
  ScannedFile, FileChange, Previous, index_by_path, is_same, deletion, deletions, seen,
  scanned_changes, detect_changes, has_mutations, new, modified, unchanged, deleted,
}
use televault.Backup.ChangeDetector.Classes.{IsRight, detect_changes-IsRight}
use televault.Backup.ChangeDetector.Order.{About, Ascends, detect_changes_lem}

abbrev file : Text → ℕ → Text → ScannedFile
file relative_path size_bytes modified_at = record {
  relative_path = relative_path;
  absolute_path = text "/home/" ++ relative_path;
  file_name = relative_path;
  size_bytes = size_bytes;
  modified_at_epoch_ms = 0;
  modified_at = modified_at;
  is_accessible = true;
}

abbrev record_of : Text → ℕ → Text → Previous
record_of relative_path size modified_at = (
  record {
    file_id = text "file-" ++ relative_path;
    profile_id = none;
    file_name = relative_path;
    relative_path = relative_path;
    original_size = size;
    mime_type = none;
    status = text "active";
    logical_file_hash = none;
    created_at = modified_at;
    modified_at = some modified_at;
    created_timestamp = modified_at;
    updated_timestamp = modified_at;
  },
  record {
    version_id = text "version-1";
    file_id = text "file-" ++ relative_path;
    snapshot_id = text "snapshot-1";
    manifest_id = text "manifest-1";
    status = text "active";
    created_at = modified_at;
  },
)

abbrev files : List ScannedFile
files =
    file (text "c") 30 (text "t2")
    ∷ file (text "a") 10 (text "t1")
    ∷ file (text "b") 20 (text "t1")
    ∷ []

abbrev records : List Previous
records =
    record_of (text "a") 10 (text "t1")
    ∷ record_of (text "b") 25 (text "t1")
    ∷ record_of (text "d") 5 (text "t1")
    ∷ []

-- A digest that is the same for every path.
abbrev hex_digest : Text → Text
hex_digest path = text "00112233445566778899aabbccddeeff"

abbrev changes : List FileChange
changes = detect_changes hex_digest files records

kinds : map (λ c. c.kind) changes ≡ unchanged ∷ modified ∷ new ∷ deleted ∷ []
unfolding detect_changes sort_by insert_by scanned_changes index_by_path lookup insert text_eq
    deletions seen add contains is_same compare_text
kinds = refl

detect_changes-IsRight_example : All (IsRight hex_digest files records) changes
detect_changes-IsRight_example = detect_changes-IsRight hex_digest files records

detect_changes_lem_example :
    ((s : ScannedFile) → Memᴰ s files → (c : FileChange) × Memᴰ c changes × About s c)
    × ((p : Previous)
        → Memᴰ p records
        → All (λ s. s.relative_path ≢ p.0.relative_path) files
        → Memᴰ (deletion p) changes)
    × Ascends changes
detect_changes_lem_example = detect_changes_lem hex_digest files records

abbrev nothing_new : List FileChange
nothing_new =
    detect_changes hex_digest (file (text "a") 10 (text "t1") ∷ [])
      (record_of (text "a") 10 (text "t1") ∷ [])

nothing_mutated : has_mutations nothing_new ≡ false
unfolding has_mutations detect_changes sort_by insert_by scanned_changes index_by_path lookup insert
    text_eq deletions seen add contains is_same compare_text
nothing_mutated = refl
