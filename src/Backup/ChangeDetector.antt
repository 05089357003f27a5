-- ===== src/Backup/ChangeDetector.antt =====
-- crates/televault-backup/src/change_detector.rs: what has changed between the catalogue and a scan,
-- with ScannedFile of scanner.rs and the rows of crates/televault-db/src/models.rs.
pub mod Classes
pub mod Totals
pub mod Order
use televault.Core.Error.{AppError, app_error_text}
use televault.Prelude.{
  compare_text, ℕ, zero, suc, ◌+◌, ◌-◌, ◌*◌, ◌/◌, ◌%◌, ◌^◌, ◌≤◌, ◌<◌, Ordering, ◌≡◌, refl, sym, ap,
  ◌∙◌, subst, ◌≢◌, ◌↔◌, ◌⊎◌, inl, inr, Bool, true, false, not, ◌&&◌, ◌||◌, Option, none, some, List,
  [], ◌∷◌, ◌++◌, map, arith, ltb, leb, ◌==◌, if◌then◌else◌, Bool-cases, Option-cases, is_some,
  is_none, or_else, if_split, length, length-append, All, Text, text, text_eq, text_eq_iff,
  text_eq_refl, text_eq→eq, compare_text, decimal, Result, ok, err, ◌>>=◌, ◌>>◌, guard, map_err,
  >>=-eq-ok, Result-cases,
}
use televault.Prelude.Keyed.{lookup, insert, contains, add}
use televault.Prelude.Sorting.{sort_by}
use televault.Core.Validation.{validate_identifier_string}

pub record ScannedFile : Type 0 where
  pub relative_path : Text
  pub absolute_path : Text
  pub file_name : Text
  pub size_bytes : ℕ  -- u64
  pub modified_at_epoch_ms : ℕ  -- u64
  pub modified_at : Text
  pub is_accessible : Bool

pub record FileRecord : Type 0 where
  pub file_id : Text
  pub profile_id : Option Text
  pub file_name : Text
  pub relative_path : Text
  pub original_size : ℕ  -- u64
  pub mime_type : Option Text
  pub status : Text
  pub logical_file_hash : Option Text
  pub created_at : Text
  pub modified_at : Option Text
  pub created_timestamp : Text
  pub updated_timestamp : Text

pub record VersionRecord : Type 0 where
  pub version_id : Text
  pub file_id : Text
  pub snapshot_id : Text
  pub manifest_id : Text
  pub status : Text
  pub created_at : Text

pub data ChangeKind : Type 0 where
  new modified unchanged deleted : ChangeKind

pub record FileChange : Type 0 where
  pub kind : ChangeKind
  pub file_id : Text
  pub relative_path : Text
  pub scanned : Option ScannedFile
  pub previous_file : Option FileRecord
  pub previous_version : Option VersionRecord

abbrev pub Previous : Type 0
Previous = FileRecord × VersionRecord

-- The loop that fills `prev_by_path`: of two records for a path, the later one stays.
unfoldable pub index_by_path : List Previous → List (Text × Previous) → List (Text × Previous)
index_by_path [] by_path = by_path
index_by_path ((file, ver) ∷ records) by_path =
    index_by_path records (insert file.relative_path (file, ver) by_path)

abbrev pub mtime_matches : Option Text → Text → Bool
mtime_matches none modified_at = false
mtime_matches (some prev_m) modified_at = text_eq prev_m modified_at

unfoldable pub is_same : FileRecord → ScannedFile → Bool
is_same prev scanned =
    scanned.size_bytes == prev.original_size && mtime_matches prev.modified_at scanned.modified_at

abbrev pub change_of_previous : ScannedFile → Previous → FileChange
change_of_previous scanned (prev_file, prev_ver) = record {
  kind = if is_same prev_file scanned then unchanged else modified;
  file_id = prev_file.file_id;
  relative_path = scanned.relative_path;
  scanned = some scanned;
  previous_file = some prev_file;
  previous_version = some prev_ver;
}

abbrev pub deletion : Previous → FileChange
deletion (prev_file, prev_ver) = record {
  kind = deleted;
  file_id = prev_file.file_id;
  relative_path = prev_file.relative_path;
  scanned = none;
  previous_file = some prev_file;
  previous_version = some prev_ver;
}

unfoldable pub take : ℕ → Text → Text
take zero s = []
take (suc n) [] = []
take (suc n) (c ∷ s) = c ∷ take n s

abbrev or_default : Text → Result AppError (Unit {0}) → Text
or_default id (ok _) = id
or_default id (err e) = text "file-default"

-- The comparison of the final sort.
abbrev pub by_path : FileChange → FileChange → Ordering
by_path a b = compare_text a.relative_path b.relative_path

-- The second loop.
unfoldable pub deletions : List Text → List Previous → List FileChange
deletions seen_paths [] = []
deletions seen_paths (p ∷ records) =
    let rest = deletions seen_paths records in
    if not (contains seen_paths p.0.relative_path) then deletion p ∷ rest else rest

-- `seen_paths` after the first loop.
unfoldable pub seen : List ScannedFile → List Text → List Text
seen [] paths = paths
seen (s ∷ rest) paths = seen rest (add s.relative_path paths)

-- `hex_digest` is the lower-case hexadecimal SHA-256 of a text's UTF-8 bytes (the crate sha2).
module _ (hex_digest : Text → Text) where
  -- `ChangeDetector::deterministic_file_id`
  unfoldable pub deterministic_file_id : Text → Text
  deterministic_file_id relative_path =
      let id_str = text "file-" ++ take 16 (hex_digest relative_path) in
      or_default id_str (validate_identifier_string (text "File") id_str)

  abbrev pub addition : ScannedFile → FileChange
  addition scanned = record {
    kind = new;
    file_id = deterministic_file_id scanned.relative_path;
    relative_path = scanned.relative_path;
    scanned = some scanned;
    previous_file = none;
    previous_version = none;
  }

  abbrev pub change_of_scanned : ScannedFile → Option Previous → FileChange
  change_of_scanned scanned none = addition scanned
  change_of_scanned scanned (some prev) = change_of_previous scanned prev

  -- The first loop.
  unfoldable pub scanned_changes : List (Text × Previous) → List ScannedFile → List FileChange
  scanned_changes prev [] = []
  scanned_changes prev (s ∷ rest) =
      change_of_scanned s (lookup s.relative_path prev) ∷ scanned_changes prev rest

  -- `ChangeDetector::detect_changes`
  unfoldable pub detect_changes : List ScannedFile → List Previous → List FileChange
  detect_changes scanned_files previous_records = sort_by by_path (
      scanned_changes (index_by_path previous_records []) scanned_files
      ++ deletions (seen scanned_files []) previous_records)

abbrev pub needs_transfer : ChangeKind → Bool
needs_transfer new = true
needs_transfer modified = true
needs_transfer _ = false

abbrev pub is_unchanged : ChangeKind → Bool
is_unchanged unchanged = true
is_unchanged _ = false

abbrev pub scanned_size : Option ScannedFile → ℕ
scanned_size none = 0
scanned_size (some s) = s.size_bytes

-- The `.sum()` over `u64`, which keeps 64 bits.
unfoldable pub sum_where : (ChangeKind → Bool) → List FileChange → ℕ
sum_where test [] = 0
sum_where test (c ∷ cs) =
    let rest = sum_where test cs in
    if test c.kind then (scanned_size c.scanned + rest) % 2 ^ 64 else rest

-- `ChangeSet::total_transfer_bytes` and `ChangeSet::total_reused_bytes`.
unfoldable pub total_transfer_bytes : List FileChange → ℕ
total_transfer_bytes cs = sum_where needs_transfer cs

unfoldable pub total_reused_bytes : List FileChange → ℕ
total_reused_bytes cs = sum_where is_unchanged cs

-- `ChangeSet::has_mutations`
unfoldable pub has_mutations : List FileChange → Bool
has_mutations [] = false
has_mutations (c ∷ cs) = not (is_unchanged c.kind) || has_mutations cs
