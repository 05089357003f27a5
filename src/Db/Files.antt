-- ===== src/Db/Files.antt =====
-- crates/televault-db/src/db.rs: the statements on logical files, manifests and chunks. Sizes are
-- written as `i64` and read back as `u64`, which gives them back. JSON is a parameter.
use televault.Db.Catalog.{sql, unique_failed, foreign_key_failed}
use televault.Db.Catalog.{
  DbError, ManifestRecord, ChunkRecord, RepairHistoryRecord, Catalog, Query, ◌>>=◌, ◌>>◌, reads,
  writes, requires, check_affected, query_rows, query_row, read_id, read_optional_id, sql,
  unique_failed, foreign_key_failed,
}
use televault.Prelude.Sorting.{sort_by}
use televault.Backup.ChangeDetector.{FileRecord, VersionRecord}
use televault.Db.Table.{
  select, delete_where, update_where, count, any, first, append_row, is_text, ascending,
}
use televault.Db.Profiles.{is_profile}
use televault.Prelude.{
  ℕ, Bool, true, false, not, ◌&&◌, ◌||◌, Option, none, some, List, ◌==◌, if◌then◌else◌, Text, text,
  text_eq, Result, ok, err,
}

abbrev pub is_file : Text → FileRecord → Bool
is_file id f = text_eq f.file_id id

abbrev pub is_manifest : Text → ManifestRecord → Bool
is_manifest id m = text_eq m.manifest_id id

abbrev pub is_chunk : Text → ChunkRecord → Bool
is_chunk id c = text_eq c.chunk_id id

-- The path within the profile: UNIQUE does not tell rows apart whose profile is NULL.
abbrev same_path : Option Text → Text → FileRecord → Bool
same_path none path f = false
same_path (some profile_id) path f = is_text f.profile_id profile_id && text_eq f.relative_path path

abbrev pub profile_exists : Option Text → Catalog → Bool
profile_exists none db = true
profile_exists (some id) db = any (is_profile id) db.profiles

-- `create_file`
unfoldable pub create_file : FileRecord → Query (Unit {0})
create_file file = do
  requires (λ (db : Catalog). not (any (is_file file.file_id) db.files))
      (sql (unique_failed (text "files.file_id")))
  requires (λ (db : Catalog). not (any (same_path file.profile_id file.relative_path) db.files))
      (sql (unique_failed (text "files.profile_id, files.relative_path")))
  requires (profile_exists file.profile_id) (sql foreign_key_failed)
  writes (λ (db : Catalog). record db { files = append_row file db.files })

abbrev checked_file :
    FileRecord → Result DbError Text → Result DbError (Option Text) → Result DbError FileRecord
checked_file f (err e) p = err e
checked_file f (ok id) (err e) = err e
checked_file f (ok id) (ok p) = ok (record f { file_id = id; profile_id = p })

-- `map_file_row`
unfoldable pub map_file_row : FileRecord → Result DbError FileRecord
map_file_row f =
    checked_file f (read_id (text "File") f.file_id)
      (read_optional_id (text "Profile") f.profile_id)

-- `list_files_by_profile`
unfoldable pub list_files_by_profile : Option Text → Query (List FileRecord)
list_files_by_profile none =
    query_rows map_file_row
      (λ (db : Catalog). sort_by (ascending (λ (f : FileRecord). f.file_name)) db.files)
list_files_by_profile (some id) = query_rows map_file_row (λ (db : Catalog).
    sort_by (ascending (λ (f : FileRecord). f.relative_path))
      (select (λ (f : FileRecord). is_text f.profile_id id) db.files))

-- `get_file_by_relative_path`
unfoldable pub get_file_by_relative_path : Text → Text → Query (Option FileRecord)
get_file_by_relative_path profile_id relative_path =
    query_row map_file_row
      (λ (db : Catalog). first (select (same_path (some profile_id) relative_path) db.files))

unfoldable pub set_file : FileRecord → FileRecord → FileRecord
set_file file f = record f {
  file_name = file.file_name;
  relative_path = file.relative_path;
  original_size = file.original_size;
  mime_type = file.mime_type;
  status = file.status;
  logical_file_hash = file.logical_file_hash;
  modified_at = file.modified_at;
  updated_timestamp = file.updated_timestamp;
}

-- Another file of the profile of this one has the path.
abbrev path_taken : Text → Text → List FileRecord → Bool
path_taken id path files =
    any
      (λ (f : FileRecord).
        is_file id f
        && any (λ (g : FileRecord). not (is_file id g) && same_path f.profile_id path g) files)
      files

-- `update_file`
unfoldable pub update_file : FileRecord → Query (Unit {0})
update_file file = do
  affected ← reads (λ (db : Catalog). count (is_file file.file_id) db.files)
  requires (λ (db : Catalog). not (path_taken file.file_id file.relative_path db.files))
      (sql (unique_failed (text "files.profile_id, files.relative_path")))
  writes (λ (db : Catalog). record db {
    files = update_where (is_file file.file_id) (set_file file) db.files;
  })
  check_affected (text "File") file.file_id affected

-- What goes with a deleted manifest: its chunks and the history of its repairs.
abbrev pub of_manifest : Text → ChunkRecord → Bool
of_manifest id c = text_eq c.manifest_id id

unfoldable pub without_manifest : Text → Catalog → Catalog
without_manifest id db =
    let repaired = λ (h : RepairHistoryRecord).
      text_eq h.manifest_id id
      || any (λ (c : ChunkRecord). of_manifest id c && text_eq c.chunk_id h.chunk_id) db.chunks in
    record db {
      manifests = delete_where (is_manifest id) db.manifests;
      chunks = delete_where (of_manifest id) db.chunks;
      repair_history = delete_where repaired db.repair_history;
    }

-- `delete_manifest`. Versions keep their manifest from being deleted.
unfoldable pub delete_manifest : Text → Query (Unit {0})
delete_manifest id = do
  affected ← reads (λ (db : Catalog). count (is_manifest id) db.manifests)
  requires
      (λ (db : Catalog).
        affected == 0 || not (any (λ (v : VersionRecord). text_eq v.manifest_id id) db.versions))
      (sql foreign_key_failed)
  writes (λ (db : Catalog). if affected == 0 then db else without_manifest id db)
  check_affected (text "Manifest") id affected

-- What goes with a deleted file: its manifests, the chunks of both, and the history of repairs of any of
-- these.
abbrev pub of_file_manifest : Text → Catalog → Text → Bool
of_file_manifest id db manifest_id =
    any (λ (m : ManifestRecord). text_eq m.file_id id && is_manifest manifest_id m) db.manifests

abbrev pub chunk_goes : Text → Catalog → ChunkRecord → Bool
chunk_goes id db c = text_eq c.file_id id || of_file_manifest id db c.manifest_id

abbrev pub repair_goes : Text → Catalog → RepairHistoryRecord → Bool
repair_goes id db h =
    text_eq h.file_id id
    || of_file_manifest id db h.manifest_id
    || any (λ (c : ChunkRecord). chunk_goes id db c && text_eq c.chunk_id h.chunk_id) db.chunks

unfoldable pub without_file : Text → Catalog → Catalog
without_file id db = record db {
  files = delete_where (is_file id) db.files;
  manifests = delete_where (λ (m : ManifestRecord). text_eq m.file_id id) db.manifests;
  chunks = delete_where (chunk_goes id db) db.chunks;
  repair_history = delete_where (repair_goes id db) db.repair_history;
}

-- A version of the file, or of one of its manifests.
abbrev pub version_needs_file : Text → Catalog → VersionRecord → Bool
version_needs_file id db v = text_eq v.file_id id || of_file_manifest id db v.manifest_id

-- `delete_file`. Versions keep their file from being deleted.
unfoldable pub delete_file : Text → Query (Unit {0})
delete_file id = do
  affected ← reads (λ (db : Catalog). count (is_file id) db.files)
  requires (λ (db : Catalog). affected == 0 || not (any (version_needs_file id db) db.versions))
      (sql foreign_key_failed)
  writes (λ (db : Catalog). if affected == 0 then db else without_file id db)
  check_affected (text "File") id affected

-- `count_files`
unfoldable pub count_files : Query ℕ
count_files = reads (λ (db : Catalog). count (λ (f : FileRecord). true) db.files)

-- `create_manifest`
unfoldable pub create_manifest : ManifestRecord → Query (Unit {0})
create_manifest row = do
  requires (λ (db : Catalog). not (any (is_manifest row.manifest_id) db.manifests))
      (sql (unique_failed (text "manifests.manifest_id")))
  requires (λ (db : Catalog). any (is_file row.file_id) db.files) (sql foreign_key_failed)
  writes (λ (db : Catalog). record db { manifests = append_row row db.manifests })

-- `save_manifest`, with the row that is made of the manifest: a row that stands under its identifier
-- keeps its file and its version.
unfoldable pub save_manifest : ManifestRecord → Query (Unit {0})
save_manifest row = do
  there ← reads (λ (db : Catalog). any (is_manifest row.manifest_id) db.manifests)
  requires (λ (db : Catalog). there || any (is_file row.file_id) db.files) (sql foreign_key_failed)
  writes (λ (db : Catalog). record db {
    manifests =
        if there
        then update_where (is_manifest row.manifest_id)
            (λ (m : ManifestRecord). record m {
              serialized_manifest = row.serialized_manifest;
              updated_at = row.updated_at;
            })
            db.manifests
        else append_row row db.manifests;
  })
