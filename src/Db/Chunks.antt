-- ===== src/Db/Chunks.antt =====
-- crates/televault-db/src/db.rs: the statements on chunks, and the repair of one.
use televault.Db.Catalog.{sql, unique_failed, foreign_key_failed}
use televault.Db.Catalog.{
  DbError, ManifestRecord, ChunkRecord, SnapshotRow, RepairHistoryRecord, Catalog, Query, ◌>>=◌,
  ◌>>◌, return, given, reads, writes, requires, check_affected, query_rows, query_row, read_id, sql,
  unique_failed, foreign_key_failed,
}
use televault.Prelude.Sorting.{sort_by}
use televault.Db.Table.{select, delete_where, update_where, count, any, first, append_row}
use televault.Db.Profiles.{is_profile}
use televault.Db.Files.{is_file, is_manifest, is_chunk, of_manifest}
use televault.Prelude.{
  ℕ, Ordering, Bool, true, not, ◌&&◌, Option, none, some, List, [], ◌∷◌, ◌==◌, Text, text, text_eq,
  Result, ok, err, compare,
}

-- The index within the file.
abbrev same_index : ChunkRecord → ChunkRecord → Bool
same_index chunk c = text_eq c.file_id chunk.file_id && c.chunk_index == chunk.chunk_index

-- `create_chunk`
unfoldable pub create_chunk : ChunkRecord → Query (Unit {0})
create_chunk chunk = do
  requires (λ (db : Catalog). not (any (is_chunk chunk.chunk_id) db.chunks))
      (sql (unique_failed (text "chunks.chunk_id")))
  requires (λ (db : Catalog). not (any (same_index chunk) db.chunks))
      (sql (unique_failed (text "chunks.file_id, chunks.chunk_index")))
  requires
      (λ (db : Catalog).
        any (is_file chunk.file_id) db.files && any (is_manifest chunk.manifest_id) db.manifests)
      (sql foreign_key_failed)
  writes (λ (db : Catalog). record db { chunks = append_row chunk db.chunks })

-- `create_chunks`, in a transaction.
unfoldable pub create_chunks : List ChunkRecord → Query (Unit {0})
create_chunks [] = return tt
create_chunks (chunk ∷ chunks) = create_chunk chunk >> create_chunks chunks

abbrev checked_chunk :
    ChunkRecord → Result DbError Text → Result DbError Text → Result DbError ChunkRecord
checked_chunk c (err e) f = err e
checked_chunk c (ok id) (err e) = err e
checked_chunk c (ok id) (ok f) = ok (record c { chunk_id = id; file_id = f })

-- `map_chunk_row`
unfoldable pub map_chunk_row : ChunkRecord → Result DbError ChunkRecord
map_chunk_row c =
    checked_chunk c (read_id (text "Chunk") c.chunk_id) (read_id (text "File") c.file_id)

-- `get_chunk`
unfoldable pub get_chunk : Text → Query (Option ChunkRecord)
get_chunk id = query_row map_chunk_row (λ (db : Catalog). first (select (is_chunk id) db.chunks))

abbrev pub by_index : ChunkRecord → ChunkRecord → Ordering
by_index a b = compare a.chunk_index b.chunk_index

-- `list_chunks_by_file`
unfoldable pub list_chunks_by_file : Text → Query (List ChunkRecord)
list_chunks_by_file id = query_rows map_chunk_row (λ (db : Catalog).
    sort_by by_index (select (λ (c : ChunkRecord). text_eq c.file_id id) db.chunks))

-- `list_chunks_by_manifest`
unfoldable pub list_chunks_by_manifest : Text → Query (List ChunkRecord)
list_chunks_by_manifest id =
    query_rows map_chunk_row
      (λ (db : Catalog). sort_by by_index (select (of_manifest id) db.chunks))

-- `find_chunks_by_storage_reference`
unfoldable pub find_chunks_by_storage_reference : Text → Query (List ChunkRecord)
find_chunks_by_storage_reference storage_reference = query_rows map_chunk_row (λ (db : Catalog).
    select (λ (c : ChunkRecord). text_eq c.storage_reference storage_reference) db.chunks)

-- `update_chunk_status`
unfoldable pub update_chunk_status : Text → Text → Query (Unit {0})
update_chunk_status id status = do
  affected ← reads (λ (db : Catalog). count (is_chunk id) db.chunks)
  writes (λ (db : Catalog). record db {
    chunks =
        update_where (is_chunk id) (λ (c : ChunkRecord). record c { status = status }) db.chunks;
  })
  check_affected (text "Chunk") id affected

-- `count_chunks_for_file`
unfoldable pub count_chunks_for_file : Text → Query ℕ
count_chunks_for_file id =
    reads (λ (db : Catalog). count (λ (c : ChunkRecord). text_eq c.file_id id) db.chunks)

-- `delete_chunks_by_file`, with the history of the repairs of the chunks.
unfoldable pub delete_chunks_by_file : Text → Query ℕ
delete_chunks_by_file id = do
  affected ← reads (λ (db : Catalog). count (λ (c : ChunkRecord). text_eq c.file_id id) db.chunks)
  writes (λ (db : Catalog). record db {
    chunks = delete_where (λ (c : ChunkRecord). text_eq c.file_id id) db.chunks;
    repair_history =
        delete_where
          (λ (h : RepairHistoryRecord).
            any (λ (c : ChunkRecord). text_eq c.file_id id && text_eq c.chunk_id h.chunk_id)
              db.chunks)
          db.repair_history;
  })
  return affected

abbrev pub snapshot_exists : Option Text → Catalog → Bool
snapshot_exists none db = true
snapshot_exists (some id) db = any (λ (s : SnapshotRow). text_eq s.snapshot_id id) db.snapshots

-- `record_repair_history`
unfoldable pub record_repair_history : RepairHistoryRecord → Query (Unit {0})
record_repair_history h = do
  requires
      (λ (db : Catalog).
        not (any (λ (r : RepairHistoryRecord). text_eq r.repair_id h.repair_id) db.repair_history))
      (sql (unique_failed (text "repair_history.repair_id")))
  requires
      (λ (db : Catalog).
        any (is_profile h.profile_id) db.profiles
        && snapshot_exists h.snapshot_id db
        && any (is_file h.file_id) db.files
        && any (is_manifest h.manifest_id) db.manifests
        && any (is_chunk h.chunk_id) db.chunks)
      (sql foreign_key_failed)
  writes (λ (db : Catalog). record db { repair_history = append_row h db.repair_history })

-- `atomic_apply_chunk_repair`, in a transaction. The text of the manifest is serde's.
unfoldable pub atomic_apply_chunk_repair :
    (chunk_id new_reference new_hash : Text) (new_stored_size : ℕ) (updated_at manifest_id : Text)
    → Result DbError Text
    → RepairHistoryRecord
    → Query (Unit {0})
atomic_apply_chunk_repair chunk_id new_reference new_hash new_stored_size updated_at manifest_id
      serialized history =
    do
      affected ← reads (λ (db : Catalog). count (is_chunk chunk_id) db.chunks)
      writes (λ (db : Catalog). record db {
        chunks =
            update_where (is_chunk chunk_id)
              (λ (c : ChunkRecord). record c {
                storage_reference = new_reference;
                integrity_hash = new_hash;
                stored_size = new_stored_size;
                updated_at = updated_at;
              })
              db.chunks;
      })
      check_affected (text "Chunk") chunk_id affected
      json ← given serialized
      m_affected ← reads (λ (db : Catalog). count (is_manifest manifest_id) db.manifests)
      writes (λ (db : Catalog). record db {
        manifests =
            update_where (is_manifest manifest_id)
              (λ (m : ManifestRecord). record m {
                serialized_manifest = json;
                updated_at = updated_at;
              })
              db.manifests;
      })
      check_affected (text "Manifest") manifest_id m_affected
      record_repair_history history
