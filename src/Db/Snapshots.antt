-- ===== src/Db/Snapshots.antt =====
-- crates/televault-db/src/db.rs: the statements on snapshots and the versions of files in them. A
-- snapshot's status is a text in its row.
pub mod Pruned
pub mod Status
use televault.Db.Catalog.{sql, unique_failed, foreign_key_failed, conversion_failed}
use televault.Prelude.Sorting.{sort_by}
use televault.Backup.ChangeDetector.{VersionRecord}
use televault.Db.Table.{
  select, delete_where, update_where, count, any, first, append_row, is_text, ascending, descending,
}
use televault.Db.Catalog.{
  DbError, SnapshotRecord, SnapshotRow, RetentionHistoryRecord, RepairHistoryRecord, Catalog, Query,
  ◌>>=◌, ◌>>◌, return, reads, writes, requires, check_affected, query_rows, query_row, read_id,
}
use televault.Db.Profiles.{is_profile}
use televault.Db.Files.{is_file, is_manifest}
use televault.Core.Models.{
  BackupStatus, status_text, idle, scanning, backing_up, completed, failed, cancelled,
}
use televault.Prelude.{
  ℕ, ◌+◌, Bool, not, ◌&&◌, ◌||◌, Option, none, some, List, [], ◌∷◌, ◌++◌, if◌then◌else◌, Text, text,
  text_eq, Result, ok, err,
}

abbrev pub is_snapshot : Text → SnapshotRow → Bool
is_snapshot id s = text_eq s.snapshot_id id

abbrev pub in_snapshot : Text → VersionRecord → Bool
in_snapshot id v = text_eq v.snapshot_id id

-- `create_snapshot`
unfoldable pub create_snapshot : SnapshotRecord → Query (Unit {0})
create_snapshot snapshot = do
  requires (λ (db : Catalog). not (any (is_snapshot snapshot.snapshot_id) db.snapshots))
      (sql (unique_failed (text "snapshots.snapshot_id")))
  requires (λ (db : Catalog). any (is_profile snapshot.profile_id) db.profiles)
      (sql foreign_key_failed)
  writes (λ (db : Catalog). record db {
    snapshots =
        append_row
          (record {
            snapshot_id = snapshot.snapshot_id;
            profile_id = snapshot.profile_id;
            status = status_text snapshot.status;
            metadata = snapshot.metadata;
            created_at = snapshot.created_at;
          })
          db.snapshots;
  })

unfoldable pub read_status : Text → Result DbError BackupStatus
unfolding text_eq
read_status s =
    if text_eq s (text "idle")
    then ok idle
    else if text_eq s (text "scanning")
    then ok scanning
    else if text_eq s (text "backing_up") || text_eq s (text "backingup")
    then ok backing_up
    else if text_eq s (text "completed")
    then ok completed
    else if text_eq s (text "failed")
    then ok failed
    else if text_eq s (text "cancelled")
    then ok cancelled
    else err (sql (conversion_failed (text "unknown BackupStatus: '" ++ (s ++ text "'"))))

abbrev pub checked_snapshot :
    SnapshotRow
    → Result DbError Text
    → Result DbError Text
    → Result DbError BackupStatus
    → Result DbError SnapshotRecord
checked_snapshot s (err e) p status = err e
checked_snapshot s (ok id) (err e) status = err e
checked_snapshot s (ok id) (ok p) (err e) = err e
checked_snapshot s (ok id) (ok p) (ok status) = ok (record {
  snapshot_id = id;
  profile_id = p;
  status = status;
  metadata = s.metadata;
  created_at = s.created_at;
})

-- `map_snapshot_row`
unfoldable pub map_snapshot_row : SnapshotRow → Result DbError SnapshotRecord
map_snapshot_row s =
    checked_snapshot s (read_id (text "Snapshot") s.snapshot_id)
      (read_id (text "Profile") s.profile_id) (read_status s.status)

-- `get_snapshot`
unfoldable pub get_snapshot : Text → Query (Option SnapshotRecord)
get_snapshot id =
    query_row map_snapshot_row (λ (db : Catalog). first (select (is_snapshot id) db.snapshots))

abbrev pub newest_snapshots : Text → Catalog → List SnapshotRow
newest_snapshots id db =
    sort_by (descending (λ (s : SnapshotRow). s.created_at))
      (select (λ (s : SnapshotRow). text_eq s.profile_id id) db.snapshots)

-- `list_snapshots_by_profile`
unfoldable pub list_snapshots_by_profile : Text → Query (List SnapshotRecord)
list_snapshots_by_profile id = query_rows map_snapshot_row (newest_snapshots id)

-- `get_latest_snapshot`
unfoldable pub get_latest_snapshot : Text → Query (Option SnapshotRecord)
get_latest_snapshot id =
    query_row map_snapshot_row (λ (db : Catalog). first (newest_snapshots id db))

-- `update_snapshot_status_and_metadata`
unfoldable pub update_snapshot_status_and_metadata :
    Text → BackupStatus → Option Text → Query (Unit {0})
update_snapshot_status_and_metadata id status metadata = do
  affected ← reads (λ (db : Catalog). count (is_snapshot id) db.snapshots)
  writes (λ (db : Catalog). record db {
    snapshots =
        update_where (is_snapshot id)
          (λ (s : SnapshotRow). record s { status = status_text status; metadata = metadata })
          db.snapshots;
  })
  check_affected (text "Snapshot") id affected

-- `update_snapshot_status`
unfoldable pub update_snapshot_status : Text → BackupStatus → Query (Unit {0})
update_snapshot_status id status = update_snapshot_status_and_metadata id status none

-- `create_version`
unfoldable pub create_version : VersionRecord → Query (Unit {0})
create_version version = do
  requires
      (λ (db : Catalog).
        not (any (λ (v : VersionRecord). text_eq v.version_id version.version_id) db.versions))
      (sql (unique_failed (text "versions.version_id")))
  requires
      (λ (db : Catalog).
        any (is_file version.file_id) db.files
        && any (is_snapshot version.snapshot_id) db.snapshots
        && any (is_manifest version.manifest_id) db.manifests)
      (sql foreign_key_failed)
  writes (λ (db : Catalog). record db { versions = append_row version db.versions })

abbrev checked_version :
    VersionRecord
    → Result DbError Text
    → Result DbError Text
    → Result DbError Text
    → Result DbError VersionRecord
checked_version v (err e) f s = err e
checked_version v (ok id) (err e) s = err e
checked_version v (ok id) (ok f) (err e) = err e
checked_version v (ok id) (ok f) (ok s) =
    ok (record v { version_id = id; file_id = f; snapshot_id = s })

-- `map_version_row`
unfoldable pub map_version_row : VersionRecord → Result DbError VersionRecord
map_version_row v =
    checked_version v (read_id (text "Version") v.version_id) (read_id (text "File") v.file_id)
      (read_id (text "Snapshot") v.snapshot_id)

-- `get_version`
unfoldable pub get_version : Text → Query (Option VersionRecord)
get_version id =
    query_row map_version_row (λ (db : Catalog).
      first (select (λ (v : VersionRecord). text_eq v.version_id id) db.versions))

-- `list_versions_by_snapshot`
unfoldable pub list_versions_by_snapshot : Text → Query (List VersionRecord)
list_versions_by_snapshot id = query_rows map_version_row (λ (db : Catalog).
    sort_by (ascending (λ (v : VersionRecord). v.created_at)) (select (in_snapshot id) db.versions))

-- `list_versions_by_file`
unfoldable pub list_versions_by_file : Text → Query (List VersionRecord)
list_versions_by_file id = query_rows map_version_row (λ (db : Catalog).
    sort_by (descending (λ (v : VersionRecord). v.created_at))
      (select (λ (v : VersionRecord). text_eq v.file_id id) db.versions))

-- `count_versions_by_snapshot`
unfoldable pub count_versions_by_snapshot : Text → Query ℕ
count_versions_by_snapshot id = reads (λ (db : Catalog). count (in_snapshot id) db.versions)

-- `ON DELETE SET NULL` of the history of repairs.
abbrev forget_snapshot : RepairHistoryRecord → RepairHistoryRecord
forget_snapshot h = record h { snapshot_id = none }

-- `delete_snapshot`: its versions, and the snapshot.
unfoldable pub delete_snapshot : Text → Query ℕ
delete_snapshot id = do
  versions_deleted ← reads (λ (db : Catalog). count (in_snapshot id) db.versions)
  writes (λ (db : Catalog). record db { versions = delete_where (in_snapshot id) db.versions })
  snaps_deleted ← reads (λ (db : Catalog). count (is_snapshot id) db.snapshots)
  writes (λ (db : Catalog). record db {
    snapshots = delete_where (is_snapshot id) db.snapshots;
    repair_history =
        update_where (λ (h : RepairHistoryRecord). is_text h.snapshot_id id) forget_snapshot
          db.repair_history;
  })
  check_affected (text "Snapshot") id snaps_deleted
  return versions_deleted

-- `record_retention_history`
unfoldable pub record_retention_history : RetentionHistoryRecord → Query (Unit {0})
record_retention_history h = do
  requires
      (λ (db : Catalog). not (
        any (λ (r : RetentionHistoryRecord). text_eq r.history_id h.history_id)
          db.retention_history))
      (sql (unique_failed (text "retention_history.history_id")))
  requires (λ (db : Catalog). any (is_profile h.profile_id) db.profiles) (sql foreign_key_failed)
  writes (λ (db : Catalog). record db { retention_history = append_row h db.retention_history })

unfoldable pub prune_each : List Text → Query ℕ
prune_each [] = return 0
prune_each (id ∷ ids) = do
  deleted ← delete_snapshot id
  others ← prune_each ids
  return (deleted + others)

abbrev pub record_if_some : Option RetentionHistoryRecord → Query (Unit {0})
record_if_some none = return tt
record_if_some (some h) = record_retention_history h

-- `prune_snapshots_transactional`: the statements of the transaction.
unfoldable pub prune_snapshots : List Text → Option RetentionHistoryRecord → Query ℕ
prune_snapshots ids history = do
  total_versions_deleted ← prune_each ids
  record_if_some history
  return total_versions_deleted

-- The first half of `reconcile_interrupted_operations`, on the snapshots. `note` is what `json_insert`
-- makes of the metadata.
abbrev pub is_interrupted : SnapshotRow → Bool
is_interrupted s = text_eq s.status (text "scanning") || text_eq s.status (text "backing_up")

unfoldable pub reconcile_snapshots : (Option Text → Option Text) → Query ℕ
reconcile_snapshots note = do
  reconciled ← reads (λ (db : Catalog). count is_interrupted db.snapshots)
  writes (λ (db : Catalog). record db {
    snapshots =
        update_where is_interrupted
          (λ (s : SnapshotRow). record s { status = text "failed"; metadata = note s.metadata })
          db.snapshots;
  })
  return reconciled
