-- ===== src/Db/Integrity/Operations.antt =====
-- Any sequence of the statements that change the catalogue, from the empty one.
use televault.Backup.ChangeDetector.{FileRecord, VersionRecord}
use televault.Retention.Policy.{RetentionPolicyRecord}
use televault.Core.Models.{BackupStatus}
use televault.Db.Catalog.{
  DbError, ProfileRecord, ManifestRecord, ChunkRecord, SnapshotRecord, ScheduleRecord,
  ScheduleHistoryRecord, RetentionHistoryRecord, RepairHistoryRecord, Catalog, with_transaction,
}
use televault.Db.Profiles.{create_profile, update_profile, set_profile_enabled, delete_profile}
use televault.Db.Files.{
  create_file, update_file, delete_manifest, delete_file, create_manifest, save_manifest,
}
use televault.Db.Chunks.{
  create_chunk, create_chunks, update_chunk_status, delete_chunks_by_file, record_repair_history,
  atomic_apply_chunk_repair,
}
use televault.Db.Snapshots.{
  create_snapshot, update_snapshot_status_and_metadata, create_version, delete_snapshot,
  record_retention_history, prune_snapshots, reconcile_snapshots,
}
use televault.Db.Schedules.{
  create_schedule, update_schedule, update_schedule_status, delete_schedule,
  record_schedule_history,
}
use televault.Db.Retention.{save_retention_policy, delete_retention_policy}
use televault.Db.Catalog.Laws.{with_transaction-After}
use televault.Db.Integrity.{Intact}
use televault.Db.Integrity.Inserts.{
  create_profile-Intact, create_file-Intact, create_manifest-Intact, create_chunk-Intact,
  create_version-Intact, create_schedule-Intact,
}
use televault.Db.Integrity.Histories.{
  record_schedule_history-Intact, record_retention_history-Intact, record_repair_history-Intact,
}
use televault.Db.Integrity.Saves.{
  update_profile-Intact, set_profile_enabled-Intact, update_file-Intact, save_manifest-Intact,
  update_chunk_status-Intact, update_snapshot_status_and_metadata-Intact,
  reconcile_snapshots-Intact, save_retention_policy-Intact, update_schedule-Intact,
  update_schedule_status-Intact, create_snapshot-Intact, create_chunks-Intact,
}
use televault.Db.Integrity.Deletes.{
  delete_retention_policy-Intact, delete_schedule-Intact, delete_snapshot-Intact,
  prune_snapshots-Intact, delete_profile-Intact,
}
use televault.Db.Integrity.FileDeletes.{
  delete_chunks_by_file-Intact, delete_manifest-Intact, delete_file-Intact,
  atomic_apply_chunk_repair-Intact,
}
use televault.Prelude.{ℕ, Bool, Option, List, [], ◌∷◌, Text, Result}

-- The statements of `Database` that change its tables, each with what it is called with.
pub data Statement : Type 0 where
  creates_profile : ProfileRecord → Statement
  updates_profile : ProfileRecord → Statement
  enables_profile : Text → Bool → Statement
  deletes_profile : Text → Statement
  creates_file : FileRecord → Statement
  updates_file : FileRecord → Statement
  deletes_file : Text → Statement
  creates_manifest : ManifestRecord → Statement
  saves_manifest : ManifestRecord → Statement
  deletes_manifest : Text → Statement
  creates_chunk : ChunkRecord → Statement
  creates_chunks : List ChunkRecord → Statement
  updates_chunk : Text → Text → Statement
  deletes_chunks : Text → Statement
  records_repair : RepairHistoryRecord → Statement
  creates_snapshot : SnapshotRecord → Statement
  updates_snapshot : Text → BackupStatus → Option Text → Statement
  creates_version : VersionRecord → Statement
  deletes_snapshot : Text → Statement
  prunes_snapshots : List Text → Option RetentionHistoryRecord → Statement
  reconciles : (Option Text → Option Text) → Statement
  records_pruning : RetentionHistoryRecord → Statement
  saves_policy : RetentionPolicyRecord → Statement
  deletes_policy : Text → Statement
  creates_schedule : ScheduleRecord → Statement
  updates_schedule : ScheduleRecord → Statement
  updates_schedule_status :
      Text → Text → Option Text → Option Text → Option Text → Option Text → Statement
  deletes_schedule : Text → Statement
  records_run : ScheduleHistoryRecord → Statement
  repairs_chunk :
      Text → Text → Text → ℕ → Text → Text → Result DbError Text → RepairHistoryRecord → Statement

-- What a statement leaves of the catalogue, where it succeeds and where it fails.
unfoldable pub execute : Statement → Catalog → Catalog
execute (creates_profile a) db = (with_transaction (create_profile a) db).1
execute (updates_profile a) db = (with_transaction (update_profile a) db).1
execute (enables_profile a b) db = (with_transaction (set_profile_enabled a b) db).1
execute (deletes_profile a) db = (with_transaction (delete_profile a) db).1
execute (creates_file a) db = (with_transaction (create_file a) db).1
execute (updates_file a) db = (with_transaction (update_file a) db).1
execute (deletes_file a) db = (with_transaction (delete_file a) db).1
execute (creates_manifest a) db = (with_transaction (create_manifest a) db).1
execute (saves_manifest a) db = (with_transaction (save_manifest a) db).1
execute (deletes_manifest a) db = (with_transaction (delete_manifest a) db).1
execute (creates_chunk a) db = (with_transaction (create_chunk a) db).1
execute (creates_chunks a) db = (with_transaction (create_chunks a) db).1
execute (updates_chunk a b) db = (with_transaction (update_chunk_status a b) db).1
execute (deletes_chunks a) db = (with_transaction (delete_chunks_by_file a) db).1
execute (records_repair a) db = (with_transaction (record_repair_history a) db).1
execute (creates_snapshot a) db = (with_transaction (create_snapshot a) db).1
execute (updates_snapshot a b c) db =
    (with_transaction (update_snapshot_status_and_metadata a b c) db).1
execute (creates_version a) db = (with_transaction (create_version a) db).1
execute (deletes_snapshot a) db = (with_transaction (delete_snapshot a) db).1
execute (prunes_snapshots a b) db = (with_transaction (prune_snapshots a b) db).1
execute (reconciles a) db = (with_transaction (reconcile_snapshots a) db).1
execute (records_pruning a) db = (with_transaction (record_retention_history a) db).1
execute (saves_policy a) db = (with_transaction (save_retention_policy a) db).1
execute (deletes_policy a) db = (with_transaction (delete_retention_policy a) db).1
execute (creates_schedule a) db = (with_transaction (create_schedule a) db).1
execute (updates_schedule a) db = (with_transaction (update_schedule a) db).1
execute (updates_schedule_status a b c d e f) db =
    (with_transaction (update_schedule_status a b c d e f) db).1
execute (deletes_schedule a) db = (with_transaction (delete_schedule a) db).1
execute (records_run a) db = (with_transaction (record_schedule_history a) db).1
execute (repairs_chunk a b c d e f g h) db =
    (with_transaction (atomic_apply_chunk_repair a b c d e f g h) db).1

unfoldable pub execute_all : List Statement → Catalog → Catalog
execute_all [] db = db
execute_all (s ∷ statements) db = execute_all statements (execute s db)

-- A database after its migrations.
abbrev pub new_catalog : Catalog
new_catalog = record {
  profiles = [];
  files = [];
  manifests = [];
  chunks = [];
  snapshots = [];
  versions = [];
  schedules = [];
  schedule_history = [];
  retention_policies = [];
  retention_history = [];
  repair_history = [];
}

execute-Intact : (s : Statement) (db : Catalog) → Intact db → Intact (execute s db)
unfolding execute
execute-Intact (creates_profile a) db i =
    with_transaction-After Intact (create_profile a) db i (create_profile-Intact a db i)
execute-Intact (updates_profile a) db i =
    with_transaction-After Intact (update_profile a) db i (update_profile-Intact a db i)
execute-Intact (enables_profile a b) db i =
    with_transaction-After Intact (set_profile_enabled a b) db i
      (set_profile_enabled-Intact a b db i)
execute-Intact (deletes_profile a) db i =
    with_transaction-After Intact (delete_profile a) db i (delete_profile-Intact a db i)
execute-Intact (creates_file a) db i =
    with_transaction-After Intact (create_file a) db i (create_file-Intact a db i)
execute-Intact (updates_file a) db i =
    with_transaction-After Intact (update_file a) db i (update_file-Intact a db i)
execute-Intact (deletes_file a) db i =
    with_transaction-After Intact (delete_file a) db i (delete_file-Intact a db i)
execute-Intact (creates_manifest a) db i =
    with_transaction-After Intact (create_manifest a) db i (create_manifest-Intact a db i)
execute-Intact (saves_manifest a) db i =
    with_transaction-After Intact (save_manifest a) db i (save_manifest-Intact a db i)
execute-Intact (deletes_manifest a) db i =
    with_transaction-After Intact (delete_manifest a) db i (delete_manifest-Intact a db i)
execute-Intact (creates_chunk a) db i =
    with_transaction-After Intact (create_chunk a) db i (create_chunk-Intact a db i)
execute-Intact (creates_chunks a) db i =
    with_transaction-After Intact (create_chunks a) db i (create_chunks-Intact a db i)
execute-Intact (updates_chunk a b) db i =
    with_transaction-After Intact (update_chunk_status a b) db i
      (update_chunk_status-Intact a b db i)
execute-Intact (deletes_chunks a) db i =
    with_transaction-After Intact (delete_chunks_by_file a) db i
      (delete_chunks_by_file-Intact a db i)
execute-Intact (records_repair a) db i =
    with_transaction-After Intact (record_repair_history a) db i
      (record_repair_history-Intact a db i)
execute-Intact (creates_snapshot a) db i =
    with_transaction-After Intact (create_snapshot a) db i (create_snapshot-Intact a db i)
execute-Intact (updates_snapshot a b c) db i =
    with_transaction-After Intact (update_snapshot_status_and_metadata a b c) db i
      (update_snapshot_status_and_metadata-Intact a b c db i)
execute-Intact (creates_version a) db i =
    with_transaction-After Intact (create_version a) db i (create_version-Intact a db i)
execute-Intact (deletes_snapshot a) db i =
    with_transaction-After Intact (delete_snapshot a) db i (delete_snapshot-Intact a db i)
execute-Intact (prunes_snapshots a b) db i =
    with_transaction-After Intact (prune_snapshots a b) db i (prune_snapshots-Intact a b db i)
execute-Intact (reconciles a) db i =
    with_transaction-After Intact (reconcile_snapshots a) db i (reconcile_snapshots-Intact a db i)
execute-Intact (records_pruning a) db i =
    with_transaction-After Intact (record_retention_history a) db i
      (record_retention_history-Intact a db i)
execute-Intact (saves_policy a) db i =
    with_transaction-After Intact (save_retention_policy a) db i
      (save_retention_policy-Intact a db i)
execute-Intact (deletes_policy a) db i =
    with_transaction-After Intact (delete_retention_policy a) db i
      (delete_retention_policy-Intact a db i)
execute-Intact (creates_schedule a) db i =
    with_transaction-After Intact (create_schedule a) db i (create_schedule-Intact a db i)
execute-Intact (updates_schedule a) db i =
    with_transaction-After Intact (update_schedule a) db i (update_schedule-Intact a db i)
execute-Intact (updates_schedule_status a b c d e f) db i =
    with_transaction-After Intact (update_schedule_status a b c d e f) db i
      (update_schedule_status-Intact a b c d e f db i)
execute-Intact (deletes_schedule a) db i =
    with_transaction-After Intact (delete_schedule a) db i (delete_schedule-Intact a db i)
execute-Intact (records_run a) db i =
    with_transaction-After Intact (record_schedule_history a) db i
      (record_schedule_history-Intact a db i)
execute-Intact (repairs_chunk a b c d e f g h) db i =
    with_transaction-After Intact (atomic_apply_chunk_repair a b c d e f g h) db i
      (atomic_apply_chunk_repair-Intact a b c d e f g h db i)

execute_all-Intact :
    (statements : List Statement) (db : Catalog) → Intact db → Intact (execute_all statements db)
unfolding execute_all
execute_all-Intact [] db i = i
execute_all-Intact (s ∷ statements) db i =
    execute_all-Intact statements (execute s db) (execute-Intact s db i)

-- Whatever statements are run on a new database, in any order, with or without success, every row names
-- rows that are there, as its foreign keys ask: a file its profile or none; a snapshot, a schedule, a
-- policy and an entry of the retention history their profile; an entry of the schedule history its
-- schedule; a manifest its file, a chunk its file and manifest, a version its file, snapshot and
-- manifest; a repair its profile, file, manifest and chunk, and its snapshot or none.
pub catalog-Intact : (statements : List Statement) → Intact (execute_all statements new_catalog)
catalog-Intact statements =
    execute_all-Intact statements new_catalog (tt, tt, tt, tt, tt, tt, tt, tt, tt, tt)
