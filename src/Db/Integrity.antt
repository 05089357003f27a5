-- ===== src/Db/Integrity.antt =====
-- Referential integrity of the catalogue: what the foreign keys of crates/televault-db/migrations ask.
pub mod Inserts
pub mod Histories
pub mod Updates
pub mod Saves
pub mod Deletes
pub mod FileDeletes
pub mod Operations
use televault.Backup.ChangeDetector.{FileRecord, VersionRecord}
use televault.Retention.Policy.{RetentionPolicyRecord}
use televault.Db.Table.{any}
use televault.Db.Catalog.{
  ManifestRecord, ChunkRecord, SnapshotRow, ScheduleRecord, ScheduleHistoryRecord,
  RetentionHistoryRecord, RepairHistoryRecord, Catalog,
}
use televault.Db.Profiles.{is_profile}
use televault.Db.Files.{is_file, is_manifest, is_chunk}
use televault.Db.Snapshots.{is_snapshot}
use televault.Db.Schedules.{is_schedule}
use televault.Db.Table.Laws.{All-map}
use televault.Prelude.{◌≡◌, Bool, true, Option, none, some, All, Text}

-- The rows that another row names.
abbrev pub has_profile : Catalog → Text → Bool
has_profile db id = any (is_profile id) db.profiles

abbrev pub has_file : Catalog → Text → Bool
has_file db id = any (is_file id) db.files

abbrev pub has_manifest : Catalog → Text → Bool
has_manifest db id = any (is_manifest id) db.manifests

abbrev pub has_chunk : Catalog → Text → Bool
has_chunk db id = any (is_chunk id) db.chunks

abbrev pub has_snapshot : Catalog → Text → Bool
has_snapshot db id = any (is_snapshot id) db.snapshots

abbrev pub has_schedule : Catalog → Text → Bool
has_schedule db id = any (is_schedule id) db.schedules

-- A column that may be NULL names a row, or none.
abbrev pub has_or_null : (Text → Bool) → Option Text → Bool
has_or_null has none = true
has_or_null has (some id) = has id

abbrev pub FileLinks : Catalog → FileRecord → Type 0
FileLinks db f = has_or_null (has_profile db) f.profile_id ≡ true

abbrev pub ManifestLinks : Catalog → ManifestRecord → Type 0
ManifestLinks db m = has_file db m.file_id ≡ true

abbrev pub ChunkLinks : Catalog → ChunkRecord → Type 0
ChunkLinks db c = (has_file db c.file_id ≡ true) × (has_manifest db c.manifest_id ≡ true)

abbrev pub SnapshotLinks : Catalog → SnapshotRow → Type 0
SnapshotLinks db s = has_profile db s.profile_id ≡ true

abbrev pub VersionLinks : Catalog → VersionRecord → Type 0
VersionLinks db v =
    (has_file db v.file_id ≡ true)
    × (has_snapshot db v.snapshot_id ≡ true)
    × (has_manifest db v.manifest_id ≡ true)

abbrev pub ScheduleLinks : Catalog → ScheduleRecord → Type 0
ScheduleLinks db s = has_profile db s.profile_id ≡ true

abbrev pub EntryLinks : Catalog → ScheduleHistoryRecord → Type 0
EntryLinks db h = has_schedule db h.schedule_id ≡ true

abbrev pub PolicyLinks : Catalog → RetentionPolicyRecord → Type 0
PolicyLinks db p = has_profile db p.profile_id ≡ true

abbrev pub PruningLinks : Catalog → RetentionHistoryRecord → Type 0
PruningLinks db h = has_profile db h.profile_id ≡ true

abbrev pub RepairLinks : Catalog → RepairHistoryRecord → Type 0
RepairLinks db h =
    (has_profile db h.profile_id ≡ true)
    × (has_or_null (has_snapshot db) h.snapshot_id ≡ true)
    × (has_file db h.file_id ≡ true)
    × (has_manifest db h.manifest_id ≡ true)
    × (has_chunk db h.chunk_id ≡ true)

-- Every row of the second catalogue names rows of the first.
abbrev pub Links : Catalog → Catalog → Type 0
Links db rows =
    All (FileLinks db) rows.files
    × All (ManifestLinks db) rows.manifests
    × All (ChunkLinks db) rows.chunks
    × All (SnapshotLinks db) rows.snapshots
    × All (VersionLinks db) rows.versions
    × All (ScheduleLinks db) rows.schedules
    × All (EntryLinks db) rows.schedule_history
    × All (PolicyLinks db) rows.retention_policies
    × All (PruningLinks db) rows.retention_history
    × All (RepairLinks db) rows.repair_history

-- Referential integrity.
abbrev pub Intact : Catalog → Type 0
Intact db = Links db db

-- Every row of the first catalogue is found in the second, in the tables that others name.
abbrev pub Keeps : Catalog → Catalog → Type 0
Keeps a b =
    ((k : Text) → has_profile a k ≡ true → has_profile b k ≡ true)
    × ((k : Text) → has_file a k ≡ true → has_file b k ≡ true)
    × ((k : Text) → has_manifest a k ≡ true → has_manifest b k ≡ true)
    × ((k : Text) → has_chunk a k ≡ true → has_chunk b k ≡ true)
    × ((k : Text) → has_snapshot a k ≡ true → has_snapshot b k ≡ true)
    × ((k : Text) → has_schedule a k ≡ true → has_schedule b k ≡ true)

or_null-map :
    (f g : Text → Bool) (o : Option Text)
    → ((k : Text) → f k ≡ true → g k ≡ true)
    → has_or_null f o ≡ true
    → has_or_null g o ≡ true
or_null-map f g none h e = e
or_null-map f g (some k) h e = h k e

pub Links-Keeps : (a b rows : Catalog) → Keeps a b → Links a rows → Links b rows
Links-Keeps a b rows k l = (
  All-map (FileLinks a) (FileLinks b) rows.files
      (λ f e. or_null-map (has_profile a) (has_profile b) f.profile_id k.0 e) l.0,
  All-map (ManifestLinks a) (ManifestLinks b) rows.manifests (λ m e. k.1 m.file_id e) l.1,
  All-map (ChunkLinks a) (ChunkLinks b) rows.chunks
      (λ c e. (k.1 c.file_id e.0, k.2 c.manifest_id e.1)) l.2,
  All-map (SnapshotLinks a) (SnapshotLinks b) rows.snapshots (λ s e. k.0 s.profile_id e) l.3,
  All-map (VersionLinks a) (VersionLinks b) rows.versions
      (λ v e. (k.1 v.file_id e.0, k.4 v.snapshot_id e.1, k.2 v.manifest_id e.2)) l.4,
  All-map (ScheduleLinks a) (ScheduleLinks b) rows.schedules (λ s e. k.0 s.profile_id e) l.5,
  All-map (EntryLinks a) (EntryLinks b) rows.schedule_history (λ h e. k.5 h.schedule_id e) l.6,
  All-map (PolicyLinks a) (PolicyLinks b) rows.retention_policies (λ p e. k.0 p.profile_id e) l.7,
  All-map (PruningLinks a) (PruningLinks b) rows.retention_history (λ h e. k.0 h.profile_id e) l.8,
  All-map (RepairLinks a) (RepairLinks b) rows.repair_history
      (λ h e. (
        k.0 h.profile_id e.0,
        or_null-map (has_snapshot a) (has_snapshot b) h.snapshot_id k.4 e.1,
        k.1 h.file_id e.2,
        k.2 h.manifest_id e.3,
        k.3 h.chunk_id e.4,
      ))
      l.9,
)

-- A catalogue that keeps the rows, and whose rows name rows of the one before.
pub Intact-grown : (a b : Catalog) → Keeps a b → Links a b → Intact b
Intact-grown a b k l = Links-Keeps a b b k l
