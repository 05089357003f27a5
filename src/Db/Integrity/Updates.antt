-- ===== src/Db/Integrity/Updates.antt =====
-- Updating rows (crates/televault-db/src/db.rs) keeps referential integrity.
use televault.Backup.ChangeDetector.{FileRecord}
use televault.Retention.Policy.{RetentionPolicyRecord}
use televault.Db.Table.{update_where, any}
use televault.Db.Catalog.{
  ProfileRecord, ManifestRecord, ChunkRecord, SnapshotRow, ScheduleRecord, Catalog,
}
use televault.Db.Table.Laws.{any-update, All-update}
use televault.Db.Integrity.{
  FileLinks, ManifestLinks, ChunkLinks, SnapshotLinks, ScheduleLinks, PolicyLinks, Intact,
  Intact-grown,
}
use televault.Prelude.{◌≡◌, ap, ◌∙◌, Bool, true, List, Text, text_eq}

-- A change that leaves the key alone leaves the rows to be found.
kept :
    {Row : Type 0} (key : Row → Text) (q : Row → Bool) (f : Row → Row) (t : List Row)
    → ((r : Row) → key (f r) ≡ key r)
    → (k : Text) → any (λ r. text_eq (key r) k) t ≡ true
    → any (λ r. text_eq (key r) k) (update_where q f t) ≡ true
kept key q f t h k e =
    any-update (λ r. text_eq (key r) k) q f t (λ r. ap (λ (j : Text). text_eq j k) (h r)) ∙ e

pub profiles-updated :
    (db : Catalog) (q : ProfileRecord → Bool) (f : ProfileRecord → ProfileRecord)
    → ((r : ProfileRecord) → (f r).profile_id ≡ r.profile_id)
    → Intact db
    → Intact (record db { profiles = update_where q f db.profiles })
profiles-updated db q f h i =
    Intact-grown db (record db { profiles = update_where q f db.profiles })
      (kept (λ r. r.profile_id) q f db.profiles h, λ k h. h, λ k h. h, λ k h. h, λ k h. h, λ k h. h)
      i

pub files-updated :
    (db : Catalog) (q : FileRecord → Bool) (f : FileRecord → FileRecord)
    → ((r : FileRecord) → (f r).file_id ≡ r.file_id)
    → ((r : FileRecord) → FileLinks db r → FileLinks db (f r))
    → Intact db
    → Intact (record db { files = update_where q f db.files })
files-updated db q f h g i =
    Intact-grown db (record db { files = update_where q f db.files })
      (λ k h. h, kept (λ r. r.file_id) q f db.files h, λ k h. h, λ k h. h, λ k h. h, λ k h. h)
      (
        All-update (FileLinks db) (FileLinks db) q f db.files (λ r l e. g r l) (λ r l e. l) i.0,
        i.1,
        i.2,
        i.3,
        i.4,
        i.5,
        i.6,
        i.7,
        i.8,
        i.9,
      )

pub manifests-updated :
    (db : Catalog) (q : ManifestRecord → Bool) (f : ManifestRecord → ManifestRecord)
    → ((r : ManifestRecord) → (f r).manifest_id ≡ r.manifest_id)
    → ((r : ManifestRecord) → ManifestLinks db r → ManifestLinks db (f r))
    → Intact db
    → Intact (record db { manifests = update_where q f db.manifests })
manifests-updated db q f h g i =
    Intact-grown db (record db { manifests = update_where q f db.manifests })
      (
        λ k h. h,
        λ k h. h,
        kept (λ r. r.manifest_id) q f db.manifests h,
        λ k h. h,
        λ k h. h,
        λ k h. h,
      )
      (
        i.0,
        All-update (ManifestLinks db) (ManifestLinks db) q f db.manifests (λ r l e. g r l)
            (λ r l e. l) i.1,
        i.2,
        i.3,
        i.4,
        i.5,
        i.6,
        i.7,
        i.8,
        i.9,
      )

pub chunks-updated :
    (db : Catalog) (q : ChunkRecord → Bool) (f : ChunkRecord → ChunkRecord)
    → ((r : ChunkRecord) → (f r).chunk_id ≡ r.chunk_id)
    → ((r : ChunkRecord) → ChunkLinks db r → ChunkLinks db (f r))
    → Intact db
    → Intact (record db { chunks = update_where q f db.chunks })
chunks-updated db q f h g i =
    Intact-grown db (record db { chunks = update_where q f db.chunks })
      (λ k h. h, λ k h. h, λ k h. h, kept (λ r. r.chunk_id) q f db.chunks h, λ k h. h, λ k h. h)
      (
        i.0,
        i.1,
        All-update (ChunkLinks db) (ChunkLinks db) q f db.chunks (λ r l e. g r l) (λ r l e. l) i.2,
        i.3,
        i.4,
        i.5,
        i.6,
        i.7,
        i.8,
        i.9,
      )

pub snapshots-updated :
    (db : Catalog) (q : SnapshotRow → Bool) (f : SnapshotRow → SnapshotRow)
    → ((r : SnapshotRow) → (f r).snapshot_id ≡ r.snapshot_id)
    → ((r : SnapshotRow) → SnapshotLinks db r → SnapshotLinks db (f r))
    → Intact db
    → Intact (record db { snapshots = update_where q f db.snapshots })
snapshots-updated db q f h g i =
    Intact-grown db (record db { snapshots = update_where q f db.snapshots })
      (
        λ k h. h,
        λ k h. h,
        λ k h. h,
        λ k h. h,
        kept (λ r. r.snapshot_id) q f db.snapshots h,
        λ k h. h,
      )
      (
        i.0,
        i.1,
        i.2,
        All-update (SnapshotLinks db) (SnapshotLinks db) q f db.snapshots (λ r l e. g r l)
            (λ r l e. l) i.3,
        i.4,
        i.5,
        i.6,
        i.7,
        i.8,
        i.9,
      )

pub schedules-updated :
    (db : Catalog) (q : ScheduleRecord → Bool) (f : ScheduleRecord → ScheduleRecord)
    → ((r : ScheduleRecord) → (f r).schedule_id ≡ r.schedule_id)
    → ((r : ScheduleRecord) → ScheduleLinks db r → ScheduleLinks db (f r))
    → Intact db
    → Intact (record db { schedules = update_where q f db.schedules })
schedules-updated db q f h g i =
    Intact-grown db (record db { schedules = update_where q f db.schedules })
      (
        λ k h. h,
        λ k h. h,
        λ k h. h,
        λ k h. h,
        λ k h. h,
        kept (λ r. r.schedule_id) q f db.schedules h,
      )
      (
        i.0,
        i.1,
        i.2,
        i.3,
        i.4,
        All-update (ScheduleLinks db) (ScheduleLinks db) q f db.schedules (λ r l e. g r l)
            (λ r l e. l) i.5,
        i.6,
        i.7,
        i.8,
        i.9,
      )

pub retention_policies-updated :
    (db : Catalog) (q : RetentionPolicyRecord → Bool)
    (f : RetentionPolicyRecord → RetentionPolicyRecord)
    → ((r : RetentionPolicyRecord) → PolicyLinks db r → PolicyLinks db (f r))
    → Intact db
    → Intact (record db { retention_policies = update_where q f db.retention_policies })
retention_policies-updated db q f g i =
    Intact-grown db (record db { retention_policies = update_where q f db.retention_policies })
      (λ k h. h, λ k h. h, λ k h. h, λ k h. h, λ k h. h, λ k h. h)
      (
        i.0,
        i.1,
        i.2,
        i.3,
        i.4,
        i.5,
        i.6,
        All-update (PolicyLinks db) (PolicyLinks db) q f db.retention_policies (λ r l e. g r l)
            (λ r l e. l) i.7,
        i.8,
        i.9,
      )
