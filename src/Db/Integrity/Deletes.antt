-- ===== src/Db/Integrity/Deletes.antt =====
-- Deleting rows, with what goes with them, keeps referential integrity.
use televault.Db.Integrity.Updates.{files-updated}
use televault.Db.Catalog.{
  SnapshotRow, ScheduleRecord, ScheduleHistoryRecord, RetentionHistoryRecord, RepairHistoryRecord,
  Catalog, ◌>>=◌, ◌>>◌, return,
}
use televault.Backup.ChangeDetector.{FileRecord}
use televault.Db.Profiles.{is_profile, forget_profile, without_profile, delete_profile}
use televault.Db.Integrity.Histories.{record_retention_history-Intact}
use televault.Db.Table.{delete_where, update_where, count, any, is_text}
use televault.Db.Snapshots.{
  is_snapshot, in_snapshot, delete_snapshot, prune_each, record_if_some, prune_snapshots,
}
use televault.Db.Schedules.{is_schedule, delete_schedule}
use televault.Db.Retention.{of_profile, delete_retention_policy}
use televault.Db.Table.Laws.{
  none_of, count_zero, delete_none, All-map, All-and, All-unit, All-delete, All-update,
  any-delete_others, any-delete_key,
}
use televault.Db.Catalog.Laws.{After, After-bind}
use televault.Db.Integrity.{
  has_profile, has_snapshot, has_or_null, FileLinks, SnapshotLinks, VersionLinks, ScheduleLinks,
  EntryLinks, PolicyLinks, PruningLinks, RepairLinks, Intact,
}
use televault.Prelude.{
  ◌+◌, ◌≡◌, refl, inl, inr, true, false, ◌&&◌, Option, none, some, List, [], ◌∷◌, arith, ◌==◌,
  Bool-cases, All, Text, text_eq,
}

pub delete_retention_policy-Intact :
    (id : Text) (db : Catalog) → Intact db → After Intact (delete_retention_policy id db)
unfolding delete_retention_policy
delete_retention_policy-Intact id db i = (
  i.0,
  i.1,
  i.2,
  i.3,
  i.4,
  i.5,
  i.6,
  All-delete (PolicyLinks db) (PolicyLinks db) (of_profile id) db.retention_policies (λ r l e. l)
      i.7,
  i.8,
  i.9,
)

-- Schedules.
schedules-deleted :
    (id : Text) (db : Catalog)
    → Intact db
    → Intact (record db {
      schedules = delete_where (is_schedule id) db.schedules;
      schedule_history =
          delete_where
            (λ (h : ScheduleHistoryRecord). text_eq h.schedule_id id)
            db.schedule_history;
    })
schedules-deleted id db i = (
  i.0,
  i.1,
  i.2,
  i.3,
  i.4,
  All-delete (ScheduleLinks db) (ScheduleLinks db) (is_schedule id) db.schedules (λ r l e. l) i.5,
  All-delete (EntryLinks db)
      (λ h. any (is_schedule h.schedule_id) (delete_where (is_schedule id) db.schedules) ≡ true)
      (λ h. text_eq h.schedule_id id) db.schedule_history
      (λ h l e. any-delete_key (λ s. s.schedule_id) id h.schedule_id db.schedules e l) i.6,
  i.7,
  i.8,
  i.9,
)

pub delete_schedule-Intact :
    (id : Text) (db : Catalog) → Intact db → After Intact (delete_schedule id db)
unfolding delete_schedule
delete_schedule-Intact id db i = elim (Bool-cases (count (is_schedule id) db.schedules == 0)) [
  | inl z ↦ rw z (
      rw
        (delete_none (is_schedule id) db.schedules
          ((count_zero (is_schedule id) db.schedules).0 (ground arith)))
        i)
  | inr z ↦ rw z (schedules-deleted id db i)
]

-- Snapshots.
snapshot-survives :
    (id : Text) (db : Catalog) (o : Option Text)
    → is_text o id ≡ false
    → has_or_null (has_snapshot db) o ≡ true
    → has_or_null (λ k. any (is_snapshot k) (delete_where (is_snapshot id) db.snapshots)) o ≡ true
snapshot-survives id db none e l = refl
snapshot-survives id db (some k) e l = any-delete_key (λ s. s.snapshot_id) id k db.snapshots e l

abbrev without_snapshot : Text → Catalog → Catalog
without_snapshot id db = record db {
  versions = delete_where (in_snapshot id) db.versions;
  snapshots = delete_where (is_snapshot id) db.snapshots;
  repair_history =
      update_where (λ (h : RepairHistoryRecord). is_text h.snapshot_id id)
        (λ (h : RepairHistoryRecord). record h { snapshot_id = none }) db.repair_history;
}

without_snapshot-Intact : (id : Text) (db : Catalog) → Intact db → Intact (without_snapshot id db)
without_snapshot-Intact id db i =
    let rest = without_snapshot id db in
    (
      i.0,
      i.1,
      i.2,
      All-delete (SnapshotLinks db) (SnapshotLinks db) (is_snapshot id) db.snapshots (λ r l e. l)
          i.3,
      All-delete (VersionLinks db) (VersionLinks rest) (in_snapshot id) db.versions
          (λ v l e.
            (l.0, any-delete_key (λ s. s.snapshot_id) id v.snapshot_id db.snapshots e l.1, l.2))
          i.4,
      i.5,
      i.6,
      i.7,
      i.8,
      All-update (RepairLinks db) (RepairLinks rest) (λ h. is_text h.snapshot_id id)
          (λ h. record h { snapshot_id = none }) db.repair_history
          (λ h l e. (l.0, refl, l.2, l.3, l.4))
          (λ h l e. (l.0, snapshot-survives id db h.snapshot_id e l.1, l.2, l.3, l.4)) i.9,
    )

pub delete_snapshot-Intact :
    (id : Text) (db : Catalog) → Intact db → After Intact (delete_snapshot id db)
unfolding delete_snapshot
delete_snapshot-Intact id db i = ground (arith, without_snapshot-Intact id db i)

prune_each-Intact : (ids : List Text) (db : Catalog) → Intact db → After Intact (prune_each ids db)
unfolding prune_each
prune_each-Intact [] db i = i
prune_each-Intact (id ∷ ids) db i =
    After-bind Intact Intact (delete_snapshot id)
      (λ deleted. prune_each ids >>= (λ others. return (deleted + others))) db
      (delete_snapshot-Intact id db i)
      (λ deleted db' i'.
        After-bind Intact Intact (prune_each ids) (λ others. return (deleted + others)) db'
          (prune_each-Intact ids db' i') (λ others db2 i2. i2))

record_if_some-Intact :
    (history : Option RetentionHistoryRecord) (db : Catalog)
    → Intact db
    → After Intact (record_if_some history db)
record_if_some-Intact none db i = i
record_if_some-Intact (some h) db i = record_retention_history-Intact h db i

pub prune_snapshots-Intact :
    (ids : List Text) (history : Option RetentionHistoryRecord) (db : Catalog)
    → Intact db
    → After Intact (prune_snapshots ids history db)
unfolding prune_snapshots
prune_snapshots-Intact ids history db i =
    After-bind Intact Intact (prune_each ids) (λ total. record_if_some history >> return total) db
      (prune_each-Intact ids db i)
      (λ total db' i'.
        After-bind Intact Intact (record_if_some history) (λ u. return total) db'
          (record_if_some-Intact history db' i') (λ u db2 i2. i2))

-- Profiles.
file-forgets :
    (id : Text) (db : Catalog) (o : Option Text)
    → is_text o id ≡ false
    → has_or_null (has_profile db) o ≡ true
    → has_or_null (λ k. any (is_profile k) (delete_where (is_profile id) db.profiles)) o ≡ true
file-forgets id db none e l = refl
file-forgets id db (some k) e l = any-delete_key (λ p. p.profile_id) id k db.profiles e l

profile-survives :
    (id k : Text) (db : Catalog)
    → text_eq k id ≡ false
    → has_profile db k ≡ true
    → any (is_profile k) (delete_where (is_profile id) db.profiles) ≡ true
profile-survives id k db e l = any-delete_key (λ p. p.profile_id) id k db.profiles e l

-- The files that have forgotten the profile do not name it.
files-forgotten :
    (id : Text) (t : List FileRecord)
    → All
        (λ f. is_text f.profile_id id ≡ false)
        (update_where (λ (f : FileRecord). is_text f.profile_id id) (forget_profile id) t)
files-forgotten id t =
    All-update (λ f. Unit {0}) (λ f. is_text f.profile_id id ≡ false) (λ f. is_text f.profile_id id)
      (forget_profile id) t (λ f l e. refl) (λ f l e. e) (All-unit t)

-- The deletion of a profile that no file names.
profile-deleted :
    (id : Text) (db : Catalog)
    → All (λ f. is_text f.profile_id id ≡ false) db.files
    → any (λ (s : SnapshotRow). text_eq s.profile_id id) db.snapshots ≡ false
    → Intact db
    → Intact (record (without_profile id db) { files = db.files })
unfolding without_profile
profile-deleted id db m n i =
    let rest : Catalog = record db { profiles = delete_where (is_profile id) db.profiles } in
    (
      All-map (λ f. FileLinks db f × (is_text f.profile_id id ≡ false)) (FileLinks rest) db.files
          (λ f l. file-forgets id db f.profile_id l.1 l.0)
          (All-and (FileLinks db) (λ f. is_text f.profile_id id ≡ false) db.files i.0 m),
      i.1,
      i.2,
      All-map (λ s. SnapshotLinks db s × (text_eq s.profile_id id ≡ false)) (SnapshotLinks rest)
          db.snapshots (λ s l. profile-survives id s.profile_id db l.1 l.0)
          (All-and (SnapshotLinks db) (λ s. text_eq s.profile_id id ≡ false) db.snapshots i.3
            (none_of (λ s. text_eq s.profile_id id) db.snapshots n)),
      i.4,
      All-delete (ScheduleLinks db) (ScheduleLinks rest) (λ s. text_eq s.profile_id id) db.schedules
          (λ s l e. profile-survives id s.profile_id db e l) i.5,
      All-delete (EntryLinks db)
          (λ h.
            any (is_schedule h.schedule_id)
              (delete_where (λ (s : ScheduleRecord). text_eq s.profile_id id) db.schedules)
            ≡ true)
          (λ h.
            any (λ s. text_eq s.profile_id id && text_eq s.schedule_id h.schedule_id) db.schedules)
          db.schedule_history
          (λ h l e.
            any-delete_others (is_schedule h.schedule_id) (λ s. text_eq s.profile_id id)
              db.schedules e l)
          i.6,
      All-delete (PolicyLinks db) (PolicyLinks rest) (λ p. text_eq p.profile_id id)
          db.retention_policies (λ p l e. profile-survives id p.profile_id db e l) i.7,
      All-delete (PruningLinks db) (PruningLinks rest) (λ h. text_eq h.profile_id id)
          db.retention_history (λ h l e. profile-survives id h.profile_id db e l) i.8,
      All-delete (RepairLinks db) (RepairLinks rest) (λ h. text_eq h.profile_id id)
          db.repair_history
          (λ h l e. (profile-survives id h.profile_id db e l.0, l.1, l.2, l.3, l.4)) i.9,
    )

without_profile-Intact :
    (id : Text) (db : Catalog)
    → any (λ (s : SnapshotRow). text_eq s.profile_id id) db.snapshots ≡ false
    → Intact db
    → Intact (without_profile id db)
unfolding without_profile
without_profile-Intact id db n i =
    let names = λ (f : FileRecord). is_text f.profile_id id in
    profile-deleted id (record db { files = update_where names (forget_profile id) db.files })
      (files-forgotten id db.files) n
      (files-updated db names (forget_profile id) (λ r. refl) (λ r l. refl) i)

pub delete_profile-Intact :
    (id : Text) (db : Catalog) → Intact db → After Intact (delete_profile id db)
unfolding delete_profile
delete_profile-Intact id db i = ground (arith, without_profile-Intact id db)
