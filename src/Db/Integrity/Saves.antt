-- ===== src/Db/Integrity/Saves.antt =====
-- The statements of crates/televault-db/src/db.rs that update rows, or insert and update, keep the
-- catalogue intact.
use televault.Db.Integrity.Updates.{
  profiles-updated, files-updated, manifests-updated, chunks-updated, snapshots-updated,
  schedules-updated, retention_policies-updated,
}
use televault.Core.Models.{BackupStatus, status_text}
use televault.Db.Chunks.{create_chunk, create_chunks, update_chunk_status}
use televault.Db.Snapshots.{
  is_snapshot, create_snapshot, update_snapshot_status_and_metadata, is_interrupted,
  reconcile_snapshots,
}
use televault.Db.Schedules.{is_schedule, set_schedule, update_schedule, update_schedule_status}
use televault.Db.Retention.{of_profile, set_policy, save_retention_policy}
use televault.Db.Integrity.Inserts.{create_manifest-added, create_chunk-Intact}
use televault.Backup.ChangeDetector.{FileRecord}
use televault.Retention.Policy.{RetentionPolicyRecord}
use televault.Db.Table.{append_row}
use televault.Db.Catalog.{
  ProfileRecord, ManifestRecord, ChunkRecord, SnapshotRecord, SnapshotRow, ScheduleRecord, Catalog,
}
use televault.Db.Profiles.{is_profile, set_profile, update_profile, set_profile_enabled}
use televault.Db.Files.{is_file, is_manifest, is_chunk, set_file, update_file, save_manifest}
use televault.Db.Table.Laws.{any-append}
use televault.Db.Catalog.Laws.{After, After-bind}
use televault.Db.Integrity.{has_profile, SnapshotLinks, PolicyLinks, Intact, Intact-grown}
use televault.Prelude.{
  All-append, refl, inl, inr, Bool, Option, List, [], ◌∷◌, arith, Bool-cases, Text, text,
}

pub update_profile-Intact :
    (profile : ProfileRecord) (db : Catalog) → Intact db → After Intact (update_profile profile db)
unfolding update_profile set_profile
update_profile-Intact profile db i =
    ground (
      arith,
      profiles-updated db (is_profile profile.profile_id) (set_profile profile) (λ r. refl) i,
    )

pub set_profile_enabled-Intact :
    (id : Text) (enabled : Bool) (db : Catalog)
    → Intact db
    → After Intact (set_profile_enabled id enabled db)
unfolding set_profile_enabled
set_profile_enabled-Intact id enabled db i =
    ground (
      arith,
      profiles-updated db (is_profile id) (λ p. record p { enabled = enabled }) (λ r. refl) i,
    )

pub update_file-Intact :
    (file : FileRecord) (db : Catalog) → Intact db → After Intact (update_file file db)
unfolding update_file set_file
update_file-Intact file db i =
    ground (arith, files-updated db (is_file file.file_id) (set_file file) (λ r. refl) (λ r l. l) i)

pub save_manifest-Intact :
    (row : ManifestRecord) (db : Catalog) → Intact db → After Intact (save_manifest row db)
unfolding save_manifest
save_manifest-Intact row db i = ground (
  arith,
  manifests-updated db (is_manifest row.manifest_id)
      (λ m. record m { serialized_manifest = row.serialized_manifest; updated_at = row.updated_at })
      (λ r. refl) (λ r l. l) i,
  create_manifest-added row db i,
)

pub update_chunk_status-Intact :
    (id status : Text) (db : Catalog) → Intact db → After Intact (update_chunk_status id status db)
unfolding update_chunk_status
update_chunk_status-Intact id status db i = ground (
  arith,
  chunks-updated db (is_chunk id) (λ c. record c { status = status }) (λ r. refl) (λ r l. l) i,
)

pub update_snapshot_status_and_metadata-Intact :
    (id : Text) (status : BackupStatus) (metadata : Option Text) (db : Catalog)
    → Intact db
    → After Intact (update_snapshot_status_and_metadata id status metadata db)
unfolding update_snapshot_status_and_metadata
update_snapshot_status_and_metadata-Intact id status metadata db i = ground (
  arith,
  snapshots-updated db (is_snapshot id)
      (λ s. record s { status = status_text status; metadata = metadata }) (λ r. refl) (λ r l. l) i,
)

pub reconcile_snapshots-Intact :
    (note : Option Text → Option Text) (db : Catalog)
    → Intact db
    → After Intact (reconcile_snapshots note db)
unfolding reconcile_snapshots
reconcile_snapshots-Intact note db i =
    snapshots-updated db is_interrupted
      (λ s. record s { status = text "failed"; metadata = note s.metadata }) (λ r. refl) (λ r l. l)
      i

save_retention_policy-added :
    (policy : RetentionPolicyRecord) (db : Catalog)
    → Intact db
    → PolicyLinks db policy
    → Intact (record db { retention_policies = append_row policy db.retention_policies })
save_retention_policy-added policy db i l = (
  i.0,
  i.1,
  i.2,
  i.3,
  i.4,
  i.5,
  i.6,
  All-append (PolicyLinks db) db.retention_policies (policy ∷ []) i.7 (l, tt),
  i.8,
  i.9,
)

pub save_retention_policy-Intact :
    (policy : RetentionPolicyRecord) (db : Catalog)
    → Intact db
    → After Intact (save_retention_policy policy db)
unfolding save_retention_policy set_policy
save_retention_policy-Intact policy db i = ground (
  arith,
  retention_policies-updated db (of_profile policy.profile_id) (set_policy policy) (λ r l. l) i,
  save_retention_policy-added policy db i,
)

pub update_schedule-Intact :
    (schedule : ScheduleRecord) (db : Catalog)
    → Intact db
    → After Intact (update_schedule schedule db)
unfolding update_schedule set_schedule
update_schedule-Intact schedule db i = elim (Bool-cases (has_profile db schedule.profile_id)) [
  | inl h ↦ ground (
    arith,
    schedules-updated db (is_schedule schedule.schedule_id) (set_schedule schedule) (λ r. refl)
        (λ r l. h) i,
  )
  | inr h ↦ ground arith
]

pub update_schedule_status-Intact :
    (now id : Text) (next_run_at last_run_at last_status last_error_code : Option Text)
    (db : Catalog)
    → Intact db
    → After Intact
        (update_schedule_status now id next_run_at last_run_at last_status last_error_code db)
unfolding update_schedule_status
update_schedule_status-Intact now id next_run_at last_run_at last_status last_error_code db i =
    ground (
      arith,
      schedules-updated db (is_schedule id)
          (λ s. record s {
            next_run_at = next_run_at;
            last_run_at = last_run_at;
            last_status = last_status;
            last_error_code = last_error_code;
            updated_at = now;
          })
          (λ r. refl) (λ r l. l) i,
    )

create_snapshot-added :
    (s : SnapshotRow) (db : Catalog)
    → Intact db
    → SnapshotLinks db s
    → Intact (record db { snapshots = append_row s db.snapshots })
create_snapshot-added s db i l =
    Intact-grown db (record db { snapshots = append_row s db.snapshots })
      (
        λ k h. h,
        λ k h. h,
        λ k h. h,
        λ k h. h,
        λ k h. ground (arith, any-append (is_snapshot k) db.snapshots s),
        λ k h. h,
      )
      (
        i.0,
        i.1,
        i.2,
        All-append (SnapshotLinks db) db.snapshots (s ∷ []) i.3 (l, tt),
        i.4,
        i.5,
        i.6,
        i.7,
        i.8,
        i.9,
      )

pub create_snapshot-Intact :
    (snapshot : SnapshotRecord) (db : Catalog)
    → Intact db
    → After Intact (create_snapshot snapshot db)
unfolding create_snapshot
create_snapshot-Intact snapshot db i = ground (
  arith,
  create_snapshot-added
      (record {
        snapshot_id = snapshot.snapshot_id;
        profile_id = snapshot.profile_id;
        status = status_text snapshot.status;
        metadata = snapshot.metadata;
        created_at = snapshot.created_at;
      })
      db i,
)

pub create_chunks-Intact :
    (chunks : List ChunkRecord) (db : Catalog) → Intact db → After Intact (create_chunks chunks db)
unfolding create_chunks
create_chunks-Intact [] db i = i
create_chunks-Intact (chunk ∷ chunks) db i =
    After-bind Intact Intact (create_chunk chunk) (λ u. create_chunks chunks) db
      (create_chunk-Intact chunk db i) (λ u db'. create_chunks-Intact chunks db')
