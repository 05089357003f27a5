-- ===== src/Db/Integrity/Inserts.antt =====
-- Inserting a row (crates/televault-db/src/db.rs) keeps referential integrity.
use televault.Db.Catalog.{ProfileRecord, ManifestRecord, ChunkRecord, ScheduleRecord, Catalog}
use televault.Backup.ChangeDetector.{FileRecord, VersionRecord}
use televault.Db.Table.{any, append_row}
use televault.Db.Profiles.{is_profile, create_profile}
use televault.Db.Files.{
  is_file, is_manifest, is_chunk, profile_exists, create_file, create_manifest,
}
use televault.Db.Chunks.{create_chunk, snapshot_exists}
use televault.Db.Snapshots.{create_version}
use televault.Db.Schedules.{is_schedule, create_schedule}
use televault.Db.Table.Laws.{any-append}
use televault.Db.Catalog.Laws.{After}
use televault.Db.Integrity.{
  has_profile, has_snapshot, has_or_null, FileLinks, ManifestLinks, ChunkLinks, VersionLinks,
  ScheduleLinks, Intact, Intact-grown,
}
use televault.Prelude.{
  All-append, ◌≡◌, Bool, true, Option, none, some, List, [], ◌∷◌, arith, All, Text, All-append,
}

-- A row that is added to a table is found there, and so are the others.
more :
    {Row : Type 0} (p : Row → Bool) (t : List Row) (r : Row)
    → any p t ≡ true
    → any p (append_row r t) ≡ true
more p t r h = ground (arith, any-append p t r)

pub All-append_row :
    {Row : Type 0} (P : Row → Type 0) (t : List Row) (r : Row)
    → All P t
    → P r
    → All P (append_row r t)
All-append_row P t r h k = All-append P t (r ∷ []) h (k, tt)

profile_links :
    (o : Option Text) (db : Catalog)
    → profile_exists o db ≡ true
    → has_or_null (has_profile db) o ≡ true
profile_links none db h = h
profile_links (some k) db h = h

pub snapshot_links :
    (o : Option Text) (db : Catalog)
    → snapshot_exists o db ≡ true
    → has_or_null (has_snapshot db) o ≡ true
snapshot_links none db h = h
snapshot_links (some k) db h = h

create_profile-added :
    (profile : ProfileRecord) (db : Catalog)
    → Intact db
    → Intact (record db { profiles = append_row profile db.profiles })
create_profile-added profile db i =
    Intact-grown db (record db { profiles = append_row profile db.profiles })
      (
        λ k h. more (is_profile k) db.profiles profile h,
        λ k h. h,
        λ k h. h,
        λ k h. h,
        λ k h. h,
        λ k h. h,
      )
      i

pub create_profile-Intact :
    (profile : ProfileRecord) (db : Catalog) → Intact db → After Intact (create_profile profile db)
unfolding create_profile
create_profile-Intact profile db i = ground (arith, create_profile-added profile db i)

create_file-added :
    (file : FileRecord) (db : Catalog)
    → Intact db
    → FileLinks db file
    → Intact (record db { files = append_row file db.files })
create_file-added file db i l =
    Intact-grown db (record db { files = append_row file db.files })
      (λ k h. h, λ k h. more (is_file k) db.files file h, λ k h. h, λ k h. h, λ k h. h, λ k h. h)
      (
        All-append_row (FileLinks db) db.files file i.0 l,
        i.1,
        i.2,
        i.3,
        i.4,
        i.5,
        i.6,
        i.7,
        i.8,
        i.9,
      )

pub create_file-Intact :
    (file : FileRecord) (db : Catalog) → Intact db → After Intact (create_file file db)
unfolding create_file
create_file-Intact file db i =
    ground (arith, create_file-added file db i, profile_links file.profile_id db)

pub create_manifest-added :
    (row : ManifestRecord) (db : Catalog)
    → Intact db
    → ManifestLinks db row
    → Intact (record db { manifests = append_row row db.manifests })
create_manifest-added row db i l =
    Intact-grown db (record db { manifests = append_row row db.manifests })
      (
        λ k h. h,
        λ k h. h,
        λ k h. more (is_manifest k) db.manifests row h,
        λ k h. h,
        λ k h. h,
        λ k h. h,
      )
      (
        i.0,
        All-append_row (ManifestLinks db) db.manifests row i.1 l,
        i.2,
        i.3,
        i.4,
        i.5,
        i.6,
        i.7,
        i.8,
        i.9,
      )

pub create_manifest-Intact :
    (row : ManifestRecord) (db : Catalog) → Intact db → After Intact (create_manifest row db)
unfolding create_manifest
create_manifest-Intact row db i = ground (arith, create_manifest-added row db i)

create_chunk-added :
    (chunk : ChunkRecord) (db : Catalog)
    → Intact db
    → ChunkLinks db chunk
    → Intact (record db { chunks = append_row chunk db.chunks })
create_chunk-added chunk db i l =
    Intact-grown db (record db { chunks = append_row chunk db.chunks })
      (λ k h. h, λ k h. h, λ k h. h, λ k h. more (is_chunk k) db.chunks chunk h, λ k h. h, λ k h. h)
      (
        i.0,
        i.1,
        All-append_row (ChunkLinks db) db.chunks chunk i.2 l,
        i.3,
        i.4,
        i.5,
        i.6,
        i.7,
        i.8,
        i.9,
      )

pub create_chunk-Intact :
    (chunk : ChunkRecord) (db : Catalog) → Intact db → After Intact (create_chunk chunk db)
unfolding create_chunk
create_chunk-Intact chunk db i = ground (arith, create_chunk-added chunk db i)

create_version-added :
    (version : VersionRecord) (db : Catalog)
    → Intact db
    → VersionLinks db version
    → Intact (record db { versions = append_row version db.versions })
create_version-added version db i l =
    Intact-grown db (record db { versions = append_row version db.versions })
      (λ k h. h, λ k h. h, λ k h. h, λ k h. h, λ k h. h, λ k h. h)
      (
        i.0,
        i.1,
        i.2,
        i.3,
        All-append_row (VersionLinks db) db.versions version i.4 l,
        i.5,
        i.6,
        i.7,
        i.8,
        i.9,
      )

pub create_version-Intact :
    (version : VersionRecord) (db : Catalog) → Intact db → After Intact (create_version version db)
unfolding create_version
create_version-Intact version db i = ground (arith, create_version-added version db i)

create_schedule-added :
    (schedule : ScheduleRecord) (db : Catalog)
    → Intact db
    → ScheduleLinks db schedule
    → Intact (record db { schedules = append_row schedule db.schedules })
create_schedule-added schedule db i l =
    Intact-grown db (record db { schedules = append_row schedule db.schedules })
      (
        λ k h. h,
        λ k h. h,
        λ k h. h,
        λ k h. h,
        λ k h. h,
        λ k h. more (is_schedule k) db.schedules schedule h,
      )
      (
        i.0,
        i.1,
        i.2,
        i.3,
        i.4,
        All-append_row (ScheduleLinks db) db.schedules schedule i.5 l,
        i.6,
        i.7,
        i.8,
        i.9,
      )

pub create_schedule-Intact :
    (schedule : ScheduleRecord) (db : Catalog)
    → Intact db
    → After Intact (create_schedule schedule db)
unfolding create_schedule
create_schedule-Intact schedule db i = ground (arith, create_schedule-added schedule db i)
