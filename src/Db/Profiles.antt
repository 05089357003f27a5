-- ===== src/Db/Profiles.antt =====
-- crates/televault-db/src/db.rs: the statements on profiles.
use televault.Db.Catalog.{sql, invalid_data, unique_failed, foreign_key_failed}
use televault.Prelude.Sorting.{sort_by}
use televault.Backup.ChangeDetector.{FileRecord}
use televault.Retention.Policy.{RetentionPolicyRecord}
use televault.Core.Validation.{new_id}
use televault.Db.Table.{
  select, delete_where, update_where, count, any, first, append_row, is_text, ascending,
}
use televault.Db.Catalog.{
  DbError, ProfileRecord, SnapshotRow, ScheduleRecord, ScheduleHistoryRecord,
  RetentionHistoryRecord, RepairHistoryRecord, Catalog, Query, ◌>>=◌, ◌>>◌, reads, writes, requires,
  check_affected, query_rows, query_row,
}
use televault.Core.Error.{AppError, app_error_text}
use televault.Prelude.{
  Bool, not, ◌&&◌, ◌||◌, Option, none, List, ◌==◌, if◌then◌else◌, Text, text, text_eq, Result, ok,
  err,
}

abbrev pub is_profile : Text → ProfileRecord → Bool
is_profile id p = text_eq p.profile_id id

abbrev foreign_key : DbError
foreign_key = sql foreign_key_failed

abbrev unique : Text → DbError
unique columns = sql (unique_failed columns)

-- Another profile has the name.
abbrev name_taken : Text → Text → ProfileRecord → Bool
name_taken id name p = text_eq p.name name && not (text_eq p.profile_id id)

-- `create_profile`
unfoldable pub create_profile : ProfileRecord → Query (Unit {0})
create_profile profile = do
  requires (λ (db : Catalog). not (any (is_profile profile.profile_id) db.profiles))
      (unique (text "profiles.profile_id"))
  requires
      (λ (db : Catalog). not (any (λ (p : ProfileRecord). text_eq p.name profile.name) db.profiles))
      (unique (text "profiles.name"))
  writes (λ (db : Catalog). record db { profiles = append_row profile db.profiles })

abbrev with_profile_id : ProfileRecord → Result AppError Text → Result DbError ProfileRecord
with_profile_id p (ok id) = ok (record p { profile_id = id })
with_profile_id p (err e) = err (invalid_data (app_error_text e))

unfoldable pub map_profile_row : ProfileRecord → Result DbError ProfileRecord
map_profile_row p = with_profile_id p (new_id (text "Profile") p.profile_id)

-- `get_profile`
unfoldable pub get_profile : Text → Query (Option ProfileRecord)
get_profile id =
    query_row map_profile_row (λ (db : Catalog). first (select (is_profile id) db.profiles))

-- `list_profiles`
unfoldable pub list_profiles : Query (List ProfileRecord)
list_profiles =
    query_rows map_profile_row
      (λ (db : Catalog). sort_by (ascending (λ (p : ProfileRecord). p.name)) db.profiles)

unfoldable pub set_profile : ProfileRecord → ProfileRecord → ProfileRecord
set_profile profile p = record p {
  name = profile.name;
  description = profile.description;
  source_path = profile.source_path;
  enabled = profile.enabled;
  updated_at = profile.updated_at;
}

-- `update_profile`
unfoldable pub update_profile : ProfileRecord → Query (Unit {0})
update_profile profile = do
  affected ← reads (λ (db : Catalog). count (is_profile profile.profile_id) db.profiles)
  requires
      (λ (db : Catalog).
        affected == 0 || not (any (name_taken profile.profile_id profile.name) db.profiles))
      (unique (text "profiles.name"))
  writes (λ (db : Catalog). record db {
    profiles = update_where (is_profile profile.profile_id) (set_profile profile) db.profiles;
  })
  check_affected (text "Profile") profile.profile_id affected

-- `set_profile_enabled`
unfoldable pub set_profile_enabled : Text → Bool → Query (Unit {0})
set_profile_enabled id enabled = do
  affected ← reads (λ (db : Catalog). count (is_profile id) db.profiles)
  writes (λ (db : Catalog). record db {
    profiles =
        update_where (is_profile id) (λ (p : ProfileRecord). record p { enabled = enabled })
          db.profiles;
  })
  check_affected (text "Profile") id affected

-- `ON DELETE SET NULL` of files.
abbrev pub forget_profile : Text → FileRecord → FileRecord
forget_profile id f = record f { profile_id = none }

-- What goes with a deleted profile: its schedules with their history, its retention policy, and the
-- history of retention and repair. Its files stay, with no profile.
unfoldable pub without_profile : Text → Catalog → Catalog
without_profile id db =
    let is_scheduled = λ (h : ScheduleHistoryRecord).
      any (λ (s : ScheduleRecord). text_eq s.profile_id id && text_eq s.schedule_id h.schedule_id)
        db.schedules in
    record db {
      profiles = delete_where (is_profile id) db.profiles;
      files =
          update_where (λ (f : FileRecord). is_text f.profile_id id) (forget_profile id) db.files;
      schedules = delete_where (λ (s : ScheduleRecord). text_eq s.profile_id id) db.schedules;
      schedule_history = delete_where is_scheduled db.schedule_history;
      retention_policies =
          delete_where (λ (p : RetentionPolicyRecord). text_eq p.profile_id id)
            db.retention_policies;
      retention_history =
          delete_where (λ (h : RetentionHistoryRecord). text_eq h.profile_id id)
            db.retention_history;
      repair_history =
          delete_where (λ (h : RepairHistoryRecord). text_eq h.profile_id id) db.repair_history;
    }

-- `delete_profile`. Snapshots keep their profile from being deleted.
unfoldable pub delete_profile : Text → Query (Unit {0})
delete_profile id = do
  affected ← reads (λ (db : Catalog). count (is_profile id) db.profiles)
  requires
      (λ (db : Catalog).
        affected == 0 || not (any (λ (s : SnapshotRow). text_eq s.profile_id id) db.snapshots))
      foreign_key
  writes (λ (db : Catalog). if affected == 0 then db else without_profile id db)
  check_affected (text "Profile") id affected
