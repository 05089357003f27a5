-- ===== src/Db/Schedules.antt =====
-- crates/televault-db/src/db.rs: the statements on schedules and their history.
use televault.Db.Catalog.{sql, unique_failed, foreign_key_failed}
use televault.Prelude.Sorting.{sort_by}
use televault.Db.Table.{
  select, delete_where, update_where, count, any, first, append_row, ascending, descending, limit,
}
use televault.Db.Catalog.{
  DbError, ScheduleRecord, ScheduleHistoryRecord, Catalog, Query, ◌>>=◌, ◌>>◌, return, reads,
  writes, requires, check_affected, query_rows, query_row, read_id, read_optional_id,
}
use televault.Db.Profiles.{is_profile}
use televault.Prelude.{
  compare_text, ℕ, Ordering, Bool, true, false, not, ◌&&◌, ◌||◌, Option, none, some, List, [], ltb,
  ◌==◌, if◌then◌else◌, Text, text, text_eq, compare_text, Result, ok, err,
}

abbrev pub is_schedule : Text → ScheduleRecord → Bool
is_schedule id s = text_eq s.schedule_id id

-- `create_schedule`
unfoldable pub create_schedule : ScheduleRecord → Query (Unit {0})
create_schedule schedule = do
  requires (λ (db : Catalog). not (any (is_schedule schedule.schedule_id) db.schedules))
      (sql (unique_failed (text "schedules.schedule_id")))
  requires (λ (db : Catalog). any (is_profile schedule.profile_id) db.profiles)
      (sql foreign_key_failed)
  writes (λ (db : Catalog). record db { schedules = append_row schedule db.schedules })

abbrev checked_schedule :
    ScheduleRecord → Result DbError Text → Result DbError Text → Result DbError ScheduleRecord
checked_schedule s (err e) p = err e
checked_schedule s (ok id) (err e) = err e
checked_schedule s (ok id) (ok p) = ok (record s { schedule_id = id; profile_id = p })

-- `map_schedule_row`
unfoldable pub map_schedule_row : ScheduleRecord → Result DbError ScheduleRecord
map_schedule_row s =
    checked_schedule s (read_id (text "Schedule") s.schedule_id)
      (read_id (text "Profile") s.profile_id)

-- `get_schedule`
unfoldable pub get_schedule : Text → Query (Option ScheduleRecord)
get_schedule id =
    query_row map_schedule_row (λ (db : Catalog). first (select (is_schedule id) db.schedules))

abbrev by_creation : ScheduleRecord → ScheduleRecord → Ordering
by_creation = ascending (λ (s : ScheduleRecord). s.created_at)

-- `list_schedules`
unfoldable pub list_schedules : Query (List ScheduleRecord)
list_schedules = query_rows map_schedule_row (λ (db : Catalog). sort_by by_creation db.schedules)

-- `list_schedules_for_profile`
unfoldable pub list_schedules_for_profile : Text → Query (List ScheduleRecord)
list_schedules_for_profile id = query_rows map_schedule_row (λ (db : Catalog).
    sort_by by_creation (select (λ (s : ScheduleRecord). text_eq s.profile_id id) db.schedules))

-- `next_run_at <= ?1`, in the order of texts.
abbrev pub not_after : Text → Option Text → Bool
not_after max none = false
not_after max (some t) = elim (compare_text t max) [ Ordering.gt ↦ false | _ ↦ true ]

abbrev pub is_due : Text → ScheduleRecord → Bool
is_due max s = s.enabled && not_after max s.next_run_at

abbrev or_empty : Option Text → Text
or_empty none = []
or_empty (some t) = t

abbrev pub next_first : ScheduleRecord → ScheduleRecord → Ordering
next_first = ascending (λ (s : ScheduleRecord). or_empty s.next_run_at)

-- `list_due_schedules`
unfoldable pub list_due_schedules : Text → Query (List ScheduleRecord)
list_due_schedules max_timestamp =
    query_rows map_schedule_row
      (λ (db : Catalog). sort_by next_first (select (is_due max_timestamp) db.schedules))

unfoldable pub set_schedule : ScheduleRecord → ScheduleRecord → ScheduleRecord
set_schedule schedule s = record s {
  profile_id = schedule.profile_id;
  schedule_type = schedule.schedule_type;
  expression = schedule.expression;
  timezone = schedule.timezone;
  enabled = schedule.enabled;
  next_run_at = schedule.next_run_at;
  last_run_at = schedule.last_run_at;
  last_status = schedule.last_status;
  last_error_code = schedule.last_error_code;
  updated_at = schedule.updated_at;
}

-- `update_schedule`
unfoldable pub update_schedule : ScheduleRecord → Query (Unit {0})
update_schedule schedule = do
  rows_affected ← reads (λ (db : Catalog). count (is_schedule schedule.schedule_id) db.schedules)
  requires
      (λ (db : Catalog). rows_affected == 0 || any (is_profile schedule.profile_id) db.profiles)
      (sql foreign_key_failed)
  writes (λ (db : Catalog). record db {
    schedules =
        update_where (is_schedule schedule.schedule_id) (set_schedule schedule) db.schedules;
  })
  check_affected (text "Schedule") schedule.schedule_id rows_affected

-- `update_schedule_status`, at the time `now`.
unfoldable pub update_schedule_status :
    (now id : Text) (next_run_at last_run_at last_status last_error_code : Option Text)
    → Query (Unit {0})
update_schedule_status now id next_run_at last_run_at last_status last_error_code = do
  rows_affected ← reads (λ (db : Catalog). count (is_schedule id) db.schedules)
  writes (λ (db : Catalog). record db {
    schedules =
        update_where (is_schedule id)
          (λ (s : ScheduleRecord). record s {
            next_run_at = next_run_at;
            last_run_at = last_run_at;
            last_status = last_status;
            last_error_code = last_error_code;
            updated_at = now;
          })
          db.schedules;
  })
  check_affected (text "Schedule") id rows_affected

-- `delete_schedule`, with its history.
unfoldable pub delete_schedule : Text → Query Bool
delete_schedule id = do
  affected ← reads (λ (db : Catalog). count (is_schedule id) db.schedules)
  writes (λ (db : Catalog). record db {
    schedules = delete_where (is_schedule id) db.schedules;
    schedule_history =
        if affected == 0
        then db.schedule_history
        else delete_where (λ (h : ScheduleHistoryRecord). text_eq h.schedule_id id)
            db.schedule_history;
  })
  return (ltb 0 affected)

-- `record_schedule_history`
unfoldable pub record_schedule_history : ScheduleHistoryRecord → Query (Unit {0})
record_schedule_history h = do
  requires
      (λ (db : Catalog). not (
        any (λ (r : ScheduleHistoryRecord). text_eq r.history_id h.history_id) db.schedule_history))
      (sql (unique_failed (text "schedule_history.history_id")))
  requires (λ (db : Catalog). any (is_schedule h.schedule_id) db.schedules) (sql foreign_key_failed)
  writes (λ (db : Catalog). record db { schedule_history = append_row h db.schedule_history })

abbrev checked_entry :
    ScheduleHistoryRecord
    → Result DbError Text
    → Result DbError Text
    → Result DbError (Option Text)
    → Result DbError ScheduleHistoryRecord
checked_entry h (err e) p s = err e
checked_entry h (ok id) (err e) s = err e
checked_entry h (ok id) (ok p) (err e) = err e
checked_entry h (ok id) (ok p) (ok s) =
    ok (record h { schedule_id = id; profile_id = p; snapshot_id = s })

-- `map_schedule_history_row`
unfoldable pub map_schedule_history_row :
    ScheduleHistoryRecord → Result DbError ScheduleHistoryRecord
map_schedule_history_row h =
    checked_entry h (read_id (text "Schedule") h.schedule_id)
      (read_id (text "Profile") h.profile_id) (read_optional_id (text "Snapshot") h.snapshot_id)

-- `list_schedule_history`
unfoldable pub list_schedule_history : Text → ℕ → Query (List ScheduleHistoryRecord)
list_schedule_history id n = query_rows map_schedule_history_row (λ (db : Catalog). limit n (
    sort_by (descending (λ (h : ScheduleHistoryRecord). h.started_at))
      (select (λ (h : ScheduleHistoryRecord). text_eq h.schedule_id id) db.schedule_history)))
