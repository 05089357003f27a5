-- ===== src/Scheduler/Execution.antt =====
-- crates/televault-scheduler/src/service.rs: one execution of a schedule, and the loop. The backup of
-- a profile is what it returns and leaves of the catalog; clocks are given by what they show.
pub mod Guarded
pub mod NotDue
use televault.Scheduler.Guard.{
  invalid_expression, invalid_schedule, schedule_not_found, profile_not_found, database, backup,
}
use televault.Scheduler.Clock.{found, failed, panicked, out_of_fuel}
use televault.Scheduler.Types.{interval, daily, weekly, cron, local, utc, running, stopped, paused}
use televault.Db.Catalog.{SqlError}
use televault.Prelude.Keyed.{
  lookup, insert, lookup-insert, erase, lookup-erase, contains, add, remove, Distinct,
  contains-append, contains-remove, contains-add, Distinct-remove, Distinct-add, Distinct-snoc,
  length-remove, length-add,
}
use televault.Scheduler.NextRun.{
  validate_expression, after_seconds, from_hms_opt, on_day, daily_utc, resolve_local, daily_local,
  weekly_utc, weekly_local, calculate_next_run,
}
use televault.Db.Table.{
  select, delete_where, update_where, count, any, first, append_row, has_key, find_key, is_text,
  ascending, descending, limit,
}
use televault.Core.Validation.{
  validate_non_empty, is_identifier_char, validate_identifier_string, Component, segments, body,
  is_absolute, components, check_components, validate_safe_relative_path, new_id,
}
use televault.Retention.Engine.{db_error_text}
use televault.Core.Models.{BackupStatus}
use televault.Scheduler.Guard.{
  SchedulerError, ExecutionGuard, ProfileGuard, new_guard, try_acquire, drop, is_running,
  active_profiles, profile_not_found, backup,
}
use televault.Scheduler.Clock.{
  minute_ns, hour_ns, day_ns, Calendar, Weekdays, LocalResult, Zone, only, Outcome, attempt, ok_or,
  unwrap, unwrap_or, later, date, and_time, hour, minute, with_second_0, with_nanosecond_0,
  with_minute_0, next_date, map_local, found, failed,
}
use televault.Scheduler.Types.{
  ScheduleType, schedule_type_text, read_schedule_type, TimezoneStrategy, timezone_text,
  read_timezone, MissedSchedulePolicy, Schedule, CreateScheduleParams, UpdateScheduleParams,
  SchedulerServiceStatus, service_status_text,
}
use televault.Db.Catalog.{
  SqlError, DbError, ProfileRecord, ManifestRecord, ChunkRecord, SnapshotRecord, SnapshotRow,
  ScheduleRecord, ScheduleHistoryRecord, RetentionHistoryRecord, RepairHistoryRecord, Catalog,
  Query, continue, reads, writes, requires, check_affected, committed, with_transaction,
  with_catalog, map_rows, map_first, query_rows, query_row, read_id, read_optional_id,
}
use televault.Db.Profiles.{
  is_profile, create_profile, map_profile_row, get_profile, list_profiles, set_profile,
  update_profile, set_profile_enabled, forget_profile, without_profile, delete_profile,
}
use televault.Db.Schedules.{
  is_schedule, create_schedule, map_schedule_row, get_schedule, list_schedules,
  list_schedules_for_profile, not_after, is_due, next_first, list_due_schedules, set_schedule,
  update_schedule, update_schedule_status, delete_schedule, record_schedule_history,
  map_schedule_history_row, list_schedule_history,
}
use televault.Scheduler.Records.{
  Machine, read_time, time_or, write_time, record_to_domain, domain_all,
}
use televault.Scheduler.Service.{
  start, stop, get_domain_schedule, list_domain_schedules, list_profile_schedules, next_run,
  next_if, create_domain_schedule, changed_timing, with_params, update_domain_schedule,
  delete_domain_schedule, enable_schedule, disable_schedule, get_history,
}
use televault.Scheduler.Effects.{
  ServiceState, new_service, Service, and_then, ◌>>=◌, ◌>>◌, return, pure, after_query, query,
  quietly, notify_one,
}
use televault.Prelude.{
  ℕ, zero, suc, ◌+◌, ◌-◌, ◌*◌, ◌/◌, ◌%◌, ◌^◌, ◌≤◌, ◌<◌, Ordering, ◌≡◌, refl, sym, ap, ◌∙◌, subst,
  ◌≢◌, ◌↔◌, ◌⊎◌, inl, inr, Bool, true, false, not, ◌&&◌, ◌||◌, Option, none, some, List, [], ◌∷◌,
  ◌++◌, map, arith, ltb, leb, ◌==◌, if◌then◌else◌, Bool-cases, Option-cases, is_some, is_none,
  or_else, if_split, length, length-append, All, Text, text, text_eq, text_eq_iff, text_eq_refl,
  text_eq→eq, compare_text, decimal, Result, ok, err, guard, map_err, >>=-eq-ok, Result-cases,
}

-- `BackupSummary` of crates/televault-backup/src/plan.rs.
pub record BackupSummary : Type 0 where
  pub snapshot_id : Text
  pub profile_id : Text
  pub new_files : ℕ
  pub modified_files : ℕ
  pub unchanged_files : ℕ
  pub deleted_files : ℕ
  pub transferred_chunks : ℕ
  pub transferred_bytes : ℕ
  pub reused_bytes : ℕ
  pub status : BackupStatus
  pub elapsed_ms : ℕ
  pub error_message : Option Text

-- What one execution meets: the clock at its start, at the end of the backup and just after; the
-- seconds of the system's clock; the stamp of its entry in the history; and the backup, whose errors
-- are kept by their printed forms.
pub record Occasion : Type 0 where
  pub now : ℕ
  pub completed_at : ℕ
  pub after : ℕ
  pub unix_seconds : Text
  pub stamp : Text
  pub run_backup : ProfileRecord → Catalog → Result Text BackupSummary × Catalog

abbrev pub record_status :
    Occasion
    → Schedule
    → (next_run_at last_run_at last_status last_error_code : Option Text) → Service (Unit {0})
record_status o schedule next last status code =
    quietly (update_schedule_status o.unix_seconds schedule.schedule_id next last status code)

abbrev pub next_of : Machine → Schedule → ℕ → Outcome ℕ
next_of m schedule t = next_run m schedule.schedule_type schedule.expression schedule.timezone t

abbrev pub history_entry :
    Machine → Occasion → Schedule → Result Text BackupSummary → ScheduleHistoryRecord
history_entry m o schedule (ok summary) = record {
  history_id = text "hist-" ++ o.stamp;
  schedule_id = schedule.schedule_id;
  profile_id = schedule.profile_id;
  started_at = m.to_rfc3339 o.now;
  completed_at = some (m.to_rfc3339 o.completed_at);
  status = text "completed";
  snapshot_id = some summary.snapshot_id;
  files_processed = (summary.new_files + summary.modified_files + summary.unchanged_files) % 2 ^ 64;
  bytes_transferred = summary.transferred_bytes;
  error_code = none;
  error_message = none;
}
history_entry m o schedule (err e) = record {
  history_id = text "hist-" ++ o.stamp;
  schedule_id = schedule.schedule_id;
  profile_id = schedule.profile_id;
  started_at = m.to_rfc3339 o.now;
  completed_at = some (m.to_rfc3339 o.completed_at);
  status = text "failed";
  snapshot_id = none;
  files_processed = 0;
  bytes_transferred = 0;
  error_code = some (text "BACKUP_FAILED");
  error_message = some e;
}

abbrev end_status : Result Text BackupSummary → Option Text
end_status (ok summary) = some (text "completed")
end_status (err e) = some (text "failed")

abbrev end_code : Result Text BackupSummary → Option Text
end_code (ok summary) = none
end_code (err e) = some (text "BACKUP_FAILED")

abbrev end_result : Result Text BackupSummary → Outcome (Option Text)
end_result (ok summary) = found (some summary.snapshot_id)
end_result (err e) = failed (backup e)

abbrev backed_up : Occasion → ProfileRecord → Service (Result Text BackupSummary)
backed_up o p s = let r = o.run_backup p s.db in (found r.0, record s { db = r.1 })

-- From the plan of the backup to the end.
unfoldable pub run_guarded : Machine → Occasion → Schedule → ProfileRecord → Service (Option Text)
run_guarded m o schedule p = do
  result ← backed_up o p
  next ← pure (next_of m schedule o.after)
  quietly (record_schedule_history (history_entry m o schedule result))
  record_status o schedule (some (m.to_rfc3339 next)) (some (m.to_rfc3339 o.completed_at))
      (end_status result) (end_code result)
  pure (end_result result)

-- Where the profile is busy.
unfoldable pub skip_busy : Machine → Occasion → Schedule → Service (Option Text)
skip_busy m o schedule = do
  next ← pure (next_of m schedule o.now)
  record_status o schedule (some (m.to_rfc3339 next)) (write_time m schedule.last_run_at)
      (some (text "skipped_busy")) none
  return none

-- Where the profile is disabled.
unfoldable pub skip_disabled : Machine → Occasion → Schedule → Service (Option Text)
skip_disabled m o schedule = do
  next ← pure (next_of m schedule o.now)
  record_status o schedule (some (m.to_rfc3339 next)) (some (m.to_rfc3339 o.now))
      (some (text "skipped_profile_disabled")) none
  return none

-- The guard is dropped when the body ends, by a panic too. A search in local time that goes on never
-- ends, and so keeps the guard.
abbrev pub released :
    ProfileGuard → Outcome (Option Text) × ServiceState → Outcome (Option Text) × ServiceState
released token (found a, s) = (found a, record s { execution_guard = drop token s.execution_guard })
released token (failed e, s) =
    (failed e, record s { execution_guard = drop token s.execution_guard })
released token (panicked, s) =
    (panicked, record s { execution_guard = drop token s.execution_guard })
released token (out_of_fuel, s) = (out_of_fuel, s)

abbrev pub on_acquired :
    Machine
    → Occasion
    → Schedule
    → ProfileRecord
    → ServiceState
    → Result SchedulerError ProfileGuard × ExecutionGuard
    → Outcome (Option Text) × ServiceState
on_acquired m o schedule p s (ok token, g) =
    released token (run_guarded m o schedule p (record s { execution_guard = g }))
on_acquired m o schedule p s (err e, g) = skip_busy m o schedule (record s { execution_guard = g })

unfoldable pub for_profile :
    Machine → Occasion → Schedule → Option ProfileRecord → Service (Option Text)
for_profile m o schedule none = do
  record_status o schedule none (some (m.to_rfc3339 o.now)) (some (text "invalid_profile"))
      (some (text "PROFILE_NOT_FOUND"))
  pure (failed (profile_not_found schedule.profile_id))
for_profile m o schedule (some p) =
    if p.enabled
    then (λ s. on_acquired m o schedule p s (try_acquire s.execution_guard schedule.profile_id))
    else skip_disabled m o schedule

-- `execute_single_scheduled_backup`
unfoldable pub execute_single_scheduled_backup :
    Machine → Occasion → Schedule → Service (Option Text)
execute_single_scheduled_backup m o schedule = do
  profile ← query m (get_profile schedule.profile_id)
  for_profile m o schedule profile

-- `trigger_schedule_now`
unfoldable pub trigger_schedule_now : Machine → Occasion → Text → Service (Option Text)
trigger_schedule_now m o id = do
  schedule ← get_domain_schedule m o.now id
  snap_id ← execute_single_scheduled_backup m o schedule
  notify_one
  return snap_id
