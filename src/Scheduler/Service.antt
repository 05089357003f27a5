-- ===== src/Scheduler/Service.antt =====
-- crates/televault-scheduler/src/service.rs: the operations of the service on schedules.
pub mod Created
pub mod Wanted
pub mod Reasons
use televault.Scheduler.Effects.{
  ServiceState, new_service, Service, and_then, ◌>>=◌, ◌>>◌, return, pure, after_query, query,
  quietly, notify_one,
}
use televault.Scheduler.Guard.{
  invalid_expression, invalid_schedule, schedule_not_found, profile_not_found, database, backup,
}
use televault.Scheduler.Clock.{found, failed, panicked, out_of_fuel}
use televault.Scheduler.Types.{interval, daily, weekly, cron, local, utc, running, stopped, paused}
use televault.Db.Catalog.{SqlError}
use televault.Prelude.Keyed.{
  lookup, insert, lookup-insert, erase, lookup-erase, contains, add, remove, Distinct,
  contains-append, contains-remove, contains-add, Distinct-remove, Distinct-add, Distinct-snoc,
  length-remove, length-add,
}
use televault.Scheduler.Guard.{
  SchedulerError, ExecutionGuard, ProfileGuard, new_guard, try_acquire, is_running, active_profiles,
  schedule_not_found, profile_not_found, database,
}
use televault.Scheduler.Clock.{
  minute_ns, hour_ns, day_ns, Calendar, Weekdays, LocalResult, Zone, only, Outcome, attempt, ok_or,
  unwrap, unwrap_or, later, date, and_time, hour, minute, with_second_0, with_nanosecond_0,
  with_minute_0, next_date, map_local, found, failed, panicked, out_of_fuel,
}
use televault.Scheduler.Types.{
  ScheduleType, schedule_type_text, read_schedule_type, TimezoneStrategy, timezone_text,
  read_timezone, MissedSchedulePolicy, Schedule, CreateScheduleParams, UpdateScheduleParams,
  SchedulerServiceStatus, service_status_text, local, running, stopped,
}
use televault.Scheduler.NextRun.{
  validate_expression, after_seconds, from_hms_opt, on_day, daily_utc, resolve_local, daily_local,
  weekly_utc, weekly_local, calculate_next_run,
}
use televault.Db.Catalog.{
  SqlError, DbError, ProfileRecord, ManifestRecord, ChunkRecord, SnapshotRecord, SnapshotRow,
  ScheduleRecord, ScheduleHistoryRecord, RetentionHistoryRecord, RepairHistoryRecord, Catalog,
  Query, continue, reads, writes, requires, check_affected, committed, with_transaction,
  with_catalog, map_rows, map_first, query_rows, query_row, read_id, read_optional_id,
}
use televault.Db.Table.{
  select, delete_where, update_where, count, any, first, append_row, has_key, find_key, is_text,
  ascending, descending, limit,
}
use televault.Db.Profiles.{
  is_profile, create_profile, map_profile_row, get_profile, list_profiles, set_profile,
  update_profile, set_profile_enabled, forget_profile, without_profile, delete_profile,
}
use televault.Db.Schedules.{
  is_schedule, create_schedule, map_schedule_row, get_schedule, list_schedules,
  list_schedules_for_profile, not_after, is_due, next_first, list_due_schedules, set_schedule,
  update_schedule, update_schedule_status, delete_schedule, record_schedule_history,
  map_schedule_history_row, list_schedule_history,
}
use televault.Core.Validation.{
  validate_non_empty, is_identifier_char, validate_identifier_string, Component, segments, body,
  is_absolute, components, check_components, validate_safe_relative_path, new_id,
}
use televault.Retention.Engine.{db_error_text}
use televault.Scheduler.Records.{
  Machine, read_time, time_or, write_time, record_to_domain, domain_all,
}
use televault.Prelude.{
  ℕ, zero, suc, ◌+◌, ◌-◌, ◌*◌, ◌/◌, ◌%◌, ◌^◌, ◌≤◌, ◌<◌, Ordering, ◌≡◌, refl, sym, ap, ◌∙◌, subst,
  ◌≢◌, ◌↔◌, ◌⊎◌, inl, inr, Bool, true, false, not, ◌&&◌, ◌||◌, Option, none, some, List, [], ◌∷◌,
  ◌++◌, map, arith, ltb, leb, ◌==◌, if◌then◌else◌, Bool-cases, Option-cases, is_some, is_none,
  or_else, if_split, length, length-append, All, Text, text, text_eq, text_eq_iff, text_eq_refl,
  text_eq→eq, compare_text, decimal, Result, ok, err, guard, map_err, >>=-eq-ok, Result-cases,
}

-- `start`: the loop runs in a task of its own.
unfoldable pub start : Service (Unit {0})
start s = elim s.status [
  | running ↦ (found tt, s)
  | _ ↦ (found tt, record s { status = running; has_task = true })
]

-- `stop`, which waits for the end of the loop.
unfoldable pub stop : Service (Unit {0})
stop s = (
  found tt,
  record s { status = stopped; is_cancelled = true; is_notified = true; has_task = false },
)

abbrev found_schedule : Machine → ℕ → Text → Option ScheduleRecord → Outcome Schedule
found_schedule m now id none = failed (schedule_not_found id)
found_schedule m now id (some r) = attempt (record_to_domain m now r)

-- `get_schedule`, at the time `now`.
unfoldable pub get_domain_schedule : Machine → ℕ → Text → Service Schedule
get_domain_schedule m now id = do r ← query m (get_schedule id); pure (found_schedule m now id r)

-- `list_schedules`
unfoldable pub list_domain_schedules : Machine → ℕ → Service (List Schedule)
list_domain_schedules m now = do rs ← query m list_schedules; pure (attempt (domain_all m now rs))

-- `list_schedules_for_profile`
unfoldable pub list_profile_schedules : Machine → ℕ → Text → Service (List Schedule)
list_profile_schedules m now id = do
  rs ← query m (list_schedules_for_profile id)
  pure (attempt (domain_all m now rs))

abbrev pub next_run : Machine → ScheduleType → Text → TimezoneStrategy → ℕ → Outcome ℕ
next_run m type expr tz now = calculate_next_run m.fuel m.table m.zone m.calendar type expr tz now

abbrev pub just : Outcome ℕ → Outcome (Option ℕ)
just (found t) = found (some t)
just (failed e) = failed e
just panicked = panicked
just out_of_fuel = out_of_fuel

-- `if enabled { Some(calculate_next_run(..)?) } else { None }`
abbrev pub next_if :
    Bool → Machine → ScheduleType → Text → TimezoneStrategy → ℕ → Outcome (Option ℕ)
next_if enabled m type expr tz now =
    if enabled then just (next_run m type expr tz now) else found none

abbrev pub require_profile : Text → Option ProfileRecord → Outcome (Unit {0})
require_profile id none = failed (profile_not_found id)
require_profile id (some p) = found tt

abbrev given_or : {A : Type 0} → A → Option A → A
given_or d none = d
given_or d (some a) = a

-- The identifier of `uuid_or_timestamp`, with which `ScheduleId::new(..)` is unwrapped.
abbrev pub new_schedule_id : Text → Option Text → Outcome Text
new_schedule_id stamp (some id) = found id
new_schedule_id stamp none = elim (new_id (text "Schedule") (text "sched-" ++ stamp)) [
  | ok id ↦ found id
  | err e ↦ panicked
]

abbrev pub zone_of : CreateScheduleParams → TimezoneStrategy
zone_of params = given_or local params.timezone

abbrev pub enabled_of : CreateScheduleParams → Bool
enabled_of params = given_or true params.enabled

abbrev pub first_run : Machine → ℕ → CreateScheduleParams → Outcome (Option ℕ)
first_run m now params =
    next_if (enabled_of params) m params.schedule_type params.expression (zone_of params) now

abbrev pub new_row : Machine → ℕ → Text → CreateScheduleParams → Option ℕ → ScheduleRecord
new_row m now id params next_run_at = record {
  schedule_id = id;
  profile_id = params.profile_id;
  schedule_type = schedule_type_text params.schedule_type;
  expression = params.expression;
  timezone = timezone_text (zone_of params);
  enabled = enabled_of params;
  next_run_at = write_time m next_run_at;
  last_run_at = none;
  last_status = some (text "idle");
  last_error_code = none;
  created_at = m.to_rfc3339 now;
  updated_at = m.to_rfc3339 now;
}

-- `create_schedule`, at the time `now`, where `stamp` is what `uuid_or_timestamp` gives.
unfoldable pub create_domain_schedule :
    Machine → (now : ℕ) (stamp : Text) → CreateScheduleParams → Service Schedule
create_domain_schedule m now stamp params = do
  pure (validate_expression m.table params.schedule_type params.expression)
  profile ← query m (get_profile params.profile_id)
  pure (require_profile params.profile_id profile)
  schedule_id ← pure (new_schedule_id stamp params.schedule_id)
  next_run_at ← pure (first_run m now params)
  query m (create_schedule (new_row m now schedule_id params next_run_at))
  notify_one
  get_domain_schedule m now schedule_id

-- Whether the timing changes, and the schedule with the changes that are asked for.
abbrev changes_enabled : Option Bool → Bool → Bool
changes_enabled none old = false
changes_enabled (some true) old = not old
changes_enabled (some false) old = old

abbrev pub changed_timing : UpdateScheduleParams → Schedule → Bool
changed_timing params existing =
    is_some params.schedule_type
    || is_some params.expression
    || is_some params.timezone
    || changes_enabled params.enabled existing.enabled

abbrev pub with_params : UpdateScheduleParams → Schedule → Schedule
with_params params existing = record existing {
  schedule_type = given_or existing.schedule_type params.schedule_type;
  expression = given_or existing.expression params.expression;
  timezone = given_or existing.timezone params.timezone;
  enabled = given_or existing.enabled params.enabled;
}

-- `update_schedule`
unfoldable pub update_domain_schedule :
    Machine → (now : ℕ) → UpdateScheduleParams → Service Schedule
update_domain_schedule m now params = do
  old ← get_domain_schedule m now params.schedule_id
  let existing = with_params params old
  pure (validate_expression m.table existing.schedule_type existing.expression)
  next_run_at ← pure (
      if changed_timing params old
      then next_if existing.enabled m existing.schedule_type existing.expression existing.timezone
          now
      else found existing.next_run_at)
  query m (
      update_schedule (record {
        schedule_id = existing.schedule_id;
        profile_id = existing.profile_id;
        schedule_type = schedule_type_text existing.schedule_type;
        expression = existing.expression;
        timezone = timezone_text existing.timezone;
        enabled = existing.enabled;
        next_run_at = write_time m next_run_at;
        last_run_at = write_time m existing.last_run_at;
        last_status = existing.last_status;
        last_error_code = existing.last_error_code;
        created_at = m.to_rfc3339 existing.created_at;
        updated_at = m.to_rfc3339 now;
      }))
  notify_one
  get_domain_schedule m now existing.schedule_id

-- `delete_schedule`
unfoldable pub delete_domain_schedule : Machine → Text → Service Bool
delete_domain_schedule m id = do
  deleted ← query m (delete_schedule id)
  (if deleted then notify_one else return tt)
  return deleted

abbrev only_enabled : Text → Bool → UpdateScheduleParams
only_enabled id enabled = record {
  schedule_id = id;
  schedule_type = none;
  expression = none;
  timezone = none;
  enabled = some enabled;
}

-- `enable_schedule`
abbrev pub enable_schedule : Machine → ℕ → Text → Service Schedule
enable_schedule m now id = update_domain_schedule m now (only_enabled id true)

-- `disable_schedule`
abbrev pub disable_schedule : Machine → ℕ → Text → Service Schedule
disable_schedule m now id = update_domain_schedule m now (only_enabled id false)

-- `get_history`
abbrev pub get_history : Machine → Text → ℕ → Service (List ScheduleHistoryRecord)
get_history m id limit = query m (list_schedule_history id limit)
