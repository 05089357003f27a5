-- ===== src/Scheduler/Records.antt =====
-- crates/televault-scheduler/src/service.rs: what the service takes from its surroundings, and a
-- schedule read from its database record.
use televault.Db.Catalog.{SqlError}
use televault.Scheduler.Guard.{SchedulerError}
use televault.Scheduler.Clock.{Calendar, Zone}
use televault.Scheduler.Types.{read_schedule_type, read_timezone, Schedule}
use televault.Db.Catalog.{SqlError, ScheduleRecord}
use televault.Prelude.{ℕ, Option, none, some, List, [], ◌∷◌, Text, Result, ok, ◌>>=◌}

-- The rules and the calendar that the calculations take, how instants are written and read, and the
-- printed forms of SQL errors.
pub record Machine : Type 0 where
  pub fuel : ℕ
  pub table : ℕ → Text
  pub zone : Zone
  pub calendar : Calendar
  pub to_rfc3339 : ℕ → Text
  pub parse_from_rfc3339 : Text → Option ℕ
  pub sql_text : SqlError → Text

abbrev pub read_time : Machine → Option Text → Option ℕ
read_time m none = none
read_time m (some s) = m.parse_from_rfc3339 s

abbrev pub time_or : ℕ → Option ℕ → ℕ
time_or now none = now
time_or now (some t) = t

abbrev pub write_time : Machine → Option ℕ → Option Text
write_time m none = none
write_time m (some t) = some (m.to_rfc3339 t)

-- `record_to_domain`, at the time `now`.
unfoldable pub record_to_domain : Machine → ℕ → ScheduleRecord → Result SchedulerError Schedule
record_to_domain m now r = do
  schedule_type ← read_schedule_type m.table r.schedule_type
  timezone ← read_timezone m.table r.timezone
  ok (record {
    schedule_id = r.schedule_id;
    profile_id = r.profile_id;
    schedule_type = schedule_type;
    expression = r.expression;
    timezone = timezone;
    enabled = r.enabled;
    next_run_at = read_time m r.next_run_at;
    last_run_at = read_time m r.last_run_at;
    last_status = r.last_status;
    last_error_code = r.last_error_code;
    created_at = time_or now (m.parse_from_rfc3339 r.created_at);
    updated_at = time_or now (m.parse_from_rfc3339 r.updated_at);
  })

unfoldable pub domain_all :
    Machine → ℕ → List ScheduleRecord → Result SchedulerError (List Schedule)
domain_all m now [] = ok []
domain_all m now (r ∷ rs) = do
  s ← record_to_domain m now r
  rest ← domain_all m now rs
  ok (s ∷ rest)
