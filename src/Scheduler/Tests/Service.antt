-- ===== src/Scheduler/Tests/Service.antt =====
-- The scheduler's service on one schedule for every Sunday.
use televault.Scheduler.Clock.{found}
use televault.Scheduler.Types.{weekly, utc, running}
use televault.Db.Catalog.{SqlError}
use televault.Scheduler.Clock.{hour_ns, day_ns, found}
use televault.Scheduler.Types.{Schedule, CreateScheduleParams, weekly, utc, running}
use televault.Db.Catalog.{SqlError, ProfileRecord, ScheduleRecord, Catalog}
use televault.Scheduler.Guard.{new_guard}
use televault.Core.Validation.{validate_identifier_string, new_id}
use televault.Scheduler.Service.Created.{create_domain_schedule-Created}
use televault.Scheduler.Service.Wanted.{Refused, Reason, Created}
use televault.Db.Integrity.Operations.{new_catalog}
use televault.Prelude.Keyed.{contains}
use televault.Scheduler.Records.{Machine}
use televault.Scheduler.Service.{start, stop, create_domain_schedule}
use televault.Scheduler.Effects.{ServiceState, new_service, ◌>>◌}
use televault.Scheduler.Execution.{BackupSummary, Occasion, execute_single_scheduled_backup}
use televault.Scheduler.Execution.NotDue.{Rescheduled, execute_single-Rescheduled}
use televault.Scheduler.Execution.Guarded.{Restored, execute_single-Guarded}
use televault.Scheduler.Loop.{Encounter, sleep_duration, scheduler_round, broken}
use televault.Scheduler.Loop.Sleep.{sleep_duration_timely}
use televault.Scheduler.Loop.Restart.{start_after_stop}
use televault.Scheduler.Tests.Schedules.{
  even, even-Weekdays, keep_case, by_an_hour, sunday_accepted, sunday_runs,
}
use televault.Prelude.{
  ℕ, ◌+◌, ◌-◌, ◌*◌, ◌≤◌, ◌<◌, Ordering, ◌≡◌, refl, ◌⊎◌, true, false, none, some, [], ◌∷◌, ◌++◌,
  arith, Text, text, compare_text, Result, ok, err, find_bad, trim, trim_start, byte_len,
}

-- An instant is written as one character.
abbrev machine : Machine
machine = record {
  fuel = 0;
  table = keep_case;
  zone = by_an_hour;
  calendar = even;
  to_rfc3339 = λ (t : ℕ). t ∷ [];
  parse_from_rfc3339 = λ (s : Text). elim s [ [] ↦ none | t ∷ rest ↦ some t ];
  sql_text = λ (e : SqlError). text "SQL error";
}

abbrev one_profile : ProfileRecord
one_profile = record {
  profile_id = text "p1";
  name = text "Documents";
  description = none;
  source_path = text "/home";
  enabled = true;
  created_at = text "1";
  updated_at = text "1";
}

abbrev sunday_row : ScheduleRecord
sunday_row = record {
  schedule_id = text "s1";
  profile_id = text "p1";
  schedule_type = text "weekly";
  expression = text " sun@03:00 ";
  timezone = text "utc";
  enabled = true;
  next_run_at = some (4 * day_ns ∷ []);
  last_run_at = none;
  last_status = some (text "idle");
  last_error_code = none;
  created_at = 1 ∷ [];
  updated_at = 1 ∷ [];
}

abbrev sundays : Schedule
sundays = record {
  schedule_id = text "s1";
  profile_id = text "p1";
  schedule_type = weekly;
  expression = text " sun@03:00 ";
  timezone = utc;
  enabled = true;
  next_run_at = some (4 * day_ns);
  last_run_at = none;
  last_status = some (text "idle");
  last_error_code = none;
  created_at = 1;
  updated_at = 1;
}

abbrev serving : ServiceState
serving =
    record (new_service
      (record new_catalog { profiles = one_profile ∷ []; schedules = sunday_row ∷ [] })) {
        status = running;
        has_task = true;
      }

-- The backup fails at once.
abbrev occasion : Occasion
occasion = record {
  now = 4 * day_ns;
  completed_at = 4 * day_ns;
  after = 4 * day_ns;
  unix_seconds = text "345600";
  stamp = text "1a";
  run_backup = λ (p : ProfileRecord) (db : Catalog). (err (text "Source missing"), db);
}

ordered_texts :
    (a b : ℕ) → a < b → compare_text (machine.to_rfc3339 b) (machine.to_rfc3339 a) ≡ Ordering.gt
unfolding compare_text
ordered_texts a b h = ground arith

execute_single-Rescheduled_example :
    Rescheduled machine
      (4 * day_ns ∷ [])
      (text "s1")
      (execute_single_scheduled_backup machine occasion sundays serving)
execute_single-Rescheduled_example =
    execute_single-Rescheduled machine occasion sundays 0 (10 * day_ns) (7 * day_ns + 3 * hour_ns)
      (7 * day_ns + 3 * hour_ns) even-Weekdays (omega arith) (λ a b z h y. ordered_texts a b h)
      (omega arith) (omega arith) (omega arith) (omega arith) refl sunday_accepted sunday_runs
      sunday_runs serving

execute_single-Guarded_example :
    Restored new_guard
      (text "p1")
      (execute_single_scheduled_backup machine occasion sundays serving)
    × ((contains [] (text "p1") ≡ false) × (false ≡ false)
        ⊎ ((run : ProfileRecord → Catalog → Result Text BackupSummary × Catalog)
            → execute_single_scheduled_backup machine
                (record occasion { run_backup = run })
                sundays
                serving
              ≡ execute_single_scheduled_backup machine occasion sundays serving))
execute_single-Guarded_example = execute_single-Guarded machine occasion sundays serving

-- Five seconds before Sunday's run.
sleep_duration_timely_example :
    let d = sleep_duration machine (4 * day_ns - 5000000000) ([] ++ sunday_row ∷ []) in
    (1 ≤ d) × (d ≤ 60) × ((d ≡ 1) ⊎ (d * 1000000000 ≤ 4 * day_ns - (4 * day_ns - 5000000000)))
sleep_duration_timely_example =
    sleep_duration_timely machine (4 * day_ns - 5000000000) [] [] sunday_row (4 * day_ns) refl refl
      (omega arith)

abbrev met : ℕ → Encounter
met n = record { is_cancelled = false; occasion = occasion }

start_after_stop_example :
    let again = ((stop >> start) serving).1 in
    (again.status ≡ running)
    × (again.has_task ≡ true)
    × (scheduler_round machine (4 * day_ns) met again ≡ (found broken, again))
start_after_stop_example = start_after_stop machine serving (4 * day_ns) met

abbrev sunday_params : CreateScheduleParams
sunday_params = record {
  schedule_id = some (text "s2");
  profile_id = text "p1";
  schedule_type = weekly;
  expression = text " sun@03:00 ";
  timezone = some utc;
  enabled = none;
}

schedule_named : new_id (text "Schedule") (text "s2") ≡ ok (text "s2")
unfolding new_id validate_identifier_string trim trim_start byte_len find_bad
schedule_named = refl

profile_named : new_id (text "Profile") (text "p1") ≡ ok (text "p1")
unfolding new_id validate_identifier_string trim trim_start byte_len find_bad
profile_named = refl

create_domain_schedule-Created_example :
    (Refused serving (create_domain_schedule machine (4 * day_ns) (text "1a") sunday_params serving)
      × Reason machine (4 * day_ns) (text "s2") sunday_params serving.db)
    ⊎ Created machine
        (4 * day_ns)
        (text "s2")
        sunday_params
        serving
        (create_domain_schedule machine (4 * day_ns) (text "1a") sunday_params serving)
create_domain_schedule-Created_example =
    create_domain_schedule-Created machine (4 * day_ns) (text "1a") (text "s2") sunday_params
      serving refl schedule_named profile_named refl (λ t run. refl)
