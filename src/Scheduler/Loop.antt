-- ===== src/Scheduler/Loop.antt =====
-- crates/televault-scheduler/src/service.rs: one round of `run_scheduler_loop`. Where an execution
-- panics, so does the task of the loop.
pub mod Sleep
pub mod Restart
use televault.Scheduler.Clock.{found, failed, panicked, out_of_fuel}
use televault.Scheduler.Types.{running}
use televault.Scheduler.Guard.{SchedulerError}
use televault.Scheduler.Clock.{Outcome}
use televault.Scheduler.Types.{Schedule}
use televault.Db.Catalog.{DbError, ScheduleRecord, Query, with_transaction}
use televault.Db.Schedules.{list_schedules, list_due_schedules}
use televault.Scheduler.Records.{Machine, read_time, record_to_domain}
use televault.Scheduler.Effects.{ServiceState, Service, and_then, ◌>>◌, return}
use televault.Scheduler.Execution.{Occasion, execute_single_scheduled_backup}
use televault.Prelude.{
  ℕ, suc, ◌-◌, ◌/◌, Bool, Option, none, some, List, [], ◌∷◌, ltb, leb, if◌then◌else◌, Text, Result,
  ok, err,
}

-- What the loop meets at its n-th due schedule: the cancellation token, and the execution.
pub record Encounter : Type 0 where
  pub is_cancelled : Bool
  pub occasion : Occasion

-- `let _ = execute_single_scheduled_backup(..);`, for a record that can be read.
abbrev pub tried : Outcome (Option Text) × ServiceState → Outcome (Unit {0}) × ServiceState
tried (found id, s) = (found tt, s)
tried (failed e, s) = (found tt, s)
tried (panicked, s) = (panicked, s)
tried (out_of_fuel, s) = (out_of_fuel, s)

abbrev pub execute_due : Machine → Occasion → Result SchedulerError Schedule → Service (Unit {0})
execute_due m o (err e) s = (found tt, s)
execute_due m o (ok schedule) s = tried (execute_single_scheduled_backup m o schedule s)

-- `for record in due_schedules`
unfoldable pub process_due :
    Machine → (ℕ → Encounter) → ℕ → List ScheduleRecord → Service (Unit {0})
process_due m meet n [] = return tt
process_due m meet n (r ∷ rs) =
    let rest = process_due m meet (suc n) rs in
    if (meet n).is_cancelled
    then return tt
    else execute_due m (meet n).occasion (record_to_domain m (meet n).occasion.now r) >> rest

-- The earliest next run after `now` among the enabled schedules.
abbrev pub sooner : Option ℕ → ℕ → Option ℕ
sooner none t = some t
sooner (some prev) t = some (if leb prev t then prev else t)

abbrev pub future_run : Machine → ℕ → ScheduleRecord → Option ℕ
future_run m now s =
    if s.enabled
    then elim (read_time m s.next_run_at) [
      | none ↦ none
      | some t ↦ if ltb now t then some t else none
    ]
    else none

abbrev pub consider : Option ℕ → Option ℕ → Option ℕ
consider earliest none = earliest
consider earliest (some t) = sooner earliest t

unfoldable pub earliest_future : Machine → ℕ → Option ℕ → List ScheduleRecord → Option ℕ
earliest_future m now earliest [] = earliest
earliest_future m now earliest (s ∷ ss) =
    earliest_future m now (consider earliest (future_run m now s)) ss

-- `(diff.max(1) as u64).min(60)` seconds
abbrev pub clamp : ℕ → ℕ
clamp diff = if ltb 60 diff then 60 else if ltb diff 1 then 1 else diff

abbrev pub seconds_until : ℕ → Option ℕ → ℕ
seconds_until now none = 60
seconds_until now (some t) = clamp ((t - now) / 1000000000)

unfoldable pub sleep_duration : Machine → ℕ → List ScheduleRecord → ℕ
sleep_duration m now schedules = seconds_until now (earliest_future m now none schedules)

-- How a round ends: the loop breaks, waits for 100 ms or a notification, or for some seconds or one.
pub data Round : Type 0 where
  broken : Round
  idled : Round
  slept : ℕ → Round

abbrev or_empty : Result DbError (List ScheduleRecord) → List ScheduleRecord
or_empty (ok rows) = rows
or_empty (err e) = []

abbrev listed : {A : Type 0} → Query A → ServiceState → Result DbError A
listed q s = (with_transaction q s.db).0

abbrev pause : Machine → ℕ → Result DbError (List ScheduleRecord) → ℕ
pause m now (ok rows) = sleep_duration m now rows
pause m now (err e) = 60

abbrev round_end : Machine → ℕ → Unit {0} → Service Round
round_end m now u s = (found (slept (pause m now (listed list_schedules s))), s)

-- One round at the time `now`.
unfoldable pub scheduler_round : Machine → ℕ → (ℕ → Encounter) → Service Round
scheduler_round m now meet s = if s.is_cancelled then (found broken, s) else elim s.status [
  | running ↦
      and_then (round_end m now)
        (process_due m meet 0 (or_empty (listed (list_due_schedules (m.to_rfc3339 now)) s)) s)
  | _ ↦ (found idled, s)
]
