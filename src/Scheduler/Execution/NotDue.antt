-- ===== src/Scheduler/Execution/NotDue.antt =====
-- One execution of a schedule (crates/televault-scheduler/src/service.rs) and when it is due again.
use televault.Scheduler.Guard.{database}
use televault.Scheduler.Clock.{found, failed, panicked, out_of_fuel}
use televault.Scheduler.Types.{interval, daily, weekly, cron, utc}
use televault.Scheduler.Guard.{SchedulerError, ExecutionGuard, ProfileGuard, try_acquire, database}
use televault.Scheduler.Clock.{day_ns, Calendar, Weekdays, Outcome, found, failed}
use televault.Scheduler.Types.{ScheduleType, Schedule, interval, daily, weekly, cron, utc}
use televault.Db.Catalog.{DbError, ProfileRecord, ScheduleRecord, with_transaction}
use televault.Scheduler.NextRun.{validate_expression}
use televault.Db.Table.{update_where, count, any, first}
use televault.Db.Profiles.{get_profile}
use televault.Db.Schedules.{
  is_schedule, not_after, is_due, update_schedule_status, record_schedule_history,
}
use televault.Retention.Engine.{db_error_text}
use televault.Scheduler.Records.{Machine}
use televault.Scheduler.Service.{next_run}
use televault.Scheduler.Effects.{ServiceState, Service, quietly}
use televault.Scheduler.Execution.{
  Occasion, record_status, next_of, history_entry, run_guarded, skip_busy, skip_disabled, released,
  on_acquired, for_profile, execute_single_scheduled_backup,
}
use televault.Scheduler.NextRun.Accepted.{Answer, calculate_next_run-Answer}
use televault.Prelude.{
  ℕ, ◌+◌, ◌*◌, ◌≤◌, ◌<◌, Ordering, ◌≡◌, refl, sym, ap, ◌∙◌, subst, ◌⊎◌, inl, inr, Bool, false, ◌&&◌,
  Option, none, some, List, [], ◌∷◌, arith, ◌==◌, Bool-cases, if_split, Text, compare_text, Result,
  ok, err, Result-cases,
}

-- A row under an identifier is due by a time.
abbrev pub due_row : Text → Text → ScheduleRecord → Bool
due_row max id r = is_schedule id r && is_due max r

module _ (max id : Text) where
  any-update_where :
      (f : ScheduleRecord → ScheduleRecord) (t : List ScheduleRecord)
      → ((r : ScheduleRecord) → due_row max id (f r) ≡ false)
      → any (due_row max id) (update_where (is_schedule id) f t) ≡ false
  unfolding any update_where
  any-update_where f [] h = refl
  any-update_where f (r ∷ t) h =
      let first =
        if_split (λ (x : ScheduleRecord). due_row max id x ≡ false) (is_schedule id r) {x = f r}
          {y = r} (λ k. h r) (λ k. rw k refl) in
      rw first (any-update_where f t h)

  any-count :
      (t : List ScheduleRecord) → count (is_schedule id) t ≡ 0 → any (due_row max id) t ≡ false
  unfolding any count
  any-count [] h = refl
  any-count (r ∷ t) h = ground (arith, any-count t)

-- The times of the calculations are later ones.
later_run :
    (table : ℕ → Text) (cal : Calendar) (type : ScheduleType) (expr : Text) (from_utc t : ℕ)
    → Answer table cal type expr from_utc (found t)
    → from_utc < t
later_run table cal interval expr from_utc t (secs, e, b, inl (h, k)) = ground arith
later_run table cal interval expr from_utc t (secs, e, b, inr (h, k)) = ground arith
later_run table cal daily expr from_utc t (time, e, n) = n.0
later_run table cal weekly expr from_utc t (time, e, n) = n.0
later_run table cal cron expr from_utc t (matcher, e, n) = n.0

-- Nothing under an identifier is due by a time.
abbrev pub NoneDue : Text → Text → ServiceState → Type 0
NoneDue max id s = any (due_row max id) s.db.schedules ≡ false

record_status-NoneDue :
    (max : Text) (o : Occasion) (schedule : Schedule) (next last status code : Option Text)
    (s : ServiceState)
    → not_after max next ≡ false
    → NoneDue max schedule.schedule_id (record_status o schedule next last status code s).1
unfolding update_schedule_status with_transaction
record_status-NoneDue max o schedule next last status code s h =
    elim (Bool-cases (count (is_schedule schedule.schedule_id) s.db.schedules == 0)) [
      | inl k ↦ rw k (any-count max schedule.schedule_id s.db.schedules (ground arith))
      | inr k ↦
          rw k
            (any-update_where max schedule.schedule_id _ s.db.schedules (λ r. rw h (ground arith)))
    ]

-- How an execution ends: with an error of the database, or with nothing due.
abbrev pub Rescheduled : Machine → Text → Text → Outcome (Option Text) × ServiceState → Type 0
Rescheduled m max id r =
    ((e : DbError) × (r.0 ≡ failed (database (db_error_text m.sql_text e)))) ⊎ NoneDue max id r.1

-- The text of an instant comes after that of another.
abbrev Follows : Machine → ℕ → ℕ → Type 0
Follows m a b = compare_text (m.to_rfc3339 b) (m.to_rfc3339 a) ≡ Ordering.gt

released_db :
    (token : ProfileGuard) (r : Outcome (Option Text) × ServiceState)
    → (released token r).1.db ≡ r.1.db
released_db token (found a, s) = refl
released_db token (failed e, s) = refl
released_db token (panicked, s) = refl
released_db token (out_of_fuel, s) = refl

module _ (m : Machine) (o : Occasion) (schedule : Schedule) (n l : ℕ)
    (now_next : next_of m schedule o.now ≡ found n) (later_now : Follows m o.now n)
    (after_next : next_of m schedule o.after ≡ found l) (later_after : Follows m o.now l) where
  abbrev Ends : Outcome (Option Text) × ServiceState → Type 0
  Ends = Rescheduled m (m.to_rfc3339 o.now) schedule.schedule_id

  not_after_later :
      (t : ℕ) → Follows m o.now t → not_after (m.to_rfc3339 o.now) (some (m.to_rfc3339 t)) ≡ false
  not_after_later t h = rw (not_after, h) refl

  skip_busy-Ends : (s : ServiceState) → Ends (skip_busy m o schedule s)
  unfolding skip_busy
  skip_busy-Ends s = rw now_next (
      inr (
        record_status-NoneDue (m.to_rfc3339 o.now) o schedule (some (m.to_rfc3339 n)) _ _ _ s
          (not_after_later n later_now)))

  skip_disabled-Ends : (s : ServiceState) → Ends (skip_disabled m o schedule s)
  unfolding skip_disabled
  skip_disabled-Ends s = rw now_next (
      inr (
        record_status-NoneDue (m.to_rfc3339 o.now) o schedule (some (m.to_rfc3339 n)) _ _ _ s
          (not_after_later n later_now)))

  run_guarded-Ends :
      (p : ProfileRecord) (s : ServiceState)
      → NoneDue (m.to_rfc3339 o.now) schedule.schedule_id (run_guarded m o schedule p s).1
  unfolding run_guarded
  run_guarded-Ends p s =
      let ran = o.run_backup p s.db in
      let noted =
        quietly (record_schedule_history (history_entry m o schedule ran.0))
          (record s { db = ran.1 }) in
      rw after_next (
        record_status-NoneDue (m.to_rfc3339 o.now) o schedule (some (m.to_rfc3339 l)) _ _ _ noted.1
          (not_after_later l later_after))

  on_acquired-Ends :
      (p : ProfileRecord) (s : ServiceState)
      (r : Result SchedulerError ProfileGuard × ExecutionGuard)
      → Ends (on_acquired m o schedule p s r)
  on_acquired-Ends p s (ok token, g) =
      let ran = run_guarded m o schedule p (record s { execution_guard = g }) in
      inr (
        subst (λ db. any (due_row (m.to_rfc3339 o.now) schedule.schedule_id) db.schedules ≡ false)
          (sym (released_db token ran)) (run_guarded-Ends p (record s { execution_guard = g })))
  on_acquired-Ends p s (err e, g) = skip_busy-Ends (record s { execution_guard = g })

  for_profile-Ends :
      (p : Option ProfileRecord) (s : ServiceState) → Ends (for_profile m o schedule p s)
  unfolding for_profile
  for_profile-Ends none s =
      inr (record_status-NoneDue (m.to_rfc3339 o.now) o schedule none _ _ _ s refl)
  for_profile-Ends (some p) s =
      if_split (λ (f : Service (Option Text)). Ends (f s)) p.enabled
        (λ h. on_acquired-Ends p s (try_acquire s.execution_guard schedule.profile_id))
        (λ h. skip_disabled-Ends s)

  execute-Ends : (s : ServiceState) → Ends (execute_single_scheduled_backup m o schedule s)
  unfolding execute_single_scheduled_backup
  execute-Ends s = elim (Result-cases (with_transaction (get_profile schedule.profile_id) s.db).0) [
    | inl (a, h) ↦ rw h (for_profile-Ends a _)
    | inr (e, h) ↦ rw h (inl (e, refl))
  ]

-- With weekdays that follow each other, a calendar that reaches 1833 days on, and a range of instants
-- (chrono's years 0 to 9999) whose texts stand in their order: for a schedule in UTC whose expression
-- is accepted and has a next run after the start of the execution and after its end, which is not
-- before its start, all within the range, an execution ends with an error of the database in reading
-- the profile, or leaves no row of the schedule that is due at its start, whether the backup ended
-- well or badly, or the profile was busy, disabled or gone.
pub execute_single-Rescheduled :
    (m : Machine) (o : Occasion) (schedule : Schedule) (first last n l : ℕ)
    → Weekdays m.calendar
    → o.after + 1833 * day_ns ≤ m.calendar.last
    → ((a b : ℕ)
        → first ≤ a
        → a < b
        → b ≤ last
        → compare_text (m.to_rfc3339 b) (m.to_rfc3339 a) ≡ Ordering.gt)
    → first ≤ o.now
    → n ≤ last
    → l ≤ last
    → o.now ≤ o.after
    → schedule.timezone ≡ utc
    → validate_expression m.table schedule.schedule_type schedule.expression ≡ found tt
    → next_of m schedule o.now ≡ found n
    → next_of m schedule o.after ≡ found l
    → (s : ServiceState)
    → Rescheduled m
        (m.to_rfc3339 o.now)
        schedule.schedule_id
        (execute_single_scheduled_backup m o schedule s)
execute_single-Rescheduled m o schedule first last n l law room ordered begins n_in l_in order zone
      accepted e f s =
    let answer = λ (t : ℕ) (k : t + 1833 * day_ns ≤ m.calendar.last).
      calculate_next_run-Answer m.fuel m.table m.zone m.calendar schedule.schedule_type
        schedule.expression t law k accepted in
    let later =
      λ (t u : ℕ) (k : t + 1833 * day_ns ≤ m.calendar.last) (g : next_of m schedule t ≡ found u).
        later_run m.table m.calendar schedule.schedule_type schedule.expression t u (
          subst (Answer m.table m.calendar schedule.schedule_type schedule.expression t)
            (sym (ap (λ z. next_run m schedule.schedule_type schedule.expression z t) zone) ∙ g)
            (answer t k)) in
    let a = later o.now n (omega arith) e in
    let b = later o.after l room f in
    execute-Ends m o schedule n l e (ordered o.now n begins a n_in) f
      (ordered o.now l begins (omega arith) l_in) s
