-- ===== src/Scheduler/NextRun.antt =====
-- crates/televault-scheduler/src/expression.rs: `validate_expression` and `calculate_next_run`.
pub mod Utc
pub mod Accepted
pub mod Local
use televault.Scheduler.Guard.{invalid_expression, invalid_schedule}
use televault.Scheduler.Clock.{found, failed, panicked, absent, single, ambiguous}
use televault.Scheduler.Types.{interval, daily, weekly, cron, local, utc}
use televault.Prelude.Int.{ℤ, pos, negsuc}
use televault.Scheduler.Guard.{SchedulerError}
use televault.Scheduler.Clock.{
  minute_ns, hour_ns, day_ns, Calendar, LocalResult, Zone, only, Outcome, ◌>>=◌, attempt, ok_or,
  unwrap, later, date, next_date,
}
use televault.Scheduler.Types.{ScheduleType, TimezoneStrategy}
use televault.Scheduler.Expression.{
  Weekday, num_days_from_sunday, parse_daily_time, parse_weekly_time,
}
use televault.Scheduler.Interval.{parse_interval_seconds}
use televault.Scheduler.Cron.{CronMatcher, parse_cron}
use televault.Scheduler.Cron.Search.{find_next_utc, find_next_local}
use televault.Prelude.{
  ℕ, zero, suc, ◌+◌, ◌-◌, ◌*◌, Bool, true, ◌&&◌, Option, none, some, ltb, leb, ◌==◌, if◌then◌else◌,
  Text, text,
}

-- `secs < 60`
abbrev is_short : ℤ → Bool
is_short (pos n) = ltb n 60
is_short (negsuc n) = true

-- `validate_expression`
unfoldable pub validate_expression : (ℕ → Text) → ScheduleType → Text → Outcome (Unit {0})
validate_expression table interval expr = do
  secs ← parse_interval_seconds table expr
  (if is_short secs
      then failed (invalid_expression (text "Minimum interval is 60 seconds (1 minute)"))
      else found tt)
validate_expression table daily expr =
    attempt (parse_daily_time expr) >>= (λ (time : ℕ × ℕ). found tt)
validate_expression table weekly expr =
    attempt (parse_weekly_time table expr) >>= (λ (time : Weekday × ℕ × ℕ). found tt)
validate_expression table cron expr = parse_cron expr >>= (λ (matcher : CronMatcher). found tt)

-- `Duration::seconds`, which panics beyond i64::MAX milliseconds, and the sum with an instant.
unfoldable pub after_seconds : Calendar → ℕ → ℤ → Outcome ℕ
after_seconds cal t (pos n) =
    if leb n 9223372036854775 then later cal t (n * 1000000000) else panicked
after_seconds cal t (negsuc n) =
    if ltb n 9223372036854775 && leb (suc n * 1000000000) t
    then found (t - suc n * 1000000000)
    else panicked

-- `NaiveTime::from_hms_opt(h, m, 0)`, as the nanoseconds of the day.
abbrev pub from_hms_opt : ℕ → ℕ → Option ℕ
from_hms_opt h m = if ltb h 24 && ltb m 60 then some (h * hour_ns + m * minute_ns) else none

abbrev pub on_day : ℕ → ℕ → ℕ
on_day d time = d * day_ns + time

unfoldable pub daily_utc : Calendar → ℕ → ℕ → Outcome ℕ
daily_utc cal target_time from_utc =
    let target_dt = on_day (date from_utc) target_time in
    if ltb from_utc target_dt
    then found target_dt
    else next_date cal (date from_utc) >>= (λ (d : ℕ). found (on_day d target_time))

abbrev dst_error : SchedulerError
dst_error = invalid_schedule (text "Ambiguous DST transition")

-- The instant of a local time: the earlier of two, and an hour later where there is none.
unfoldable pub resolve_local : Zone → Calendar → ℕ → LocalResult → Outcome ℕ
resolve_local zone cal candidate (single dt) = found dt
resolve_local zone cal candidate (ambiguous earliest latest) = found earliest
resolve_local zone cal candidate absent =
    later cal candidate hour_ns >>= (λ (c : ℕ). ok_or dst_error (only (zone.from_local c)))

unfoldable pub daily_local : Zone → Calendar → ℕ → ℕ → Outcome ℕ
daily_local zone cal target_time from_utc = do
  let from_date = date (zone.to_local from_utc)
  let candidate = on_day from_date target_time
  candidate_local ← resolve_local zone cal candidate (zone.from_local candidate)
  (if ltb from_utc candidate_local
      then found candidate_local
      else next_date cal from_date >>= (λ (d : ℕ).
        resolve_local zone cal (on_day d target_time) (zone.from_local (on_day d target_time))))

-- The days are tried one by one, with the count of those left.
unfoldable pub weekly_utc : ℕ → Calendar → ℕ → ℕ → ℕ → ℕ → Outcome ℕ
weekly_utc zero cal target target_time from_utc current = found (on_day current target_time)
weekly_utc (suc n) cal target target_time from_utc current =
    let candidate = on_day current target_time in
    let rest =
      next_date cal current >>= (λ (d : ℕ). weekly_utc n cal target target_time from_utc d) in
    if cal.weekday current == target && ltb from_utc candidate then found candidate else rest

-- The instant of a day's candidate, where there is one only, and it lies ahead.
abbrev ahead : ℕ → LocalResult → Option ℕ
ahead from_utc absent = none
ahead from_utc (single dt) = if ltb from_utc dt then some dt else none
ahead from_utc (ambiguous earliest latest) = none

abbrev found_or : Option ℕ → Outcome ℕ → Outcome ℕ
found_or none rest = rest
found_or (some dt) rest = found dt

unfoldable pub weekly_local : ℕ → Zone → Calendar → ℕ → ℕ → ℕ → ℕ → Outcome ℕ
weekly_local zero zone cal target target_time from_utc current =
    ok_or (invalid_schedule (text "Invalid local time for weekly schedule"))
      (only (zone.from_local (on_day current target_time)))
weekly_local (suc n) zone cal target target_time from_utc current =
    let rest =
      next_date cal current
      >>= (λ (d : ℕ). weekly_local n zone cal target target_time from_utc d) in
    if cal.weekday current == target
    then found_or (ahead from_utc (zone.from_local (on_day current target_time))) rest
    else rest

-- `calculate_next_run`. The fuel is for the search in local time.
unfoldable pub calculate_next_run :
    ℕ → (ℕ → Text) → Zone → Calendar → ScheduleType → Text → TimezoneStrategy → ℕ → Outcome ℕ
calculate_next_run fuel table zone cal interval expr tz from_utc = do
  secs ← parse_interval_seconds table expr
  after_seconds cal from_utc secs
calculate_next_run fuel table zone cal daily expr utc from_utc = do
  time ← attempt (parse_daily_time expr)
  target_time ← unwrap (from_hms_opt time.0 time.1)
  daily_utc cal target_time from_utc
calculate_next_run fuel table zone cal daily expr local from_utc = do
  time ← attempt (parse_daily_time expr)
  target_time ← unwrap (from_hms_opt time.0 time.1)
  daily_local zone cal target_time from_utc
calculate_next_run fuel table zone cal weekly expr utc from_utc = do
  time ← attempt (parse_weekly_time table expr)
  target_time ← unwrap (from_hms_opt time.1 time.2)
  weekly_utc 7 cal (num_days_from_sunday time.0) target_time from_utc (date from_utc)
calculate_next_run fuel table zone cal weekly expr local from_utc = do
  time ← attempt (parse_weekly_time table expr)
  target_time ← unwrap (from_hms_opt time.1 time.2)
  weekly_local 7 zone cal (num_days_from_sunday time.0) target_time from_utc
      (date (zone.to_local from_utc))
calculate_next_run fuel table zone cal cron expr utc from_utc = do
  matcher ← parse_cron expr
  find_next_utc cal matcher from_utc
calculate_next_run fuel table zone cal cron expr local from_utc = do
  matcher ← parse_cron expr
  find_next_local fuel zone cal matcher from_utc
