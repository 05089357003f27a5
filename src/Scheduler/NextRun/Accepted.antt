-- ===== src/Scheduler/NextRun/Accepted.antt =====
-- The next run in UTC of a schedule whose expression `validate_expression` accepts.
use televault.Scheduler.Clock.{found, failed, panicked, out_of_fuel}
use televault.Scheduler.Types.{interval, daily, weekly, cron, utc}
use televault.Prelude.Int.{ℤ, pos, negsuc}
use televault.Scheduler.Guard.{SchedulerError}
use televault.Scheduler.Clock.{
  minute_ns, hour_ns, day_ns, Calendar, Weekdays, Zone, Outcome, ◌>>=◌, attempt, later, found,
  panicked,
}
use televault.Scheduler.Types.{ScheduleType, interval, daily, weekly, cron, utc}
use televault.Prelude.Int.{ℤ, pos, negsuc}
use televault.Prelude.Int.{ℤ, pos, negsuc}
use televault.Scheduler.Expression.{
  Weekday, num_days_from_sunday, daily_parts, parse_daily_time, weekly_parts, parse_weekly_time,
}
use televault.Prelude.Int.{ℤ, pos, negsuc}
use televault.Prelude.Parsing.{split}
use televault.Scheduler.NextRun.{
  validate_expression, after_seconds, from_hms_opt, calculate_next_run, is_short,
}
use televault.Prelude.Int.{pos}
use televault.Scheduler.NextRun.Utc.{IsNext, AtTime, OnWeekday, daily_utc-IsNext, weekly_utc-IsNext}
use televault.Scheduler.Cron.{CronMatcher, parse_cron}
use televault.Scheduler.Cron.Search.{lookahead}
use televault.Scheduler.Cron.Next.{IsFirst, first_minute, find_next_utc-IsFirst}
use televault.Scheduler.Interval.{parse_interval_seconds}
use televault.Prelude.{
  the, ℕ, ◌+◌, ◌*◌, ◌/◌, ◌≤◌, ◌<◌, ◌≡◌, refl, ◌⊎◌, false, some, List, [], ◌∷◌, arith, Text, Result,
  ok, err, trim,
}

abbrev clock : ℕ → ℕ → ℕ
clock h m = h * hour_ns + m * minute_ns

-- What the next run after an instant is, for each type of schedule.
abbrev pub Answer : (ℕ → Text) → Calendar → ScheduleType → Text → ℕ → Outcome ℕ → Type 0
Answer table cal interval expr from_utc r =
    (secs : ℕ) × (parse_interval_seconds table expr ≡ found (pos secs))
    × (60 ≤ secs)
    × ((r ≡ found (from_utc + secs * 1000000000)) × (from_utc + secs * 1000000000 ≤ cal.last)
        ⊎ (r ≡ panicked) × (cal.last < from_utc + secs * 1000000000 ⊎ 9223372036854775 < secs))
Answer table cal daily expr from_utc r =
    (time : ℕ × ℕ) × (parse_daily_time expr ≡ ok time)
    × IsNext (AtTime (time.0 * hour_ns + time.1 * minute_ns)) from_utc r
Answer table cal weekly expr from_utc r =
    (time : Weekday × ℕ × ℕ) × (parse_weekly_time table expr ≡ ok time)
    × IsNext (OnWeekday cal (num_days_from_sunday time.0) (time.1 * hour_ns + time.2 * minute_ns))
        from_utc r
Answer table cal cron expr from_utc r =
    (m : CronMatcher) × (parse_cron expr ≡ found m)
    × IsFirst cal m from_utc (first_minute from_utc + lookahead) r

-- A time that is read is one of the clock.
daily_parts_bounds :
    (expr : Text) (parts : List Text) (h m : ℕ)
    → daily_parts expr parts ≡ ok (h, m)
    → (h < 24) × (m < 60)
unfolding daily_parts
daily_parts_bounds expr [] h m e = ground arith
daily_parts_bounds expr (p ∷ []) h m e = ground arith
daily_parts_bounds expr (p ∷ q ∷ r ∷ parts) h m e = ground arith
daily_parts_bounds expr (p ∷ q ∷ []) h m e = ground arith

parse_daily_time_bounds :
    (expr : Text) (h m : ℕ) → parse_daily_time expr ≡ ok (h, m) → (h < 24) × (m < 60)
unfolding parse_daily_time
parse_daily_time_bounds expr h m e = daily_parts_bounds expr (split b':' (trim expr)) h m e

weekly_parts_bounds :
    (table : ℕ → Text) (s : Text) (parts : List Text) (w : Weekday) (h m : ℕ)
    → weekly_parts table s parts ≡ ok (w, h, m)
    → (h < 24) × (m < 60)
unfolding weekly_parts
weekly_parts_bounds table s [] w h m e = ground arith
weekly_parts_bounds table s (p ∷ []) w h m e = ground arith
weekly_parts_bounds table s (p ∷ q ∷ r ∷ parts) w h m e = ground arith
weekly_parts_bounds table s (p ∷ q ∷ []) w h m e =
    ground (arith, parse_daily_time_bounds (trim q) h m)

parse_weekly_time_bounds :
    (table : ℕ → Text) (expr : Text) (w : Weekday) (h m : ℕ)
    → parse_weekly_time table expr ≡ ok (w, h, m)
    → (h < 24) × (m < 60)
unfolding parse_weekly_time
parse_weekly_time_bounds table expr w h m e =
    let s = trim expr in
    ground (
      arith,
      weekly_parts_bounds table s (split b'@' s) w h m,
      weekly_parts_bounds table s (split b' ' s) w h m,
    )

clock-lt : (h m : ℕ) → h < 24 → m < 60 → clock h m < day_ns
clock-lt h m a b = omega arith

num_days_from_sunday-lt : (w : Weekday) → num_days_from_sunday w < 7
num_days_from_sunday-lt w = ground arith

from_hms_opt-some : (h m : ℕ) → h < 24 → m < 60 → from_hms_opt h m ≡ some (clock h m)
from_hms_opt-some h m a b = ground arith

module _ (fuel : ℕ) (table : ℕ → Text) (zone : Zone) (cal : Calendar) (law : Weekdays cal)
    (expr : Text) (from_utc : ℕ) (room : from_utc + 1833 * day_ns ≤ cal.last) where
  run_daily :
      (h m : ℕ)
      → parse_daily_time expr ≡ ok (h, m)
      → IsNext
          (AtTime (clock h m))
          from_utc
          (calculate_next_run fuel table zone cal daily expr utc from_utc)
  unfolding calculate_next_run
  run_daily h m e =
      let b = parse_daily_time_bounds expr h m e in
      rw e (
        rw (from_hms_opt-some h m b.0 b.1)
          (daily_utc-IsNext cal (clock h m) from_utc (clock-lt h m b.0 b.1) (omega arith)))

  run_weekly :
      (w : Weekday) (h m : ℕ)
      → parse_weekly_time table expr ≡ ok (w, h, m)
      → IsNext
          (OnWeekday cal (num_days_from_sunday w) (clock h m))
          from_utc
          (calculate_next_run fuel table zone cal weekly expr utc from_utc)
  unfolding calculate_next_run
  run_weekly w h m e =
      let b = parse_weekly_time_bounds table expr w h m e in
      rw e (
        rw (from_hms_opt-some h m b.0 b.1) (
          rw (the (from_utc / day_ns ≡ 0 + from_utc / day_ns) (omega arith)) (
            weekly_utc-IsNext cal law (num_days_from_sunday w) (clock h m) from_utc
              (num_days_from_sunday-lt w) (clock-lt h m b.0 b.1) (omega arith) 7 0 (omega arith)
              (λ s a c e. omega arith, λ i a c. omega arith))))

  after_seconds_cases :
      (n : ℕ)
      → ((after_seconds cal from_utc (pos n) ≡ found (from_utc + n * 1000000000))
          × (from_utc + n * 1000000000 ≤ cal.last))
        ⊎ ((after_seconds cal from_utc (pos n) ≡ panicked)
            × (cal.last < from_utc + n * 1000000000 ⊎ 9223372036854775 < n))
  unfolding after_seconds later
  after_seconds_cases n = ground arith

  run_interval :
      (z : ℤ)
      → parse_interval_seconds table expr ≡ found z
      → is_short z ≡ false
      → Answer table cal interval expr from_utc
          (calculate_next_run fuel table zone cal interval expr utc from_utc)
  unfolding calculate_next_run
  run_interval (negsuc n) e h = ground arith
  run_interval (pos n) e h = rw e (n, refl, ground arith, after_seconds_cases n)

-- Where a chain finds something, its first step does.
Outcome-first :
    {A B : Type 0} (r : Outcome A) (rest : A → Outcome B) {end : B}
    → (r >>= rest) ≡ found end
    → (a : A) × (r ≡ found a) × (rest a ≡ found end)
Outcome-first (found a) rest h = (a, refl, h)
Outcome-first (failed e) rest h = ground arith
Outcome-first panicked rest h = ground arith
Outcome-first out_of_fuel rest h = ground arith

attempt-found : {A : Type 0} (r : Result SchedulerError A) {a : A} → attempt r ≡ found a → r ≡ ok a
attempt-found (ok b) h = ground arith
attempt-found (err e) h = ground arith

run_cron :
    (fuel : ℕ) (table : ℕ → Text) (zone : Zone) (cal : Calendar) (expr : Text) (from_utc : ℕ)
    → from_utc + 1833 * day_ns ≤ cal.last
    → (m : CronMatcher) → parse_cron expr ≡ found m
    → IsFirst cal m from_utc
        (first_minute from_utc + lookahead)
        (calculate_next_run fuel table zone cal cron expr utc from_utc)
unfolding calculate_next_run
run_cron fuel table zone cal expr from_utc room m e =
    rw e (find_next_utc-IsFirst cal m from_utc (omega arith))

-- With weekdays that follow each other and a calendar that reaches 1833 days on, an expression that is
-- accepted has a next run in UTC: for an interval, at least 60 seconds on, by the length that is read,
-- with a panic where that is beyond what chrono represents; for a daily or weekly schedule, the first
-- later instant at its time, on its weekday; for a cron expression, the first later whole minute that
-- fits it, or an error if there is none within the horizon.
pub calculate_next_run-Answer :
    (fuel : ℕ) (table : ℕ → Text) (zone : Zone) (cal : Calendar) (type : ScheduleType) (expr : Text)
    (from_utc : ℕ)
    → Weekdays cal
    → from_utc + 1833 * day_ns ≤ cal.last
    → validate_expression table type expr ≡ found tt
    → Answer table cal type expr from_utc
        (calculate_next_run fuel table zone cal type expr utc from_utc)
unfolding validate_expression
calculate_next_run-Answer fuel table zone cal interval expr from_utc law room h =
    let read = Outcome-first (parse_interval_seconds table expr) _ h in
    run_interval fuel table zone cal law expr from_utc room read.0 read.1 (ground arith)
calculate_next_run-Answer fuel table zone cal daily expr from_utc law room h =
    let read = Outcome-first (attempt (parse_daily_time expr)) _ h in
    let e = attempt-found (parse_daily_time expr) read.1 in
    (read.0, e, run_daily fuel table zone cal law expr from_utc room read.0.0 read.0.1 e)
calculate_next_run-Answer fuel table zone cal weekly expr from_utc law room h =
    let read = Outcome-first (attempt (parse_weekly_time table expr)) _ h in
    let e = attempt-found (parse_weekly_time table expr) read.1 in
    (read.0, e, run_weekly fuel table zone cal law expr from_utc room read.0.0 read.0.1 read.0.2 e)
calculate_next_run-Answer fuel table zone cal cron expr from_utc law room h =
    let read = Outcome-first (parse_cron expr) _ h in
    (read.0, read.1, run_cron fuel table zone cal expr from_utc room read.0 read.1)
