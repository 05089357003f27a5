-- ===== src/Scheduler/Clock.antt =====
-- What the schedules take from chrono: instants, the calendar, the time zone of the machine, and
-- computations that may panic.
use televault.Scheduler.Guard.{SchedulerError}
use televault.Prelude.{
  ℕ, suc, ◌+◌, ◌-◌, ◌*◌, ◌/◌, ◌%◌, ◌<◌, ◌≡◌, Option, none, some, leb, if◌then◌else◌, Result, ok,
  err,
}

abbrev pub minute_ns : ℕ
minute_ns = 60000000000

abbrev pub hour_ns : ℕ
hour_ns = 3600000000000

abbrev pub day_ns : ℕ
day_ns = 86400000000000

-- The Gregorian calendar of chrono, by the number of the day, and the last instant that it has.
-- `weekday` counts from Sunday.
pub record Calendar : Type 0 where
  pub month : ℕ → ℕ
  pub day : ℕ → ℕ
  pub weekday : ℕ → ℕ
  pub last : ℕ

-- The weekdays follow each other.
abbrev pub Weekdays : Calendar → Type 0
Weekdays cal = (d : ℕ) → (cal.weekday d < 7) × (cal.weekday (suc d) ≡ (cal.weekday d + 1) % 7)

-- `chrono::LocalResult`
pub data LocalResult : Type 0 where
  absent : LocalResult
  single : ℕ → LocalResult
  ambiguous : (earliest latest : ℕ) → LocalResult

-- The time zone of the machine: the local time of an instant, and the instants of a local time.
pub record Zone : Type 0 where
  pub to_local : ℕ → ℕ
  pub from_local : ℕ → LocalResult

-- `LocalResult::single`
abbrev pub only : LocalResult → Option ℕ
only absent = none
only (single t) = some t
only (ambiguous earliest latest) = none

-- What a computation comes to. A loop on fuel may run out of it.
pub data Outcome (A : Type 0) : Type 0 where
  found : A → Outcome A
  failed : SchedulerError → Outcome A
  panicked : Outcome A
  out_of_fuel : Outcome A

infixl 5 ◌>>=◌
abbrev pub ◌>>=◌ : {A B : Type 0} → Outcome A → (A → Outcome B) → Outcome B
found a >>= rest = rest a
failed e >>= rest = failed e
panicked >>= rest = panicked
out_of_fuel >>= rest = out_of_fuel

-- `?` on a `Result`.
abbrev pub attempt : {A : Type 0} → Result SchedulerError A → Outcome A
attempt (ok a) = found a
attempt (err e) = failed e

-- `ok_or_else(..)?`
abbrev pub ok_or : {A : Type 0} → SchedulerError → Option A → Outcome A
ok_or e none = failed e
ok_or e (some a) = found a

-- `unwrap`
abbrev pub unwrap : {A : Type 0} → Option A → Outcome A
unwrap none = panicked
unwrap (some a) = found a

abbrev pub unwrap_or : {A : Type 0} → A → Option A → A
unwrap_or d none = d
unwrap_or d (some a) = a

-- A later instant or date; chrono panics where it cannot represent it.
unfoldable pub later : Calendar → ℕ → ℕ → Outcome ℕ
later cal t d = if leb (t + d) cal.last then found (t + d) else panicked

-- `date_naive`, as the number of the day, and `and_time` with no seconds.
abbrev pub date : ℕ → ℕ
date t = t / day_ns

abbrev pub and_time : ℕ → ℕ → ℕ → ℕ
and_time d h m = d * day_ns + h * hour_ns + m * minute_ns

abbrev pub hour : ℕ → ℕ
hour t = t / hour_ns % 24

abbrev pub minute : ℕ → ℕ
minute t = t / minute_ns % 60

-- `with_second(0)`, `with_nanosecond(0)` and `with_minute(0)` of a time without a zone.
abbrev pub with_second_0 : ℕ → ℕ
with_second_0 t = t - t / 1000000000 % 60 * 1000000000

abbrev pub with_nanosecond_0 : ℕ → ℕ
with_nanosecond_0 t = t - t % 1000000000

abbrev pub with_minute_0 : ℕ → ℕ
with_minute_0 t = t - minute t * minute_ns

-- The day after a date.
unfoldable pub next_date : Calendar → ℕ → Outcome ℕ
next_date cal d = if leb (suc d * day_ns) cal.last then found (suc d) else panicked

-- A change to the local time of an instant, for which chrono wants the only instant of the result.
abbrev pub map_local : Zone → (ℕ → ℕ) → ℕ → Option ℕ
map_local zone f t = only (zone.from_local (f (zone.to_local t)))
