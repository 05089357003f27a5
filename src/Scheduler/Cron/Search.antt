-- ===== src/Scheduler/Cron/Search.antt =====
-- crates/televault-scheduler/src/expression.rs: `CronMatcher::find_next_utc` and `find_next_local`.
-- Each round of the search in UTC moves on by a minute at least, so that the minutes of the horizon
-- are rounds enough.
use televault.Scheduler.Guard.{invalid_expression}
use televault.Scheduler.Clock.{found, failed, out_of_fuel, absent, single, ambiguous}
use televault.Scheduler.Guard.{SchedulerError}
use televault.Prelude.Parsing.{set_contains}
use televault.Scheduler.Clock.{
  minute_ns, hour_ns, day_ns, Calendar, LocalResult, Zone, Outcome, ◌>>=◌, unwrap, unwrap_or, later,
  date, and_time, hour, minute, with_second_0, with_nanosecond_0, with_minute_0, next_date,
  map_local,
}
use televault.Scheduler.Cron.{CronMatcher}
use televault.Prelude.{
  ℕ, zero, suc, ◌*◌, Bool, not, ◌&&◌, Option, none, some, ◌++◌, ltb, if◌then◌else◌, Text, text,
}

-- The day of a time, and the time itself, fit the expression.
unfoldable pub day_fits : Calendar → CronMatcher → ℕ → Bool
day_fits cal m t =
    set_contains (cal.month (date t)) m.months
    && set_contains (cal.day (date t)) m.days_of_month
    && set_contains (cal.weekday (date t)) m.days_of_week

unfoldable pub hour_fits : CronMatcher → ℕ → Bool
hour_fits m t = set_contains (hour t) m.hours

abbrev pub fits : Calendar → CronMatcher → ℕ → Bool
fits cal m t = day_fits cal m t && hour_fits m t && set_contains (minute t) m.minutes

abbrev pub lookahead : ℕ
lookahead = 1830 * day_ns

abbrev pub no_match : Text → SchedulerError
no_match what =
    invalid_expression
      (text "No matching future " ++ (what ++ text " found for cron expression within horizon"))

-- Where the search goes from a time that does not fit.
unfoldable pub advance_utc : Calendar → CronMatcher → ℕ → Outcome ℕ
advance_utc cal m current =
    if not (day_fits cal m current)
    then next_date cal (date current) >>= (λ (d : ℕ). found (and_time d 0 0))
    else if not (hour_fits m current)
    then later cal current hour_ns >>= (λ (t : ℕ). found (with_minute_0 t))
    else later cal current minute_ns

unfoldable pub search_utc : ℕ → Calendar → CronMatcher → ℕ → ℕ → Outcome ℕ
search_utc zero cal m limit current = out_of_fuel
search_utc (suc fuel) cal m limit current =
    let rest = advance_utc cal m current >>= (λ (t : ℕ). search_utc fuel cal m limit t) in
    if ltb current limit
    then (if fits cal m current then found current else rest)
    else failed (no_match (text "time"))

abbrev pub horizon_rounds : ℕ
horizon_rounds = suc (1830 * 1440)

-- `CronMatcher::find_next_utc`
unfoldable pub find_next_utc : Calendar → CronMatcher → ℕ → Outcome ℕ
find_next_utc cal m from_utc = do
  start ← later cal (with_nanosecond_0 (with_second_0 from_utc)) minute_ns
  limit ← later cal start lookahead
  search_utc horizon_rounds cal m limit start

abbrev midnight_or : LocalResult → Outcome ℕ → Outcome ℕ
midnight_or absent other = other
midnight_or (single t) other = found t
midnight_or (ambiguous earliest latest) other = other

unfoldable pub advance_local : Zone → Calendar → CronMatcher → ℕ → Outcome ℕ
advance_local zone cal m current =
    let here = zone.to_local current in
    if not (day_fits cal m here)
    then next_date cal (date here)
      >>= (λ (d : ℕ). midnight_or (zone.from_local (and_time d 0 0)) (later cal current hour_ns))
    else if not (hour_fits m here)
    then later cal current hour_ns >>= (λ (t : ℕ). unwrap (map_local zone with_minute_0 t))
    else later cal current minute_ns

unfoldable pub search_local : ℕ → Zone → Calendar → CronMatcher → ℕ → ℕ → Outcome ℕ
search_local zero zone cal m limit current = out_of_fuel
search_local (suc fuel) zone cal m limit current =
    let rest =
      advance_local zone cal m current >>= (λ (t : ℕ). search_local fuel zone cal m limit t) in
    if ltb current limit
    then (if fits cal m (zone.to_local current) then found current else rest)
    else failed (no_match (text "local time"))

abbrev and_then : Option ℕ → (ℕ → Option ℕ) → Option ℕ
and_then none f = none
and_then (some t) f = f t

abbrev pub local_start : Zone → ℕ → ℕ
local_start zone from_utc =
    unwrap_or from_utc
      (and_then (map_local zone with_second_0 from_utc) (map_local zone with_nanosecond_0))

-- `CronMatcher::find_next_local`
unfoldable pub find_next_local : ℕ → Zone → Calendar → CronMatcher → ℕ → Outcome ℕ
find_next_local fuel zone cal m from_utc = do
  start ← later cal (local_start zone from_utc) minute_ns
  limit ← later cal start lookahead
  search_local fuel zone cal m limit start
