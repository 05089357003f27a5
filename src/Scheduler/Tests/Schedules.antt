-- ===== src/Scheduler/Tests/Schedules.antt =====
-- Schedule expressions and next runs on concrete inputs.
use televault.Scheduler.Clock.{found, panicked, out_of_fuel, single, ambiguous}
use televault.Scheduler.Types.{weekly, utc}
use televault.Scheduler.Clock.{
  minute_ns, hour_ns, day_ns, Calendar, Weekdays, Zone, later, next_date, found, panicked,
  out_of_fuel, single, ambiguous,
}
use televault.Scheduler.Types.{weekly, utc}
use televault.Prelude.Parsing.{
  split, has_char, split_whitespace, strip_prefix, to_lowercase, digits, parse_u32, set_insert,
  set_contains,
}
use televault.Scheduler.Expression.{
  daily_parts, parse_daily_time, parse_weekday, weekly_parts, parse_weekly_time,
}
use televault.Scheduler.NextRun.{validate_expression, weekly_utc, weekly_local, calculate_next_run}
use televault.Scheduler.NextRun.Accepted.{Answer, calculate_next_run-Answer}
use televault.Scheduler.NextRun.Local.{NoSingle, weekly_local_other_day}
use televault.Scheduler.Cron.{
  insert_range, insert_steps, item_steps, item_range, item_value, plain_item, insert_item,
  insert_items, parse_cron_field, CronMatcher, normalize_dow, parse_fields, parse_cron,
}
use televault.Scheduler.Cron.Search.{
  day_fits, hour_fits, lookahead, advance_utc, search_utc, find_next_utc, local_start,
  find_next_local,
}
use televault.Scheduler.Cron.Next.{IsFirst, first_minute, find_next_utc-IsFirst}
use televault.Scheduler.Cron.Local.{find_next_local_panics, find_next_local_loops}
use televault.Scheduler.Cron.Valid.{CronIsValid, parse_cron-IsValid}
use televault.Prelude.{
  trim_start, the, ℕ, suc, ◌+◌, ◌-◌, ◌*◌, ◌/◌, ◌%◌, ◌^◌, ◌≡◌, refl, ◌≢◌, true, false, [], ◌∷◌,
  arith, ltb, if◌then◌else◌, Text, text, text_eq, decimal, trim,
}

-- A calendar of months of 30 days, and lower case that leaves other characters alone.
abbrev pub even : Calendar
even = record {
  month = λ (d : ℕ). suc (d / 30 % 12);
  day = λ (d : ℕ). suc (d % 30);
  weekday = λ (d : ℕ). d % 7;
  last = 10 ^ 24;
}

pub even-Weekdays : Weekdays even
even-Weekdays d = omega arith

abbrev pub keep_case : ℕ → Text
keep_case c = c ∷ []

-- A zone whose clock goes back by some time at an instant.
abbrev goes_back : (by at : ℕ) → Zone
goes_back by at = record {
  to_local = λ (t : ℕ). if ltb t at then t + by else t;
  from_local = λ (n : ℕ).
      if ltb n at
      then single (n - by)
      else if ltb n (at + by)
      then ambiguous (n - by) n
      else single n;
}

abbrev pub by_an_hour : Zone
by_an_hour = goes_back hour_ns (10 * day_ns + hour_ns)

abbrev by_half_an_hour : Zone
by_half_an_hour = goes_back (30 * minute_ns) (10 * day_ns + 90 * minute_ns)

pub sunday_accepted : validate_expression keep_case weekly (text " sun@03:00 ") ≡ found tt
unfolding validate_expression parse_weekly_time weekly_parts parse_weekday parse_daily_time
    daily_parts has_char trim split to_lowercase parse_u32 digits
sunday_accepted = refl

calculate_next_run-Answer_example :
    Answer keep_case even weekly
      (text " sun@03:00 ")
      (4 * day_ns)
      (calculate_next_run 0 keep_case by_an_hour even weekly (text " sun@03:00 ") utc (4 * day_ns))
calculate_next_run-Answer_example =
    calculate_next_run-Answer 0 keep_case by_an_hour even weekly (text " sun@03:00 ") (4 * day_ns)
      even-Weekdays (omega arith) sunday_accepted

-- The seventh day is the next Sunday.
pub sunday_runs :
    calculate_next_run 0 keep_case by_an_hour even weekly (text " sun@03:00 ") utc (4 * day_ns)
    ≡ found (7 * day_ns + 3 * hour_ns)
unfolding calculate_next_run parse_weekly_time weekly_parts has_char trim split parse_weekday
    to_lowercase parse_daily_time daily_parts parse_u32 digits weekly_utc next_date
sunday_runs = refl

abbrev at_five : CronMatcher
at_five = record {
  minutes = 0 ∷ [];
  hours = 5 ∷ [];
  days_of_month = 11 ∷ [];
  months = 1 ∷ [];
  days_of_week = 3 ∷ [];
}

parses_cron :
    parse_cron (text "*/30,7 0-2 11 1,02 7")
    ≡ found (record {
      minutes = 0 ∷ 7 ∷ 30 ∷ [];
      hours = 0 ∷ 1 ∷ 2 ∷ [];
      days_of_month = 11 ∷ [];
      months = 1 ∷ 2 ∷ [];
      days_of_week = 0 ∷ [];
    })
unfolding parse_cron parse_fields split_whitespace parse_cron_field insert_items split insert_item
    trim plain_item strip_prefix item_steps parse_u32 digits insert_steps has_char item_value
    set_insert item_range decimal text_eq trim_start insert_range normalize_dow
parses_cron = refl

find_next_utc-IsFirst_example :
    IsFirst even at_five
      (9 * day_ns)
      (first_minute (9 * day_ns) + lookahead)
      (find_next_utc even at_five (9 * day_ns))
find_next_utc-IsFirst_example = find_next_utc-IsFirst even at_five (9 * day_ns) (omega arith)

parse_cron-IsValid_example : CronIsValid (parse_cron (text "*/30,7 0-2 11 1,02 7"))
parse_cron-IsValid_example = parse_cron-IsValid (text "*/30,7 0-2 11 1,02 7")

finds_five : find_next_utc even at_five (9 * day_ns) ≡ found (10 * day_ns + 5 * hour_ns)
unfolding find_next_utc later search_utc day_fits set_contains advance_utc next_date hour_fits
finds_five = refl

abbrev by_hour_start : ℕ
by_hour_start = by_an_hour.to_local (local_start by_an_hour (10 * day_ns - minute_ns) + minute_ns)

by_hour_day : day_fits even at_five by_hour_start ≡ true
unfolding day_fits set_contains
by_hour_day = refl

by_hour_misses : hour_fits at_five by_hour_start ≡ false
unfolding hour_fits set_contains
by_hour_misses = refl

abbrev by_half_start : ℕ
by_half_start =
    by_half_an_hour.to_local
      (local_start by_half_an_hour (10 * day_ns + 29 * minute_ns) + minute_ns)

by_half_day : day_fits even at_five by_half_start ≡ true
unfolding day_fits set_contains
by_half_day = refl

by_half_misses : hour_fits at_five by_half_start ≡ false
unfolding hour_fits set_contains
by_half_misses = refl

find_next_local_panics_example :
    find_next_local 9 by_an_hour even at_five (10 * day_ns - minute_ns) ≡ panicked
find_next_local_panics_example =
    find_next_local_panics by_an_hour even at_five (10 * day_ns - minute_ns) (omega arith)
      by_hour_day by_hour_misses (10 * day_ns) (10 * day_ns + hour_ns) 8 refl

find_next_local_loops_example :
    find_next_local 9 by_half_an_hour even at_five (10 * day_ns + 29 * minute_ns) ≡ out_of_fuel
find_next_local_loops_example =
    find_next_local_loops by_half_an_hour even at_five (10 * day_ns + 29 * minute_ns) (omega arith)
      by_half_day by_half_misses 9 refl

no_single : NoSingle by_an_hour even 3 (hour_ns + 30 * minute_ns) 4
no_single i b h = rw (the (i ≡ 6) (omega arith)) refl

weekly_local_other_day_example :
    (weekly_local 7 by_an_hour even 3 (hour_ns + 30 * minute_ns) (4 * day_ns) 4
      ≡ found (11 * day_ns + hour_ns + 30 * minute_ns))
    × (even.weekday (7 + 4) ≢ 3)
weekly_local_other_day_example =
    weekly_local_other_day by_an_hour even 3 (hour_ns + 30 * minute_ns) (4 * day_ns)
      (11 * day_ns + hour_ns + 30 * minute_ns) even-Weekdays (omega arith) no_single (omega arith)
      refl
