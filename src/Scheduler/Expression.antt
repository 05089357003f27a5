-- ===== src/Scheduler/Expression.antt =====
-- crates/televault-scheduler/src/expression.rs: reading the expressions of daily and weekly schedules.
-- `table` is the lower case beyond ASCII.
use televault.Scheduler.Guard.{invalid_expression}
use televault.Scheduler.Guard.{SchedulerError}
use televault.Prelude.Parsing.{split, has_char, to_lowercase, parse_u32, two_digits}
use televault.Prelude.{
  trim, ℕ, not, ◌||◌, Option, none, some, List, [], ◌∷◌, ◌++◌, ltb, if◌then◌else◌, Text, text,
  text_eq, Result, ok, err, ◌>>=◌, ◌>>◌, guard,
}

-- An expression that cannot be read.
abbrev pub invalid : {A : Type 0} → Text → Result SchedulerError A
invalid message = err (invalid_expression message)

-- `Weekday` of chrono.
pub data Weekday : Type 0 where
  mon tue wed thu fri sat sun : Weekday

-- `num_days_from_sunday`
abbrev pub num_days_from_sunday : Weekday → ℕ
num_days_from_sunday sun = 0
num_days_from_sunday mon = 1
num_days_from_sunday tue = 2
num_days_from_sunday wed = 3
num_days_from_sunday thu = 4
num_days_from_sunday fri = 5
num_days_from_sunday sat = 6

abbrev number_or : Text → Option ℕ → Result SchedulerError ℕ
number_or message none = invalid message
number_or message (some n) = ok n

unfoldable pub daily_parts : Text → List Text → Result SchedulerError (ℕ × ℕ)
daily_parts expr (h ∷ m ∷ []) = do
  hour ←
      number_or (text "Invalid hour in daily expression: '" ++ (h ++ text "'")) (parse_u32 (trim h))
  minute ←
      number_or (text "Invalid minute in daily expression: '" ++ (m ++ text "'"))
        (parse_u32 (trim m))
  guard (not (ltb 23 hour || ltb 59 minute)) (
      invalid_expression (
        text "Daily time out of range: hour must be 0-23, minute 0-59 (got "
        ++ (two_digits hour ++ (text ":" ++ (two_digits minute ++ text ")")))))
  ok (hour, minute)
daily_parts expr _ = invalid (
    text "Daily time must be in 'HH:MM' 24-hour format (e.g. '02:00'), found: '"
    ++ (expr ++ text "'"))

-- `parse_daily_time`
unfoldable pub parse_daily_time : Text → Result SchedulerError (ℕ × ℕ)
parse_daily_time expr = daily_parts expr (split b':' (trim expr))

-- `parse_weekday`
unfoldable pub parse_weekday : (ℕ → Text) → Text → Result SchedulerError Weekday
unfolding text_eq
parse_weekday table s =
    let other = to_lowercase table (trim s) in
    let reads = λ (short long : Text). text_eq other short || text_eq other long in
    if reads (text "mon") (text "monday")
    then ok mon
    else if reads (text "tue") (text "tuesday")
    then ok tue
    else if reads (text "wed") (text "wednesday")
    then ok wed
    else if reads (text "thu") (text "thursday")
    then ok thu
    else if reads (text "fri") (text "friday")
    then ok fri
    else if reads (text "sat") (text "saturday")
    then ok sat
    else if reads (text "sun") (text "sunday")
    then ok sun
    else invalid
        (text "Unknown weekday '" ++ (other ++ text "'. Expected Monday..Sunday or Mon..Sun"))

abbrev weekly_format : Text → Text
weekly_format s =
    text "Weekly time must be in 'Weekday@HH:MM' format (e.g. 'Sun@03:00'), found: '"
    ++ (s ++ text "'")

unfoldable pub weekly_parts :
    (ℕ → Text) → Text → List Text → Result SchedulerError (Weekday × ℕ × ℕ)
weekly_parts table s (w ∷ t ∷ []) = do
  weekday ← parse_weekday table (trim w)
  time ← parse_daily_time (trim t)
  ok (weekday, time.0, time.1)
weekly_parts table s _ = invalid (weekly_format s)

-- `parse_weekly_time`
unfoldable pub parse_weekly_time : (ℕ → Text) → Text → Result SchedulerError (Weekday × ℕ × ℕ)
parse_weekly_time table expr =
    let s = trim expr in
    if has_char b'@' s
    then weekly_parts table s (split b'@' s)
    else if has_char b' ' s
    then weekly_parts table s (split b' ' s)
    else invalid (weekly_format s)
