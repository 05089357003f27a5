-- ===== src/Scheduler/Interval.antt =====
-- crates/televault-scheduler/src/expression.rs: reading the length of an interval. `table` is the lower
-- case beyond ASCII.
use televault.Scheduler.Guard.{SchedulerError}
use televault.Prelude.Parsing.{to_lowercase, parse_i64}
use televault.Prelude.Int.{ℤ, pos, negsuc, is_nonpositive}
use televault.Scheduler.Clock.{Outcome, ◌>>=◌, attempt, unwrap}
use televault.Scheduler.Expression.{invalid}
use televault.Prelude.{
  trim, is_empty, ℕ, suc, ◌-◌, ◌*◌, ◌%◌, ◌^◌, Option, none, some, [], ◌∷◌, ◌++◌, ltb, if◌then◌else◌,
  Text, text, text_eq, Result, ok,
}

-- A product of two `i64`s, the first positive, as the processor leaves it.
abbrev wrap_i64 : ℕ → ℤ
wrap_i64 n = let w = n % 2 ^ 64 in if ltb w (2 ^ 63) then pos w else negsuc (2 ^ 64 - 1 - w)

unfoldable pub in_seconds : Text → Text → ℕ → Result SchedulerError ℤ
unfolding text_eq
in_seconds s unit val =
    if text_eq unit (text "s")
    then ok (pos val)
    else if text_eq unit (text "m")
    then ok (wrap_i64 (val * 60))
    else if text_eq unit (text "h")
    then ok (wrap_i64 (val * 3600))
    else if text_eq unit (text "d")
    then ok (wrap_i64 (val * 86400))
    else invalid (
        text "Unknown interval unit '"
        ++ (unit ++ (text "' in '" ++ (s ++ text "'. Supported: s, m, h, d"))))

-- `split_at(len - 1)`: the last character apart, where it is one byte.
unfoldable pub split_last : Text → Option (Text × ℕ)
split_last [] = none
split_last (c ∷ []) = if ltb c 128 then some ([], c) else none
split_last (c ∷ d ∷ s) = elim (split_last (d ∷ s)) [ none ↦ none | some p ↦ some (c ∷ p.0, p.1) ]

abbrev value_of : Text → Option ℤ → Result SchedulerError ℕ
value_of s none = invalid (text "Invalid numeric value in interval expression '" ++ (s ++ text "'"))
value_of s (some (pos (suc n))) = ok (suc n)
value_of s (some _) = invalid (text "Interval value must be positive")

unfoldable pub with_unit : (ℕ → Text) → Text → Outcome ℤ
with_unit table s = do
  parts ← unwrap (split_last s)
  val ← attempt (value_of s (parse_i64 (trim parts.0)))
  attempt (in_seconds s (to_lowercase table (parts.1 ∷ [])) val)

unfoldable pub in_plain_seconds : (ℕ → Text) → Text → Option ℤ → Outcome ℤ
in_plain_seconds table s none = with_unit table s
in_plain_seconds table s (some secs) =
    attempt (
      if is_nonpositive secs
      then invalid (text "Interval in seconds must be positive")
      else ok secs)

-- `parse_interval_seconds`
unfoldable pub parse_interval_seconds : (ℕ → Text) → Text → Outcome ℤ
parse_interval_seconds table expr =
    let s = trim expr in
    if is_empty s
    then attempt (invalid (text "Interval expression cannot be empty"))
    else in_plain_seconds table s (parse_i64 s)
