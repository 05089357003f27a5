-- ===== src/Scheduler/Cron.antt =====
-- crates/televault-scheduler/src/expression.rs: cron expressions, and the search for the next instant
-- that fits one. A `BTreeSet<u32>` is the list of its members in order.
pub mod Search
pub mod Next
pub mod Field
pub mod Valid
pub mod Local
use televault.Scheduler.Guard.{invalid_expression}
use televault.Scheduler.Clock.{found, failed, out_of_fuel}
use televault.Prelude.Parsing.{
  split, has_char, split_whitespace, strip_prefix, parse_u32, set_insert,
}
use televault.Scheduler.Clock.{Outcome, ◌>>=◌, ok_or}
use televault.Prelude.{
  trim, ℕ, zero, suc, ◌+◌, ◌-◌, ◌%◌, ◌^◌, ◌||◌, Option, none, some, List, [], ◌∷◌, ◌++◌, ltb, leb,
  ◌==◌, if◌then◌else◌, Text, text, text_eq, decimal,
}

-- `for v in v..=..`, with the count of values left.
unfoldable pub insert_range : ℕ → ℕ → List ℕ → List ℕ
insert_range zero v values = values
insert_range (suc n) v values = insert_range n (suc v) (set_insert v values)

-- `while v <= max`: the addition wraps around at 32 bits.
unfoldable pub insert_steps : ℕ → (step max v : ℕ) → List ℕ → Outcome (List ℕ)
insert_steps zero step max v values = out_of_fuel
insert_steps (suc fuel) step max v values =
    let rest = insert_steps fuel step max ((v + step) % 2 ^ 32) (set_insert v values) in
    if leb v max then rest else found values

-- The rounds that the loop over steps can take.
abbrev step_rounds : ℕ → ℕ
step_rounds max = max + 3

abbrev in_field : Text → Text
in_field name = text " in cron " ++ (name ++ text " field")

abbrev number : Text → Text → Text → Option ℕ → Outcome ℕ
number what s name n =
    ok_or (invalid_expression (what ++ text " '" ++ (s ++ (text "'" ++ in_field name)))) n

unfoldable pub item_steps : (min max : ℕ) → Text → Text → List ℕ → Outcome (List ℕ)
item_steps min max name step_str values = do
  step ← number (text "Invalid step") step_str name (parse_u32 step_str)
  (if step == 0
      then failed (invalid_expression (text "Step cannot be 0" ++ in_field name))
      else insert_steps (step_rounds max) step max min values)

abbrev bounds : ℕ → ℕ → Text
bounds min max =
    text "' out of bounds (" ++ (decimal min ++ (text ".." ++ (decimal max ++ text ")")))

unfoldable pub item_range : (min max : ℕ) → Text → Text → List Text → List ℕ → Outcome (List ℕ)
item_range min max name item (a ∷ b ∷ []) values = do
  start ← number (text "Invalid range start") a name (parse_u32 a)
  end ← number (text "Invalid range end") b name (parse_u32 b)
  (if ltb end start || ltb start min || ltb max end
      then failed (
          invalid_expression (
            text "Range '"
            ++ (decimal start ++ (text "-" ++ (decimal end ++ (bounds min max ++ in_field name))))))
      else found (insert_range (suc end - start) start values))
item_range min max name item _ values =
    failed (invalid_expression (text "Invalid range '" ++ (item ++ (text "'" ++ in_field name))))

unfoldable pub item_value : (min max : ℕ) → Text → Text → List ℕ → Outcome (List ℕ)
item_value min max name item values = do
  val ← number (text "Invalid value") item name (parse_u32 item)
  (if ltb val min || ltb max val
      then failed (
          invalid_expression (text "Value '" ++ (decimal val ++ (bounds min max ++ in_field name))))
      else found (set_insert val values))

-- An item that is no star.
unfoldable pub plain_item : (min max : ℕ) → Text → Text → Option Text → List ℕ → Outcome (List ℕ)
plain_item min max name item (some step_str) values = item_steps min max name step_str values
plain_item min max name item none values =
    if has_char b'-' item
    then item_range min max name item (split b'-' item) values
    else item_value min max name item values

unfoldable pub insert_item : (min max : ℕ) → Text → Text → List ℕ → Outcome (List ℕ)
unfolding text_eq
insert_item min max name item values =
    if text_eq item (text "*")
    then found (insert_range (suc max - min) min values)
    else plain_item min max name item (strip_prefix (text "*/") item) values

-- The loop over the items of a list.
unfoldable pub insert_items : (min max : ℕ) → Text → List Text → List ℕ → Outcome (List ℕ)
insert_items min max name [] values = found values
insert_items min max name (item ∷ items) values = do
  values' ← insert_item min max name (trim item) values
  insert_items min max name items values'

abbrev not_empty : Text → List ℕ → Outcome (List ℕ)
not_empty name [] =
    failed (invalid_expression (text "Empty values for cron " ++ (name ++ text " field")))
not_empty name (v ∷ values) = found (v ∷ values)

-- `parse_cron_field`
unfoldable pub parse_cron_field : Text → (min max : ℕ) → Text → Outcome (List ℕ)
parse_cron_field field min max name = do
  values ← insert_items min max name (split b',' field) []
  not_empty name values

pub record CronMatcher : Type 0 where
  pub minutes : List ℕ
  pub hours : List ℕ
  pub days_of_month : List ℕ
  pub months : List ℕ
  pub days_of_week : List ℕ

-- Sunday is 0 and 7.
unfoldable pub normalize_dow : List ℕ → List ℕ → List ℕ
normalize_dow [] days = days
normalize_dow (d ∷ raw) days = normalize_dow raw (set_insert (if d == 7 then 0 else d) days)

unfoldable pub parse_fields : Text → List Text → Outcome CronMatcher
parse_fields expr (f0 ∷ f1 ∷ f2 ∷ f3 ∷ f4 ∷ []) = do
  minutes ← parse_cron_field f0 0 59 (text "minute")
  hours ← parse_cron_field f1 0 23 (text "hour")
  days_of_month ← parse_cron_field f2 1 31 (text "day-of-month")
  months ← parse_cron_field f3 1 12 (text "month")
  raw_dow ← parse_cron_field f4 0 7 (text "day-of-week")
  found (record {
    minutes = minutes;
    hours = hours;
    days_of_month = days_of_month;
    months = months;
    days_of_week = normalize_dow raw_dow [];
  })
parse_fields expr _ = failed (
    invalid_expression (
      text
        "Cron expression must contain exactly 5 space-separated fields (minute, hour, dom, month, dow), found: '"
      ++ (expr ++ text "'")))

-- `CronMatcher::parse`
unfoldable pub parse_cron : Text → Outcome CronMatcher
parse_cron expr = parse_fields expr (split_whitespace expr)
