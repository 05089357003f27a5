-- ===== src/Scheduler/Cron/Valid.antt =====
-- What the fields of a parsed cron expression can hold.
use televault.Scheduler.Clock.{found, failed, panicked, out_of_fuel}
use televault.Scheduler.Cron.Field.{AtMost, AtMost-insert, Bounded, Bounded-items}
use televault.Scheduler.Clock.{Outcome, ◌>>=◌, found, failed, panicked, out_of_fuel}
use televault.Prelude.Parsing.{split, split_whitespace, set_insert}
use televault.Scheduler.Cron.{
  insert_items, parse_cron_field, CronMatcher, normalize_dow, parse_fields, parse_cron, not_empty,
}
use televault.Prelude.{
  ℕ, ◌≤◌, ◌<◌, ◌≢◌, ◌⊎◌, inl, inr, List, [], ◌∷◌, arith, ◌==◌, if◌then◌else◌, Text, text,
}

-- A field: a set within the bound that is not empty, or an error.
abbrev pub FieldIsValid : ℕ → Outcome (List ℕ) → Type 0
FieldIsValid max (found values) = (values ≢ []) × AtMost max values
FieldIsValid max (failed e) = Unit
FieldIsValid max panicked = ⊥
FieldIsValid max out_of_fuel = ⊥

not_empty-IsValid :
    (max : ℕ) (name : Text) (r : Outcome (List ℕ))
    → Bounded max r
    → FieldIsValid max (r >>= not_empty name)
not_empty-IsValid max name (found []) h = tt
not_empty-IsValid max name (found (v ∷ s)) h = ground arith
not_empty-IsValid max name (failed e) h = tt
not_empty-IsValid max name panicked h = h
not_empty-IsValid max name out_of_fuel h = h

parse_cron_field-IsValid :
    (field : Text) (min max : ℕ) (name : Text)
    → min ≤ 1
    → max < 100
    → min ≤ max
    → FieldIsValid max (parse_cron_field field min max name)
unfolding parse_cron_field
parse_cron_field-IsValid field min max name l u b =
    not_empty-IsValid max name (insert_items min max name (split b',' field) [])
      (Bounded-items min max name l u b (split b',' field) [] tt)

set_insert_not_empty : (v : ℕ) (s : List ℕ) → set_insert v s ≢ []
unfolding set_insert
set_insert_not_empty v [] = ground arith
set_insert_not_empty v (w ∷ s) = ground arith

normalize_dow-IsValid :
    (raw days : List ℕ)
    → AtMost 7 raw
    → AtMost 6 days
    → (raw ≢ []) ⊎ (days ≢ [])
    → (normalize_dow raw days ≢ []) × AtMost 6 (normalize_dow raw days)
unfolding normalize_dow
normalize_dow-IsValid [] days h k n = ground arith
normalize_dow-IsValid (d ∷ raw) days h k n =
    normalize_dow-IsValid raw (set_insert (if d == 7 then 0 else d) days) h.1
      (AtMost-insert 6 (if d == 7 then 0 else d) days (ground arith) k)
      (inr (set_insert_not_empty (if d == 7 then 0 else d) days))

-- What reading a cron expression comes to: sets that are not empty, within the bounds of a clock and
-- a calendar, or an error.
abbrev pub CronIsValid : Outcome CronMatcher → Type 0
CronIsValid (found m) =
    ((m.minutes ≢ []) × AtMost 59 m.minutes)
    × ((m.hours ≢ []) × AtMost 23 m.hours)
    × ((m.days_of_month ≢ []) × AtMost 31 m.days_of_month)
    × ((m.months ≢ []) × AtMost 12 m.months)
    × ((m.days_of_week ≢ []) × AtMost 6 m.days_of_week)
CronIsValid (failed e) = Unit
CronIsValid panicked = ⊥
CronIsValid out_of_fuel = ⊥

CronIsValid-field :
    (max : ℕ) (r : Outcome (List ℕ)) (rest : List ℕ → Outcome CronMatcher)
    → FieldIsValid max r
    → ((s : List ℕ) → (s ≢ []) × AtMost max s → CronIsValid (rest s))
    → CronIsValid (r >>= rest)
CronIsValid-field max (found s) rest k h = h s k
CronIsValid-field max (failed e) rest k h = tt
CronIsValid-field max panicked rest k h = k
CronIsValid-field max out_of_fuel rest k h = k

parse_fields-IsValid : (expr : Text) (parts : List Text) → CronIsValid (parse_fields expr parts)
unfolding parse_fields
parse_fields-IsValid expr [] = tt
parse_fields-IsValid expr (a ∷ []) = tt
parse_fields-IsValid expr (a ∷ b ∷ []) = tt
parse_fields-IsValid expr (a ∷ b ∷ c ∷ []) = tt
parse_fields-IsValid expr (a ∷ b ∷ c ∷ d ∷ []) = tt
parse_fields-IsValid expr (a ∷ b ∷ c ∷ d ∷ e ∷ f ∷ parts) = tt
parse_fields-IsValid expr (a ∷ b ∷ c ∷ d ∷ e ∷ []) =
    let field =
      λ (f : Text) (min max : ℕ) (name : Text) (l : min ≤ 1) (u : max < 100) (o : min ≤ max).
        parse_cron_field-IsValid f min max name l u o in
    CronIsValid-field 59 _ _
      (field a 0 59 (text "minute") (omega arith) (omega arith) (omega arith))
      (λ minutes k0.
        CronIsValid-field 23 _ _
          (field b 0 23 (text "hour") (omega arith) (omega arith) (omega arith))
          (λ hours k1.
            CronIsValid-field 31 _ _
              (field c 1 31 (text "day-of-month") (omega arith) (omega arith) (omega arith))
              (λ days k2.
                CronIsValid-field 12 _ _
                  (field d 1 12 (text "month") (omega arith) (omega arith) (omega arith))
                  (λ months k3.
                    CronIsValid-field 7 _ _
                      (field e 0 7 (text "day-of-week") (omega arith) (omega arith) (omega arith))
                      (λ raw k4.
                        (k0, k1, k2, k3, normalize_dow-IsValid raw [] k4.1 tt (inl k4.0)))))))

-- Reading a cron expression ends, without a panic: with an error, or with sets that are not empty, of
-- minutes up to 59, hours up to 23, days up to 31, months up to 12 and weekdays up to 6.
pub parse_cron-IsValid : (expr : Text) → CronIsValid (parse_cron expr)
unfolding parse_cron
parse_cron-IsValid expr = parse_fields-IsValid expr (split_whitespace expr)
