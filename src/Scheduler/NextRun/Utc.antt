-- ===== src/Scheduler/NextRun/Utc.antt =====
-- `calculate_next_run` in UTC, for daily and weekly schedules: the next instant on the clock.
use televault.Scheduler.Clock.{found, failed, panicked, out_of_fuel}
use televault.Scheduler.Clock.{
  day_ns, Calendar, Weekdays, Outcome, next_date, found, failed, panicked, out_of_fuel,
}
use televault.Scheduler.NextRun.{on_day, daily_utc, weekly_utc}
use televault.Prelude.{
  the, ltb→lt, ℕ, zero, suc, ◌+◌, ◌-◌, ◌*◌, ◌/◌, ◌%◌, ◌≤◌, ◌<◌, ◌≡◌, ap, ◌∙◌, subst, ◌≢◌, inl, inr,
  true, false, ◌&&◌, arith, ltb, leb, ◌==◌, Bool-cases, ltb→lt,
}

-- The first instant after another that is due.
abbrev pub IsNext : (ℕ → Type 0) → ℕ → Outcome ℕ → Type 0
IsNext Due from_utc (found t) =
    (from_utc < t) × Due t × ((s : ℕ) → from_utc < s → s < t → Due s → ⊥)
IsNext Due from_utc (failed e) = ⊥
IsNext Due from_utc panicked = ⊥
IsNext Due from_utc out_of_fuel = ⊥

-- The time of the day.
abbrev pub AtTime : ℕ → ℕ → Type 0
AtTime time t = t % day_ns ≡ time

-- The time of a day of the week.
abbrev pub OnWeekday : Calendar → ℕ → ℕ → ℕ → Type 0
OnWeekday cal weekday time t = (cal.weekday (t / day_ns) ≡ weekday) × (t % day_ns ≡ time)

-- An instant at that time is that of its day.
on_day-AtTime : (s time : ℕ) → AtTime time s → s ≡ on_day (s / day_ns) time
on_day-AtTime s time h = omega arith

date-on_day : (d time : ℕ) → time < day_ns → on_day d time / day_ns ≡ d
date-on_day d time h = omega arith

time-on_day : (d time : ℕ) → time < day_ns → on_day d time % day_ns ≡ time
time-on_day d time h = omega arith

too_early :
    (from_utc time s : ℕ)
    → from_utc < s
    → s < on_day (suc (from_utc / day_ns)) time
    → AtTime time s
    → on_day (from_utc / day_ns) time ≤ from_utc
    → ⊥
too_early from_utc time s h k a c = omega arith

pub daily_utc-IsNext :
    (cal : Calendar) (time from_utc : ℕ)
    → time < day_ns
    → from_utc + day_ns ≤ cal.last
    → IsNext (AtTime time) from_utc (daily_utc cal time from_utc)
unfolding daily_utc next_date
daily_utc-IsNext cal time from_utc b room =
    let today = from_utc / day_ns in
    elim (Bool-cases (ltb from_utc (on_day today time))) [
      | inl e ↦
          rw e (
            ltb→lt from_utc (on_day today time) e,
            time-on_day today time b,
            λ s h k a. omega arith,
          )
      | inr e ↦ rw e (
          rw (the (leb (suc today * day_ns) cal.last ≡ true) (ground arith)) (
            ground arith,
            time-on_day (suc today) time b,
            λ s h k a. elim (too_early from_utc time s h k a (ground arith)) [ ],
          ))
    ]

pub weekday_add :
    (cal : Calendar) → Weekdays cal → (d i : ℕ) → cal.weekday (i + d) ≡ (cal.weekday d + i) % 7
weekday_add cal law d zero = ground (arith, law d)
weekday_add cal law d (suc i) = ground (arith, law (i + d), weekday_add cal law d i)

-- Where none of the six days after a day is the one wanted, it is the day itself, and a week later.
weekday_week :
    (cal : Calendar)
    → Weekdays cal
    → (d target : ℕ) → target < 7
    → ((i : ℕ) → 0 < i → i < 7 → cal.weekday (i + d) ≢ target)
    → cal.weekday (7 + d) ≡ target
weekday_week cal law d target b n = ground (
  arith,
  law d,
  weekday_add cal law d 7,
  weekday_add cal law d ((target + 7 - cal.weekday d) % 7),
  n ((target + 7 - cal.weekday d) % 7),
)

module _ (cal : Calendar) (law : Weekdays cal) (target time from_utc : ℕ) (small : target < 7)
    (b : time < day_ns) (room : from_utc + 8 * day_ns ≤ cal.last) where
  -- No day before this one has the instant, and none after the first is the weekday.
  abbrev pub Passed : ℕ → Type 0
  Passed k =
      ((s : ℕ)
        → from_utc < s
        → s / day_ns < k + from_utc / day_ns
        → OnWeekday cal target time s
        → ⊥)
      × ((i : ℕ) → 0 < i → i < k → cal.weekday (i + from_utc / day_ns) ≢ target)

  candidate-IsNext :
      (k : ℕ)
      → Passed k
      → cal.weekday (k + from_utc / day_ns) ≡ target
      → from_utc < on_day (k + from_utc / day_ns) time
      → IsNext (OnWeekday cal target time) from_utc (found (on_day (k + from_utc / day_ns) time))
  candidate-IsNext k p w h =
      let d = k + from_utc / day_ns in
      (
        h,
        (ap cal.weekday (date-on_day d time b) ∙ w, time-on_day d time b),
        λ s a c e. p.0 s a (omega (arith, on_day-AtTime s time e.1)) e,
      )

  same_day_passed :
      (k s : ℕ)
      → s / day_ns ≡ k + from_utc / day_ns
      → from_utc < s
      → OnWeekday cal target time s
      → (cal.weekday (k + from_utc / day_ns) == target
          && ltb from_utc (on_day (k + from_utc / day_ns) time))
        ≡ false
      → ⊥
  same_day_passed k s l a e h = ground (arith, on_day-AtTime s time e.1)

  last_day_passed :
      (k i : ℕ)
      → i ≡ k
      → 0 < i
      → cal.weekday (i + from_utc / day_ns) ≡ target
      → (cal.weekday (k + from_utc / day_ns) == target
          && ltb from_utc (on_day (k + from_utc / day_ns) time))
        ≡ false
      → ⊥
  last_day_passed k i e l w h = ground arith

  Passed-step :
      (k : ℕ)
      → Passed k
      → (cal.weekday (k + from_utc / day_ns) == target
          && ltb from_utc (on_day (k + from_utc / day_ns) time))
        ≡ false
      → Passed (suc k)
  Passed-step k p h = (
    λ s a c e. elim (Bool-cases (ltb (s / day_ns) (k + from_utc / day_ns))) [
      | inl l ↦ p.0 s a (ltb→lt (s / day_ns) (k + from_utc / day_ns) l) e
      | inr l ↦ same_day_passed k s (ground arith) a e h
    ],
    λ i a c. elim (Bool-cases (ltb i k)) [
      | inl l ↦ p.1 i a (ltb→lt i k l)
      | inr l ↦ λ w. last_day_passed k i (ground arith) a w h
    ],
  )

  pub weekly_utc-IsNext :
      (n k : ℕ)
      → n + k ≡ 7
      → Passed k
      → IsNext
          (OnWeekday cal target time)
          from_utc
          (weekly_utc n cal target time from_utc (k + from_utc / day_ns))
  unfolding weekly_utc next_date
  weekly_utc-IsNext zero k e p =
      candidate-IsNext k p
        (subst (λ (j : ℕ). cal.weekday (j + from_utc / day_ns) ≡ target) (the (7 ≡ k) (omega arith))
          (weekday_week cal law (from_utc / day_ns) target small (λ i a c. p.1 i a (omega arith))))
        (omega arith)
  weekly_utc-IsNext (suc n) k e p =
      let d = k + from_utc / day_ns in
      elim (Bool-cases (cal.weekday d == target && ltb from_utc (on_day d time))) [
        | inl g ↦ rw g (candidate-IsNext k p (ground arith) (ground arith))
        | inr g ↦ rw g (
            rw (the (leb (suc d * day_ns) cal.last ≡ true) (ground arith)) (
              rw (the (suc d ≡ suc k + from_utc / day_ns) (omega arith))
                (weekly_utc-IsNext n (suc k) (omega arith) (Passed-step k p g))))
      ]
