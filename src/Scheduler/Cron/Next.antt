-- ===== src/Scheduler/Cron/Next.antt =====
-- `CronMatcher::find_next_utc` against the definition of the next instant that fits.
use televault.Scheduler.Clock.{found, failed, panicked, out_of_fuel}
use televault.Scheduler.Clock.{
  minute_ns, hour_ns, day_ns, Calendar, Outcome, ◌>>=◌, later, date, and_time, with_second_0,
  with_nanosecond_0, with_minute_0, next_date, found, failed, panicked, out_of_fuel,
}
use televault.Scheduler.Cron.{CronMatcher}
use televault.Scheduler.Cron.Search.{
  day_fits, hour_fits, fits, lookahead, advance_utc, search_utc, horizon_rounds, find_next_utc,
}
use televault.Prelude.{
  the, ℕ, zero, suc, ◌+◌, ◌-◌, ◌*◌, ◌/◌, ◌%◌, ◌≤◌, ◌<◌, ◌≡◌, inl, inr, true, false, arith, ltb, leb,
  Bool-cases, ltb→lt,
}

abbrev Whole : ℕ → Type 0
Whole t = t % minute_ns ≡ 0

-- No whole minute of the stretch fits.
abbrev pub NoneFits : Calendar → CronMatcher → (ℕ → Type 0) → Type 0
NoneFits cal m Within = (s : ℕ) → Within s → s % minute_ns ≡ 0 → fits cal m s ≡ false

same_day : (t s : ℕ) → t ≤ s → s < suc (t / day_ns) * day_ns → s / day_ns ≡ t / day_ns
same_day t s h k = omega arith

same_hour :
    (t s : ℕ)
    → t ≤ s
    → s < t + hour_ns - (t + hour_ns) / minute_ns % 60 * minute_ns
    → t % minute_ns ≡ 0
    → s / hour_ns % 24 ≡ t / hour_ns % 24
same_hour t s h k w = omega arith

whole_hour :
    (t : ℕ)
    → t % minute_ns ≡ 0
    → (t + minute_ns ≤ with_minute_0 (t + hour_ns)) × (with_minute_0 (t + hour_ns) % minute_ns ≡ 0)
whole_hour t w = omega arith

next_midnight :
    (t : ℕ)
    → t % minute_ns ≡ 0
    → (t + minute_ns ≤ and_time (suc (t / day_ns)) 0 0)
      × (and_time (suc (t / day_ns)) 0 0 % minute_ns ≡ 0)
next_midnight t w = omega arith

next_minute : (t s : ℕ) → t % minute_ns ≡ 0 → s % minute_ns ≡ 0 → t ≤ s → s < t + minute_ns → s ≡ t
next_minute t s w v h k = omega arith

-- A round of the search from a whole minute that does not fit: it goes on to a later one, not more
-- than a day away, and passes no time that fits.
abbrev Step : Calendar → CronMatcher → ℕ → Outcome ℕ → Type 0
Step cal m t (found u) =
    (t + minute_ns ≤ u)
    × (u ≤ t + day_ns)
    × (u % minute_ns ≡ 0)
    × NoneFits cal m (λ s. (t ≤ s) × (s < u))
Step cal m t (failed e) = ⊥
Step cal m t panicked = ⊥
Step cal m t out_of_fuel = ⊥

day_fits-same :
    (cal : Calendar) (m : CronMatcher) (t s : ℕ)
    → s / day_ns ≡ t / day_ns
    → day_fits cal m s ≡ day_fits cal m t
unfolding day_fits
day_fits-same cal m t s h = ground arith

hour_fits-same :
    (m : CronMatcher) (t s : ℕ)
    → s / hour_ns % 24 ≡ t / hour_ns % 24
    → hour_fits m s ≡ hour_fits m t
unfolding hour_fits
hour_fits-same m t s h = ground arith

module _ (cal : Calendar) (m : CronMatcher) (t : ℕ) (w : t % minute_ns ≡ 0)
    (room : t + day_ns + day_ns ≤ cal.last) where
  Step-day :
      day_fits cal m t ≡ false
      → Step cal m t (next_date cal (date t) >>= (λ (d : ℕ). found (and_time d 0 0)))
  unfolding next_date
  Step-day h = rw (the (leb (suc (date t) * day_ns) cal.last ≡ true) (ground arith)) (
    (next_midnight t w).0,
    omega arith,
    (next_midnight t w).1,
    λ s k v. ground (arith, day_fits-same cal m t s (same_day t s k.0 (omega arith))),
  )

  Step-hour :
      hour_fits m t ≡ false
      → Step cal m t (later cal t hour_ns >>= (λ (u : ℕ). found (with_minute_0 u)))
  unfolding later
  Step-hour h = rw (the (leb (t + hour_ns) cal.last ≡ true) (ground arith)) (
    (whole_hour t w).0,
    omega arith,
    (whole_hour t w).1,
    λ s k v. ground (arith, hour_fits-same m t s (same_hour t s k.0 k.1 w)),
  )

  Step-minute : fits cal m t ≡ false → Step cal m t (later cal t minute_ns)
  unfolding later
  Step-minute h =
      rw (the (leb (t + minute_ns) cal.last ≡ true) (ground arith))
        (omega arith, omega arith, omega arith, λ s k v. rw (next_minute t s w v k.0 k.1) h)

  advance_utc-Step : fits cal m t ≡ false → Step cal m t (advance_utc cal m t)
  unfolding advance_utc
  advance_utc-Step h = elim (Bool-cases (day_fits cal m t)) [
    | inl d ↦ rw d (elim (Bool-cases (hour_fits m t)) [
      | inl k ↦ rw k (Step-minute h)
      | inr k ↦ rw k (Step-hour k)
    ])
    | inr d ↦ rw d (Step-day d)
  ]

-- What a search for a time that fits comes to, within a stretch: its first such minute, or a failure
-- where there is none.
abbrev pub IsFirst : Calendar → CronMatcher → (after before : ℕ) → Outcome ℕ → Type 0
IsFirst cal m after before (found t) =
    (after < t)
    × (t < before)
    × (t % minute_ns ≡ 0)
    × (fits cal m t ≡ true)
    × NoneFits cal m (λ s. (after < s) × (s < t))
IsFirst cal m after before (failed e) = NoneFits cal m (λ s. (after < s) × (s < before))
IsFirst cal m after before panicked = ⊥
IsFirst cal m after before out_of_fuel = ⊥

module _ (cal : Calendar) (m : CronMatcher) (after limit : ℕ)
    (room : limit + day_ns + day_ns ≤ cal.last) where
  abbrev Searched : ℕ → Type 0
  Searched t = (after < t) × (t % minute_ns ≡ 0) × NoneFits cal m (λ s. (after < s) × (s < t))

  Searched-step :
      (t u : ℕ)
      → Searched t
      → NoneFits cal m (λ s. (t ≤ s) × (s < u))
      → NoneFits cal m (λ s. (after < s) × (s < u))
  Searched-step t u i n s k w = ground (arith, i.2 s, n s)

  abbrev Enough : ℕ → ℕ → Type 0
  Enough fuel t = (0 < fuel) × (limit + minute_ns ≤ t + fuel * minute_ns)

  after-Step :
      (fuel t : ℕ)
      → Searched t
      → t < limit
      → Enough (suc fuel) t
      → ((u : ℕ)
          → Searched u
          → Enough fuel u
          → IsFirst cal m after limit (search_utc fuel cal m limit u))
      → (r : Outcome ℕ) → Step cal m t r
      → IsFirst cal m after limit (r >>= (λ (u : ℕ). search_utc fuel cal m limit u))
  after-Step fuel t i l k ih (found u) h =
      ih u (omega arith, h.2, Searched-step t u i h.3) (omega arith)
  after-Step fuel t i l k ih (failed e) h = elim h [ ]
  after-Step fuel t i l k ih panicked h = h
  after-Step fuel t i l k ih out_of_fuel h = h

  search_utc-IsFirst :
      (fuel t : ℕ)
      → Searched t
      → Enough fuel t
      → IsFirst cal m after limit (search_utc fuel cal m limit t)
  unfolding search_utc
  search_utc-IsFirst zero t i k = omega arith
  search_utc-IsFirst (suc fuel) t i k = elim (Bool-cases (ltb t limit)) [
    | inl l ↦ rw l (elim (Bool-cases (fits cal m t)) [
      | inl f ↦ rw f (i.0, ltb→lt t limit l, i.1, f, i.2)
      | inr f ↦ rw f (
          after-Step fuel t i (ltb→lt t limit l) k (search_utc-IsFirst fuel) (advance_utc cal m t)
            (advance_utc-Step cal m t i.1 (ground arith) f))
    ])
    | inr l ↦ rw l (λ s h w. i.2 s (h.0, ground arith) w)
  ]

-- The first whole minute after an instant.
abbrev pub first_minute : ℕ → ℕ
first_minute t = with_nanosecond_0 (with_second_0 t) + minute_ns

first_minute-bounds :
    (t : ℕ)
    → (t < first_minute t) × (first_minute t ≤ t + minute_ns) × (first_minute t % minute_ns ≡ 0)
first_minute-bounds t = omega arith

first_minute_first : (t s : ℕ) → t < s → s < first_minute t → s % minute_ns ≡ 0 → ⊥
first_minute_first t s h k w = omega arith

-- Where the calendar reaches two days beyond the horizon, the search in UTC finds the first whole
-- minute after the given instant that fits all five fields, or fails, where there is none in the 1830
-- days after the first whole minute.
pub find_next_utc-IsFirst :
    (cal : Calendar) (m : CronMatcher) (from_utc : ℕ)
    → first_minute from_utc + lookahead + day_ns + day_ns ≤ cal.last
    → IsFirst cal m from_utc (first_minute from_utc + lookahead) (find_next_utc cal m from_utc)
unfolding find_next_utc later
find_next_utc-IsFirst cal m from_utc room =
    let start = first_minute from_utc in
    rw (the (leb start cal.last ≡ true) (ground arith)) (
      rw (the (leb (start + lookahead) cal.last ≡ true) (ground arith)) (
        search_utc-IsFirst cal m from_utc (start + lookahead) room horizon_rounds start
          (
            (first_minute-bounds from_utc).0,
            (first_minute-bounds from_utc).2,
            λ s k w. elim (first_minute_first from_utc s k.0 k.1 w) [ ],
          )
          (omega arith, omega arith)))
