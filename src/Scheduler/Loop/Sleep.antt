-- ===== src/Scheduler/Loop/Sleep.antt =====
-- How long the loop of crates/televault-scheduler/src/service.rs sleeps.
use televault.Db.Catalog.{ScheduleRecord}
use televault.Scheduler.Records.{Machine, read_time}
use televault.Scheduler.Loop.{future_run, consider, earliest_future, seconds_until, sleep_duration}
use televault.Prelude.{
  ℕ, ◌-◌, ◌*◌, ◌≤◌, ◌<◌, ◌≡◌, refl, sym, subst, ◌⊎◌, true, Option, none, some, List, [], ◌∷◌, ◌++◌,
  arith, ltb, if_split,
}

abbrev Below : Option ℕ → ℕ → Type 0
Below none t = ⊥
Below (some e) t = e ≤ t

consider-Below : (e f : Option ℕ) (t : ℕ) → Below e t → Below (consider e f) t
consider-Below none f t h = elim h [ ]
consider-Below (some e) none t h = h
consider-Below (some e) (some u) t h = ground arith

considered : (e : Option ℕ) (t : ℕ) → Below (consider e (some t)) t
considered none t = omega arith
considered (some e) t = ground arith

earliest_future-Below :
    (m : Machine) (now : ℕ) (e : Option ℕ) (ss : List ScheduleRecord) (t : ℕ)
    → Below e t
    → Below (earliest_future m now e ss) t
unfolding earliest_future
earliest_future-Below m now e [] t h = h
earliest_future-Below m now e (s ∷ ss) t h =
    earliest_future-Below m now (consider e (future_run m now s)) ss t
      (consider-Below e (future_run m now s) t h)

future_run-some :
    (m : Machine) (now : ℕ) (s : ScheduleRecord) (t : ℕ)
    → s.enabled ≡ true
    → read_time m s.next_run_at ≡ some t
    → now < t
    → future_run m now s ≡ some t
future_run-some m now s t h k l =
    if_split (λ r. r ≡ some t) s.enabled
      (λ e.
        rw k (if_split (λ (r : Option ℕ). r ≡ some t) (ltb now t) (λ c. refl) (λ c. ground arith)))
      (λ e. cc)

earliest_future-append :
    (m : Machine) (now : ℕ) (e : Option ℕ) (before after : List ScheduleRecord) (s : ScheduleRecord)
    (t : ℕ)
    → future_run m now s ≡ some t
    → Below (earliest_future m now e (before ++ s ∷ after)) t
unfolding earliest_future
earliest_future-append m now e [] after s t h =
    subst (λ (x : Option ℕ). Below (earliest_future m now (consider e x) after) t) (sym h)
      (earliest_future-Below m now (consider e (some t)) after t (considered e t))
earliest_future-append m now e (b ∷ before) after s t h =
    earliest_future-append m now (consider e (future_run m now b)) before after s t h

seconds_until_bounds :
    (now : ℕ) (e : Option ℕ) → (1 ≤ seconds_until now e) × (seconds_until now e ≤ 60)
seconds_until_bounds now none = (omega arith, omega arith)
seconds_until_bounds now (some e) = ground arith

seconds_until_timely :
    (now : ℕ) (e : Option ℕ) (t : ℕ)
    → Below e t
    → (seconds_until now e ≡ 1) ⊎ (seconds_until now e * 1000000000 ≤ t - now)
seconds_until_timely now none t h = elim h [ ]
seconds_until_timely now (some e) t h = ground arith

-- Where an enabled schedule among the listed ones has a next run that can be read and lies after
-- `now`, the time that a round of the loop read when it began, before its due backups: the duration
-- that the round computes is between 1 and 60 seconds, and counted from `now` it does not reach beyond
-- that next run, unless it is the one second that is the least.
pub sleep_duration_timely :
    (m : Machine) (now : ℕ) (before after : List ScheduleRecord) (s : ScheduleRecord) (t : ℕ)
    → s.enabled ≡ true
    → read_time m s.next_run_at ≡ some t
    → now < t
    → let d = sleep_duration m now (before ++ s ∷ after) in
      (1 ≤ d) × (d ≤ 60) × ((d ≡ 1) ⊎ (d * 1000000000 ≤ t - now))
unfolding sleep_duration
sleep_duration_timely m now before after s t h k l =
    let e = earliest_future m now none (before ++ s ∷ after) in
    let b = seconds_until_bounds now e in
    (
      b.0,
      b.1,
      seconds_until_timely now e t
          (earliest_future-append m now none before after s t (future_run-some m now s t h k l)),
    )
