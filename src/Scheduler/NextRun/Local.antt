-- ===== src/Scheduler/NextRun/Local.antt =====
-- `calculate_next_run` for a weekly schedule in local time, where the time of the day comes twice or
-- not at all on the day that is due.
use televault.Scheduler.Clock.{found, absent, single, ambiguous}
use televault.Scheduler.Clock.{
  day_ns, Calendar, Weekdays, LocalResult, Zone, only, ◌>>=◌, date, next_date, found, absent,
  single, ambiguous,
}
use televault.Scheduler.NextRun.Utc.{weekday_add}
use televault.Scheduler.NextRun.{on_day, weekly_local, ahead}
use televault.Prelude.{
  the, ℕ, zero, suc, ◌+◌, ◌*◌, ◌≤◌, ◌<◌, ◌≡◌, refl, ◌∙◌, ◌≢◌, inl, inr, true, none, arith, leb,
  ◌==◌, Bool-cases,
}

-- On the weekday that is wanted, none of the seven days from this one on has the time just once.
abbrev pub NoSingle : Zone → Calendar → (target time d : ℕ) → Type 0
NoSingle zone cal target time d =
    (i : ℕ)
    → i < 7
    → cal.weekday (i + d) ≡ target
    → only (zone.from_local (on_day (i + d) time)) ≡ none

module _ (zone : Zone) (cal : Calendar) (target time from_utc d : ℕ)
    (room : (d + 8) * day_ns ≤ cal.last) where
  ahead_none : (r : LocalResult) → only r ≡ none → ahead from_utc r ≡ none
  ahead_none absent h = refl
  ahead_none (single t) h = ground arith
  ahead_none (ambiguous earliest latest) h = refl

  later_days :
      (n k : ℕ)
      → k < 7
      → (next_date cal (k + d) >>= (λ (e : ℕ). weekly_local n zone cal target time from_utc e))
        ≡ weekly_local n zone cal target time from_utc (suc k + d)
  unfolding next_date
  later_days n k l =
      rw (the (leb (suc (k + d) * day_ns) cal.last ≡ true) (ground arith))
        (rw (the (suc (k + d) ≡ suc k + d) (omega arith)) refl)

  weekly_local_falls :
      (n k : ℕ)
      → n + k ≡ 7
      → NoSingle zone cal target time d
      → weekly_local n zone cal target time from_utc (k + d)
        ≡ weekly_local 0 zone cal target time from_utc (7 + d)
  unfolding weekly_local next_date
  weekly_local_falls zero k e h = rw (the (k ≡ 7) (omega arith)) refl
  weekly_local_falls (suc n) k e h =
      let falls = later_days n k (omega arith) ∙ weekly_local_falls n (suc k) (omega arith) h in
      elim (Bool-cases (cal.weekday (k + d) == target)) [
        | inl g ↦ rw g (
            rw
              (ahead_none (zone.from_local (on_day (k + d) time))
                (h k (omega arith) (ground arith)))
              falls)
        | inr g ↦ rw g falls
      ]

-- With weekdays that follow each other and a calendar that reaches eight days on: where, on the
-- weekday that is wanted, none of the seven days from the local date on has the time just once,
-- and the weekday is not that of the date, the next run of a weekly schedule in local time is on
-- another weekday: at the time of the day a week on, if that comes once.
pub weekly_local_other_day :
    (zone : Zone) (cal : Calendar) (target time from_utc t : ℕ)
    → Weekdays cal
    → (date (zone.to_local from_utc) + 8) * day_ns ≤ cal.last
    → NoSingle zone cal target time (date (zone.to_local from_utc))
    → cal.weekday (date (zone.to_local from_utc)) ≢ target
    → zone.from_local (on_day (7 + date (zone.to_local from_utc)) time) ≡ single t
    → (weekly_local 7 zone cal target time from_utc (date (zone.to_local from_utc)) ≡ found t)
      × (cal.weekday (7 + date (zone.to_local from_utc)) ≢ target)
unfolding weekly_local
weekly_local_other_day zone cal target time from_utc t law room h w e =
    let d = date (zone.to_local from_utc) in
    (
      ground (
        arith,
        weekly_local_falls zone cal target time from_utc d room 7 0 (omega arith) h,
        the (0 + d ≡ d) (omega arith),
        e,
      ),
      ground (arith, weekday_add cal law d 7, law d),
    )
