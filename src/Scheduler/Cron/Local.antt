-- ===== src/Scheduler/Cron/Local.antt =====
-- `CronMatcher::find_next_local` where the clocks of the zone go back.
use televault.Scheduler.Clock.{panicked, out_of_fuel, single, ambiguous}
use televault.Scheduler.Clock.{
  minute_ns, hour_ns, Calendar, LocalResult, Zone, only, ◌>>=◌, unwrap, later, with_minute_0,
}
use televault.Scheduler.Cron.{CronMatcher}
use televault.Scheduler.Cron.Search.{
  day_fits, hour_fits, fits, lookahead, advance_local, search_local, local_start, find_next_local,
}
use televault.Prelude.{
  the, ℕ, zero, suc, ◌+◌, ◌≤◌, ◌<◌, ◌≡◌, refl, ◌∙◌, true, false, arith, ltb, leb, the,
}

module _ (zone : Zone) (cal : Calendar) (m : CronMatcher) (from_utc : ℕ)
    (room : local_start zone from_utc + minute_ns + lookahead ≤ cal.last)
    (day : day_fits cal m (zone.to_local (local_start zone from_utc + minute_ns)) ≡ true)
    (hour : hour_fits m (zone.to_local (local_start zone from_utc + minute_ns)) ≡ false) where
  abbrev first : ℕ
  first = local_start zone from_utc + minute_ns

  -- The hour that the search goes on to.
  abbrev next_hour : LocalResult
  next_hour = zone.from_local (with_minute_0 (zone.to_local (first + hour_ns)))

  advance_local_hour : advance_local zone cal m first ≡ unwrap (only next_hour)
  unfolding advance_local later
  advance_local_hour =
      rw day (rw hour (rw (the (leb (first + hour_ns) cal.last ≡ true) (ground arith)) refl))

  not_first : fits cal m (zone.to_local first) ≡ false
  not_first = ground arith

  search_local_step :
      (fuel limit : ℕ)
      → first < limit
      → search_local (suc fuel) zone cal m limit first
        ≡ (unwrap (only next_hour) >>= (λ (t : ℕ). search_local fuel zone cal m limit t))
  unfolding search_local
  search_local_step fuel limit l =
      rw (the (ltb first limit ≡ true) (ground arith)) (rw not_first (rw advance_local_hour refl))

  -- Where the calendar reaches the horizon, and the first whole minute after an instant lies on
  -- a day that fits, in an hour that does not, and the clock then goes back by an hour, so that
  -- the beginning of the next hour comes twice, the search in local time panics.
  pub find_next_local_panics :
      (earliest latest fuel : ℕ)
      → next_hour ≡ ambiguous earliest latest
      → find_next_local (suc fuel) zone cal m from_utc ≡ panicked
  unfolding find_next_local later
  find_next_local_panics earliest latest fuel h =
      rw (the (leb first cal.last ≡ true) (ground arith)) (
        rw (the (leb (first + lookahead) cal.last ≡ true) (ground arith))
          (rw (search_local_step fuel (first + lookahead) (omega arith)) (rw h refl)))

  search_local_loops :
      (fuel limit : ℕ)
      → first < limit
      → next_hour ≡ single first
      → search_local fuel zone cal m limit first ≡ out_of_fuel
  unfolding search_local
  search_local_loops zero limit l h = refl
  search_local_loops (suc fuel) limit l h =
      search_local_step fuel limit l ∙ rw h (search_local_loops fuel limit l h)

  -- Where the calendar reaches the horizon, and the first whole minute after an instant lies on
  -- a day that fits, in an hour that does not, and an hour later the clock stands in the same
  -- hour, whose beginning comes once, at that minute, the search in local time never ends,
  -- whatever its fuel.
  pub find_next_local_loops :
      (fuel : ℕ) → next_hour ≡ single first → find_next_local fuel zone cal m from_utc ≡ out_of_fuel
  unfolding find_next_local later
  find_next_local_loops fuel h = rw (the (leb first cal.last ≡ true) (ground arith)) (
      rw (the (leb (first + lookahead) cal.last ≡ true) (ground arith))
        (search_local_loops fuel (first + lookahead) (omega arith) h))
