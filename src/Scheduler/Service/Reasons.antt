-- ===== src/Scheduler/Service/Reasons.antt =====
-- crates/televault-scheduler/src/service.rs: where the parts of `create_schedule` succeed, and why they may not.
use televault.Scheduler.Service.Wanted.{
  wanted_zone, wanted_enabled, zone_of-wanted_zone, enabled_of-wanted_enabled, ReadsBack,
  ReadsBack?, with_row, WantedRun,
}
use televault.Scheduler.Clock.{found, failed, panicked, out_of_fuel, Outcome}
use televault.Scheduler.Types.{CreateScheduleParams}
use televault.Db.Catalog.{ProfileRecord, ScheduleRecord, Catalog, map_first}
use televault.Db.Table.{select, any, first}
use televault.Db.Profiles.{is_profile, map_profile_row, get_profile}
use televault.Db.Schedules.{is_schedule, create_schedule}
use televault.Scheduler.Records.{Machine}
use televault.Scheduler.Service.{next_run, just, first_run}
use televault.Prelude.{
  ℕ, ◌≡◌, refl, sym, subst, ◌≢◌, inl, inr, true, false, Option, none, some, arith, Bool-cases, Text,
  ok, Result-cases,
}

pub get_profile_same :
    (id : Text) (db : Catalog) (p : Option ProfileRecord) (after : Catalog)
    → get_profile id db ≡ ok (p, after)
    → after ≡ db
unfolding get_profile
get_profile_same id db p after h =
    elim (Result-cases (map_first map_profile_row (first (select (is_profile id) db.profiles)))) [
      | inl (q, e) ↦ ground (arith, rw e at h)
      | inr (x, e) ↦ absurd (cc (rw e at h))
    ]

pub create_schedule-eq-ok :
    (r : ScheduleRecord) (db after : Catalog)
    → create_schedule r db ≡ ok (tt, after)
    → (any (is_schedule r.schedule_id) db.schedules ≡ false)
      × (any (is_profile r.profile_id) db.profiles ≡ true)
      × (after ≡ with_row r db)
unfolding create_schedule
create_schedule-eq-ok r db after h =
    elim (Bool-cases (any (is_schedule r.schedule_id) db.schedules)) [
      | inl a ↦ absurd (cc (rw a at h))
      | inr a ↦ elim (Bool-cases (any (is_profile r.profile_id) db.profiles)) [
        | inl b ↦ (a, b, ground (arith, rw (a, b) at h))
        | inr b ↦ absurd (cc (rw (a, b) at h))
      ]
    ]

pub just-WantedRun :
    (m : Machine) (now : ℕ) (params : CreateScheduleParams) (r : Outcome ℕ) (next : Option ℕ)
    → next_run m params.schedule_type params.expression (wanted_zone params.timezone) now ≡ r
    → wanted_enabled params.enabled ≡ true
    → just r ≡ found next
    → WantedRun m now params next
just-WantedRun m now params (found t) next h on e = inr (on, t, ground (arith, e), h)
just-WantedRun m now params (failed x) next h on e = absurd (cc e)
just-WantedRun m now params panicked next h on e = absurd (cc e)
just-WantedRun m now params out_of_fuel next h on e = absurd (cc e)

pub first_run-WantedRun :
    (m : Machine) (now : ℕ) (params : CreateScheduleParams) (next : Option ℕ)
    → first_run m now params ≡ found next
    → WantedRun m now params next
first_run-WantedRun m now params next h = elim (Bool-cases (wanted_enabled params.enabled)) [
  | inl on ↦
      just-WantedRun m now params _ next refl on
        (rw (enabled_of-wanted_enabled params, zone_of-wanted_zone params, on) at h)
  | inr off ↦ inl (off, ground (arith, rw (enabled_of-wanted_enabled params, off) at h))
]

pub no_run :
    (m : Machine) (now : ℕ) (params : CreateScheduleParams)
    → ((next : Option ℕ) → first_run m now params ≢ found next)
    → (wanted_enabled params.enabled ≡ true)
      × ((t : ℕ)
          → next_run m params.schedule_type params.expression (wanted_zone params.timezone) now
            ≢ found t)
no_run m now params never = elim (Bool-cases (wanted_enabled params.enabled)) [
  | inl on ↦ (
    on,
    λ t h.
        never (some t)
          (rw (enabled_of-wanted_enabled params, zone_of-wanted_zone params, on, h) refl),
  )
  | inr off ↦ absurd (never none (rw (enabled_of-wanted_enabled params, off) refl))
]

pub WantedRun-ReadsBack :
    (m : Machine) (now : ℕ) (params : CreateScheduleParams) (next : Option ℕ)
    → ((t : ℕ)
        → next_run m params.schedule_type params.expression (wanted_zone params.timezone) now
          ≡ found t
        → ReadsBack m t)
    → WantedRun m now params next
    → ReadsBack? m next
WantedRun-ReadsBack m now params next k (inl (off, e)) = subst (ReadsBack? m) (sym e) tt
WantedRun-ReadsBack m now params next k (inr (on, t, e, run)) =
    subst (ReadsBack? m) (sym e) (k t run)
