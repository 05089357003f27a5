-- ===== src/Scheduler/Service/Wanted.antt =====
-- crates/televault-scheduler/src/service.rs: the schedule that a request to create one asks for, and its row.
use televault.Scheduler.Clock.{found, failed, panicked, out_of_fuel, Outcome}
use televault.Scheduler.Types.{
  interval, daily, weekly, cron, local, utc, ScheduleType, schedule_type_text, read_schedule_type,
  TimezoneStrategy, timezone_text, read_timezone, Schedule, CreateScheduleParams,
}
use televault.Db.Catalog.{ProfileRecord, ScheduleRecord, Catalog}
use televault.Scheduler.NextRun.{validate_expression}
use televault.Db.Table.{any, append_row}
use televault.Db.Profiles.{is_profile, get_profile}
use televault.Db.Schedules.{is_schedule, create_schedule, map_schedule_row, get_schedule}
use televault.Core.Validation.{new_id}
use televault.Db.Table.Laws.{select_append_new}
use televault.Scheduler.Records.{Machine, read_time, write_time, record_to_domain}
use televault.Scheduler.Service.{next_run, zone_of, enabled_of, new_row}
use televault.Scheduler.Effects.{ServiceState}
use televault.Prelude.Parsing.{to_lowercase}
use televault.Prelude.{
  ℕ, ◌≡◌, refl, ◌≢◌, ◌⊎◌, inl, inr, Bool, true, false, Option, none, some, [], ◌∷◌, ◌++◌,
  Option-cases, Text, text, text_eq, text_eq_refl, ok, trim,
}

pub read_schedule_type-text :
    (table : ℕ → Text) (t : ScheduleType) → read_schedule_type table (schedule_type_text t) ≡ ok t
unfolding read_schedule_type schedule_type_text to_lowercase text_eq trim
read_schedule_type-text table interval = refl
read_schedule_type-text table daily = refl
read_schedule_type-text table weekly = refl
read_schedule_type-text table cron = refl

pub read_timezone-text :
    (table : ℕ → Text) (t : TimezoneStrategy) → read_timezone table (timezone_text t) ≡ ok t
unfolding read_timezone timezone_text to_lowercase text_eq trim
read_timezone-text table local = refl
read_timezone-text table utc = refl

-- What a request leaves open: local time, and enabled.
abbrev pub wanted_zone : Option TimezoneStrategy → TimezoneStrategy
wanted_zone none = local
wanted_zone (some z) = z

abbrev pub wanted_enabled : Option Bool → Bool
wanted_enabled none = true
wanted_enabled (some e) = e

-- The schedule that a request stands for.
abbrev pub new_schedule : ℕ → Text → CreateScheduleParams → Option ℕ → Schedule
new_schedule now id params next_run_at = record {
  schedule_id = id;
  profile_id = params.profile_id;
  schedule_type = params.schedule_type;
  expression = params.expression;
  timezone = wanted_zone params.timezone;
  enabled = wanted_enabled params.enabled;
  next_run_at = next_run_at;
  last_run_at = none;
  last_status = some (text "idle");
  last_error_code = none;
  created_at = now;
  updated_at = now;
}

pub zone_of-wanted_zone :
    (params : CreateScheduleParams) → zone_of params ≡ wanted_zone params.timezone
zone_of-wanted_zone params = elim (Option-cases params.timezone) [
  | inl e ↦ rw e refl
  | inr (z, e) ↦ rw e refl
]

pub enabled_of-wanted_enabled :
    (params : CreateScheduleParams) → enabled_of params ≡ wanted_enabled params.enabled
enabled_of-wanted_enabled params = elim (Option-cases params.enabled) [
  | inl e ↦ rw e refl
  | inr (b, e) ↦ rw e refl
]

-- An instant that is read back as it was written.
abbrev pub ReadsBack : Machine → ℕ → Type 0
ReadsBack m t = m.parse_from_rfc3339 (m.to_rfc3339 t) ≡ some t

abbrev pub ReadsBack? : Machine → Option ℕ → Type 0
ReadsBack? m none = Unit
ReadsBack? m (some t) = ReadsBack m t

pub read_time-write_time :
    (m : Machine) (t : Option ℕ) → ReadsBack? m t → read_time m (write_time m t) ≡ t
read_time-write_time m none h = refl
read_time-write_time m (some t) h = h

pub record_to_domain-new_row :
    (m : Machine) (now : ℕ) (id : Text) (params : CreateScheduleParams) (next : Option ℕ)
    → ReadsBack m now
    → ReadsBack? m next
    → record_to_domain m now (new_row m now id params next) ≡ ok (new_schedule now id params next)
unfolding record_to_domain
record_to_domain-new_row m now id params next h k =
    rw
      (
        read_schedule_type-text m.table params.schedule_type,
        read_timezone-text m.table (zone_of params),
        read_time-write_time m next k,
        h,
        zone_of-wanted_zone params,
        enabled_of-wanted_enabled params,
      )
      refl

abbrev pub with_row : ScheduleRecord → Catalog → Catalog
with_row r db = record db { schedules = append_row r db.schedules }

pub create_schedule-ok :
    (r : ScheduleRecord) (db : Catalog)
    → any (is_schedule r.schedule_id) db.schedules ≡ false
    → any (is_profile r.profile_id) db.profiles ≡ true
    → create_schedule r db ≡ ok (tt, with_row r db)
unfolding create_schedule
create_schedule-ok r db h k = rw (h, k) refl

pub get_schedule-with_row :
    (r : ScheduleRecord) (db : Catalog)
    → any (is_schedule r.schedule_id) db.schedules ≡ false
    → new_id (text "Schedule") r.schedule_id ≡ ok r.schedule_id
    → new_id (text "Profile") r.profile_id ≡ ok r.profile_id
    → get_schedule r.schedule_id (with_row r db) ≡ ok (some r, with_row r db)
unfolding get_schedule map_schedule_row
get_schedule-with_row r db h i p =
    rw
      (
        select_append_new (is_schedule r.schedule_id) db.schedules r h (text_eq_refl r.schedule_id),
        i,
        p,
      )
      refl

-- The next run that a request wants: none where it is disabled.
abbrev pub WantedRun : Machine → ℕ → CreateScheduleParams → Option ℕ → Type 0
WantedRun m now params next =
    ((wanted_enabled params.enabled ≡ false) × (next ≡ none))
    ⊎ ((wanted_enabled params.enabled ≡ true)
        × (t : ℕ) × (next ≡ some t)
        × (next_run m params.schedule_type params.expression (wanted_zone params.timezone) now
            ≡ found t))

-- A call that comes to nothing: no result, and the state is as it was.
abbrev pub Refused : ServiceState → Outcome Schedule × ServiceState → Type 0
Refused s (found r, s') = ⊥
Refused s (failed e, s') = s' ≡ s
Refused s (panicked, s') = s' ≡ s
Refused s (out_of_fuel, s') = s' ≡ s

-- Why a call may come to nothing: the expression is not accepted, the profile cannot be read or has
-- no row, the next run of a schedule to be enabled cannot be calculated, or the identifier is taken.
abbrev pub Reason : Machine → ℕ → Text → CreateScheduleParams → Catalog → Type 0
Reason m now id params db =
    (validate_expression m.table params.schedule_type params.expression ≢ found tt)
    ⊎ ((p : ProfileRecord) → get_profile params.profile_id db ≢ ok (some p, db))
    ⊎ ((wanted_enabled params.enabled ≡ true)
        × ((t : ℕ)
            → next_run m params.schedule_type params.expression (wanted_zone params.timezone) now
              ≢ found t))
    ⊎ (any (is_schedule id) db.schedules ≡ true)
    ⊎ (any (is_profile params.profile_id) db.profiles ≡ false)

-- A schedule that has been created, and the state after it.
pub record Created (m : Machine) (now : ℕ) (id : Text) (params : CreateScheduleParams)
    (s : ServiceState) (result : Outcome Schedule × ServiceState) : Type 0 where
  pub schedule : Schedule
  pub row : ScheduleRecord
  pub accepted : validate_expression m.table params.schedule_type params.expression ≡ found tt
  pub fresh : any (is_schedule id) s.db.schedules ≡ false
  pub known : any (is_profile params.profile_id) s.db.profiles ≡ true
  pub named : (schedule.schedule_id ≡ id) × (schedule.profile_id ≡ params.profile_id)
  pub timed :
      (schedule.schedule_type ≡ params.schedule_type)
      × (schedule.expression ≡ params.expression)
      × (schedule.timezone ≡ wanted_zone params.timezone)
  pub switched : schedule.enabled ≡ wanted_enabled params.enabled
  pub planned : WantedRun m now params schedule.next_run_at
  pub never_run : schedule.last_run_at ≡ none
  pub dated : (schedule.created_at ≡ now) × (schedule.updated_at ≡ now)
  pub row_named : (row.schedule_id ≡ id) × (row.profile_id ≡ params.profile_id)
  pub row_enabled : row.enabled ≡ wanted_enabled params.enabled
  pub row_planned : row.next_run_at ≡ write_time m schedule.next_run_at
  pub row_read : record_to_domain m now row ≡ ok schedule
  pub result_is : result ≡ (
    found schedule,
    record s { db = record s.db { schedules = s.db.schedules ++ row ∷ [] }; is_notified = true },
  )
