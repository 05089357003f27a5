-- ===== src/Scheduler/Types.antt =====
-- crates/televault-scheduler/src/types.rs: the kinds of schedule, how they are written and read, and
-- the parameters of the service. An instant is the count of nanoseconds from the first that chrono
-- can represent.
use televault.Scheduler.Guard.{invalid_schedule}
use televault.Scheduler.Guard.{SchedulerError}
use televault.Prelude.Parsing.{to_lowercase}
use televault.Prelude.{
  trim, ℕ, Bool, Option, ◌++◌, if◌then◌else◌, Text, text, text_eq, Result, ok, err,
}

pub data ScheduleType : Type 0 where
  interval daily weekly cron : ScheduleType

-- `Display for ScheduleType`
unfoldable pub schedule_type_text : ScheduleType → Text
schedule_type_text interval = text "interval"
schedule_type_text daily = text "daily"
schedule_type_text weekly = text "weekly"
schedule_type_text cron = text "cron"

-- `FromStr for ScheduleType`
unfoldable pub read_schedule_type : (ℕ → Text) → Text → Result SchedulerError ScheduleType
unfolding to_lowercase text_eq
read_schedule_type table s =
    let other = to_lowercase table (trim s) in
    if text_eq other (text "interval")
    then ok interval
    else if text_eq other (text "daily")
    then ok daily
    else if text_eq other (text "weekly")
    then ok weekly
    else if text_eq other (text "cron")
    then ok cron
    else err (
        invalid_schedule (
          text "Unknown schedule type '"
          ++ (other ++ text "'. Expected: interval, daily, weekly, cron")))

pub data TimezoneStrategy : Type 0 where
  local utc : TimezoneStrategy

-- `Display for TimezoneStrategy`
unfoldable pub timezone_text : TimezoneStrategy → Text
timezone_text local = text "local"
timezone_text utc = text "utc"

-- `FromStr for TimezoneStrategy`
unfoldable pub read_timezone : (ℕ → Text) → Text → Result SchedulerError TimezoneStrategy
unfolding to_lowercase text_eq
read_timezone table s =
    let other = to_lowercase table (trim s) in
    if text_eq other (text "local")
    then ok local
    else if text_eq other (text "utc")
    then ok utc
    else err (
        invalid_schedule
          (text "Unknown timezone strategy '" ++ (other ++ text "'. Expected: local, utc")))

pub data MissedSchedulePolicy : Type 0 where
  run_once_if_missed skip_to_next : MissedSchedulePolicy

pub record Schedule : Type 0 where
  pub schedule_id : Text
  pub profile_id : Text
  pub schedule_type : ScheduleType
  pub expression : Text
  pub timezone : TimezoneStrategy
  pub enabled : Bool
  pub next_run_at : Option ℕ
  pub last_run_at : Option ℕ
  pub last_status : Option Text
  pub last_error_code : Option Text
  pub created_at : ℕ
  pub updated_at : ℕ

pub record CreateScheduleParams : Type 0 where
  pub schedule_id : Option Text
  pub profile_id : Text
  pub schedule_type : ScheduleType
  pub expression : Text
  pub timezone : Option TimezoneStrategy
  pub enabled : Option Bool

pub record UpdateScheduleParams : Type 0 where
  pub schedule_id : Text
  pub schedule_type : Option ScheduleType
  pub expression : Option Text
  pub timezone : Option TimezoneStrategy
  pub enabled : Option Bool

pub data SchedulerServiceStatus : Type 0 where
  running stopped paused : SchedulerServiceStatus

-- `Display for SchedulerServiceStatus`
abbrev pub service_status_text : SchedulerServiceStatus → Text
service_status_text running = text "running"
service_status_text stopped = text "stopped"
service_status_text paused = text "paused"
