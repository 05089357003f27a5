-- ===== src/Scheduler/Guard.antt =====
-- crates/televault-scheduler/src/guard.rs: the registry of running profiles and its guards, with the
-- error of crates/televault-scheduler/src/error.rs. Errors of other crates are kept by their printed
-- forms.
pub mod Exclusive
use televault.Prelude.{Bool, true, false, List, [], Text, text, if◌then◌else◌, Result, ok, err}
use televault.Prelude.Keyed.{contains, add, remove}

pub data SchedulerError : Type 0 where
  database backup core : Text → SchedulerError
  schedule_not_found profile_not_found invalid_schedule invalid_expression schedule_conflict :
      Text → SchedulerError
  profile_already_running : Text → SchedulerError
  cancelled : SchedulerError
  unavailable : Text → SchedulerError
  internal : Text → SchedulerError

-- `ExecutionGuard`: the set behind the mutex, and whether a panic has poisoned the mutex.
pub record ExecutionGuard : Type 0 where
  pub active_set : List Text
  pub is_poisoned : Bool

pub record ProfileGuard : Type 0 where
  pub profile_id : Text

-- `ExecutionGuard::new`
abbrev pub new_guard : ExecutionGuard
new_guard = record { active_set = []; is_poisoned = false }

-- `ExecutionGuard::try_acquire`
unfoldable pub try_acquire :
    ExecutionGuard → Text → Result SchedulerError ProfileGuard × ExecutionGuard
try_acquire g profile_id =
    if g.is_poisoned
    then (
      err (
          internal
            (text "Execution guard lock poisoned: poisoned lock: another task failed inside")),
      g,
    )
    else if contains g.active_set profile_id
    then (err (profile_already_running profile_id), g)
    else (
      ok (record { profile_id = profile_id }),
      record g { active_set = add profile_id g.active_set },
    )

-- `Drop for ProfileGuard`
unfoldable pub drop : ProfileGuard → ExecutionGuard → ExecutionGuard
drop p g = if g.is_poisoned then g else record g { active_set = remove p.profile_id g.active_set }

-- `ExecutionGuard::is_running`
abbrev pub is_running : ExecutionGuard → Text → Bool
is_running g profile_id = if g.is_poisoned then false else contains g.active_set profile_id

-- `ExecutionGuard::active_profiles`
abbrev pub active_profiles : ExecutionGuard → List Text
active_profiles g = if g.is_poisoned then [] else g.active_set
