-- ===== src/Scheduler/Loop/Restart.antt =====
-- Starting the service of crates/televault-scheduler/src/service.rs again after it was stopped.
use televault.Scheduler.Clock.{found}
use televault.Scheduler.Types.{running}
use televault.Scheduler.Records.{Machine}
use televault.Scheduler.Service.{start, stop}
use televault.Scheduler.Effects.{ServiceState, ◌>>◌}
use televault.Scheduler.Loop.{broken, Encounter, scheduler_round}
use televault.Prelude.{ℕ, ◌≡◌, refl, true}

-- Whatever was before, a service that is stopped and started again reports that it runs and has a task,
-- and at every time, the first round of its loop breaks and changes nothing, since the cancellation
-- token stays cancelled: no schedule is executed any more.
pub start_after_stop :
    (m : Machine) (s : ServiceState) (now : ℕ) (meet : ℕ → Encounter)
    → let again = ((stop >> start) s).1 in
      (again.status ≡ running)
      × (again.has_task ≡ true)
      × (scheduler_round m now meet again ≡ (found broken, again))
unfolding start stop scheduler_round
start_after_stop m s now meet = (refl, refl, refl)
