-- ===== src/Scheduler/Effects.antt =====
-- The state of the scheduler service (crates/televault-scheduler/src/service.rs) and its statements: the
-- catalog, the registry of running profiles, the status behind the mutex, the cancellation token, a
-- notification that waits, and the handle of the loop. What a statement changed before an error stays.
use televault.Scheduler.Guard.{database}
use televault.Scheduler.Clock.{found, failed, panicked, out_of_fuel}
use televault.Scheduler.Types.{stopped}
use televault.Scheduler.Guard.{ExecutionGuard, new_guard, database}
use televault.Scheduler.Clock.{Outcome, found, failed, panicked, out_of_fuel}
use televault.Scheduler.Types.{SchedulerServiceStatus, stopped}
use televault.Db.Catalog.{DbError, Catalog, Query, with_transaction}
use televault.Retention.Engine.{db_error_text}
use televault.Scheduler.Records.{Machine}
use televault.Prelude.{Bool, true, false, Result, ok, err}

pub record ServiceState : Type 0 where
  pub db : Catalog
  pub execution_guard : ExecutionGuard
  pub status : SchedulerServiceStatus
  pub is_cancelled : Bool
  pub is_notified : Bool
  pub has_task : Bool

-- `SchedulerService::new`
abbrev pub new_service : Catalog → ServiceState
new_service db = record {
  db = db;
  execution_guard = new_guard;
  status = stopped;
  is_cancelled = false;
  is_notified = false;
  has_task = false;
}

abbrev pub Service : Type 0 → Type 0
Service A = ServiceState → Outcome A × ServiceState

abbrev pub and_then :
    {A B : Type 0} → (A → Service B) → Outcome A × ServiceState → Outcome B × ServiceState
and_then f (found a, s) = f a s
and_then f (failed e, s) = (failed e, s)
and_then f (panicked, s) = (panicked, s)
and_then f (out_of_fuel, s) = (out_of_fuel, s)

infixl 5 ◌>>=◌ ◌>>◌
abbrev pub ◌>>=◌ : {A B : Type 0} → Service A → (A → Service B) → Service B
(step >>= rest) s = and_then rest (step s)

abbrev pub ◌>>◌ : {B : Type 0} → Service (Unit {0}) → Service B → Service B
(step >> rest) s = and_then (λ u. rest) (step s)

abbrev pub return : {A : Type 0} → A → Service A
return a s = (found a, s)

-- What touches no state.
abbrev pub pure : {A : Type 0} → Outcome A → Service A
pure r s = (r, s)

abbrev pub after_query :
    {A : Type 0} → Machine → ServiceState → Result DbError A × Catalog → Outcome A × ServiceState
after_query m s (ok a, db) = (found a, record s { db = db })
after_query m s (err e, db) = (failed (database (db_error_text m.sql_text e)), record s { db = db })

-- `self.db.call(..)?`
abbrev pub query : {A : Type 0} → Machine → Query A → Service A
query m q s = after_query m s (with_transaction q s.db)

-- `let _ = db.call(..);`
abbrev pub quietly : {A : Type 0} → Query A → Service (Unit {0})
quietly q s = (found tt, record s { db = (with_transaction q s.db).1 })

-- `self.notify.notify_one()`
abbrev pub notify_one : Service (Unit {0})
notify_one s = (found tt, record s { is_notified = true })
