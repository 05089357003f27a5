-- ===== src/Scheduler/Execution/Guarded.antt =====
-- One execution of a schedule (crates/televault-scheduler/src/service.rs) and the registry of running
-- profiles.
use televault.Scheduler.Clock.{found, failed, panicked, out_of_fuel}
use televault.Scheduler.Clock.{Outcome, found, failed, panicked, out_of_fuel}
use televault.Scheduler.Guard.{SchedulerError, ExecutionGuard, ProfileGuard, try_acquire, drop}
use televault.Scheduler.Types.{Schedule}
use televault.Db.Catalog.{ProfileRecord, Catalog, Query, with_transaction}
use televault.Db.Profiles.{get_profile}
use televault.Prelude.Keyed.{contains, add, remove}
use televault.Scheduler.Records.{Machine}
use televault.Scheduler.Effects.{ServiceState, Service, and_then, query}
use televault.Scheduler.Execution.{
  BackupSummary, Occasion, next_of, run_guarded, skip_busy, skip_disabled, released, on_acquired,
  for_profile, execute_single_scheduled_backup,
}
use televault.Prelude.{
  ◌≡◌, refl, sym, ap, ◌∙◌, subst, ◌⊎◌, inl, inr, false, Option, none, some, List, [], ◌∷◌, arith,
  Bool-cases, if_split, Text, text_eq_refl, Result, ok, err, Result-cases,
}

remove-absent : (s : List Text) (k : Text) → contains s k ≡ false → remove k s ≡ s
unfolding contains remove
remove-absent [] k h = refl
remove-absent (j ∷ s) k h = ground (arith, remove-absent s k)

remove-add : (s : List Text) (k : Text) → contains s k ≡ false → remove k (add k s) ≡ s
unfolding add remove
remove-add s k h = ground (arith, remove-absent s k h, text_eq_refl k)

-- A chain whose parts leave the registry as it is.
Keeps : ExecutionGuard → {A : Type 0} → Outcome A × ServiceState → Type 0
Keeps g (r, s) = s.execution_guard ≡ g

and_then-Keeps :
    (g : ExecutionGuard) {A B : Type 0} (f : A → Service B) (r : Outcome A) (s : ServiceState)
    → ((a : A) → Keeps g (f a s))
    → Keeps g (r, s)
    → Keeps g (and_then f (r, s))
unfolding Keeps
and_then-Keeps g f (found a) s k h = k a
and_then-Keeps g f (failed e) s k h = h
and_then-Keeps g f panicked s k h = h
and_then-Keeps g f out_of_fuel s k h = h

module _ (m : Machine) (o : Occasion) (schedule : Schedule) where
  run_guarded-Keeps :
      (p : ProfileRecord) (s : ServiceState)
      → Keeps s.execution_guard (run_guarded m o schedule p s)
  unfolding run_guarded Keeps
  run_guarded-Keeps p s =
      and_then-Keeps s.execution_guard _ (next_of m schedule o.after) _ (λ t. refl) refl

  skip_busy-Keeps : (s : ServiceState) → Keeps s.execution_guard (skip_busy m o schedule s)
  unfolding skip_busy Keeps
  skip_busy-Keeps s =
      and_then-Keeps s.execution_guard _ (next_of m schedule o.now) _ (λ t. refl) refl

  skip_disabled-Keeps : (s : ServiceState) → Keeps s.execution_guard (skip_disabled m o schedule s)
  unfolding skip_disabled Keeps
  skip_disabled-Keeps s =
      and_then-Keeps s.execution_guard _ (next_of m schedule o.now) _ (λ t. refl) refl

-- What a query leads to depends on its result and on the catalog that it leaves.
module _ (m : Machine) {A B : Type 0} (s : ServiceState) where
  query_then :
      (P : Outcome B × ServiceState → Type 0) (q : Query A) (f : A → Service B)
      → ((e : SchedulerError) (db : Catalog) → P (failed e, record s { db = db }))
      → ((a : A) (db : Catalog) → P (f a (record s { db = db })))
      → P (and_then f (query m q s))
  query_then P q f err_case k = elim (Result-cases (with_transaction q s.db).0) [
    | inl (a, h) ↦ rw h (k a (with_transaction q s.db).1)
    | inr (e, h) ↦ rw h (err_case _ (with_transaction q s.db).1)
  ]

  query_then_same :
      (q : Query A) (f g : A → Service B)
      → ((a : A) (db : Catalog) → f a (record s { db = db }) ≡ g a (record s { db = db }))
      → and_then f (query m q s) ≡ and_then g (query m q s)
  query_then_same q f g k = elim (Result-cases (with_transaction q s.db).0) [
    | inl (a, h) ↦ rw h (k a (with_transaction q s.db).1)
    | inr (e, h) ↦ rw h refl
  ]

abbrev pub acquired : Text → ExecutionGuard → ExecutionGuard
acquired k g = record g { active_set = add k g.active_set }

-- The registry refuses, and stays; or the profile was free, and is taken.
abbrev Acquired :
    ExecutionGuard → Text → Result SchedulerError ProfileGuard × ExecutionGuard → Type 0
Acquired g k r =
    ((e : SchedulerError) × (r ≡ (err e, g)))
    ⊎ ((contains g.active_set k ≡ false)
        × (g.is_poisoned ≡ false)
        × (r ≡ (ok (record { profile_id = k }), acquired k g)))

try_acquire-Acquired : (g : ExecutionGuard) (k : Text) → Acquired g k (try_acquire g k)
unfolding try_acquire
try_acquire-Acquired g k =
    if_split (Acquired g k) g.is_poisoned (λ h. inl (_, refl))
      (λ h.
        if_split (Acquired g k) (contains g.active_set k) (λ c. inl (_, refl))
          (λ c. inr (c, h, refl)))

drop-acquired :
    (g : ExecutionGuard) (k : Text)
    → contains g.active_set k ≡ false
    → g.is_poisoned ≡ false
    → drop (record { profile_id = k }) (acquired k g) ≡ g
unfolding drop
drop-acquired g k h p =
    if_split (λ r. r ≡ g) g.is_poisoned (λ q. cc)
      (λ q. ap (λ l. record g { active_set = l }) (remove-add g.active_set k h))

-- The registry is as it was; or a search in local time goes on, and keeps the profile, which was free.
abbrev pub Restored : ExecutionGuard → Text → Outcome (Option Text) × ServiceState → Type 0
Restored g k r =
    (r.1.execution_guard ≡ g)
    ⊎ ((r.0 ≡ out_of_fuel)
        × (contains g.active_set k ≡ false)
        × (r.1.execution_guard ≡ acquired k g))

released-Restored :
    (g : ExecutionGuard) (k : Text) (r : Outcome (Option Text) × ServiceState)
    → contains g.active_set k ≡ false
    → g.is_poisoned ≡ false
    → r.1.execution_guard ≡ acquired k g
    → Restored g k (released (record { profile_id = k }) r)
released-Restored g k (found a, s) free sound h =
    inl (ap (drop (record { profile_id = k })) h ∙ drop-acquired g k free sound)
released-Restored g k (failed e, s) free sound h =
    inl (ap (drop (record { profile_id = k })) h ∙ drop-acquired g k free sound)
released-Restored g k (panicked, s) free sound h =
    inl (ap (drop (record { profile_id = k })) h ∙ drop-acquired g k free sound)
released-Restored g k (out_of_fuel, s) free sound h = inr (refl, free, h)

Keeps-Restored :
    (g : ExecutionGuard) (k : Text) (r : Outcome (Option Text) × ServiceState)
    → Keeps g r
    → Restored g k r
unfolding Keeps
Keeps-Restored g k r h = inl h

module _ (m : Machine) (o : Occasion) (schedule : Schedule) where
  abbrev Leaves : ServiceState → Outcome (Option Text) × ServiceState → Type 0
  Leaves s = Restored s.execution_guard schedule.profile_id

  on_acquired-Restored :
      (s : ServiceState) (p : ProfileRecord)
      → Leaves s (on_acquired m o schedule p s (try_acquire s.execution_guard schedule.profile_id))
  unfolding Keeps
  on_acquired-Restored s p = elim (try_acquire-Acquired s.execution_guard schedule.profile_id) [
    | inl (e, h) ↦ rw h (inl (skip_busy-Keeps m o schedule s))
    | inr (free, sound, h) ↦
        let g = s.execution_guard in
        let taken = record s { execution_guard = acquired schedule.profile_id g } in
        subst (λ r. Leaves s (on_acquired m o schedule p s r)) (sym h)
          (released-Restored g schedule.profile_id (run_guarded m o schedule p taken) free sound
            (run_guarded-Keeps m o schedule p taken))
  ]

  for_profile-Restored :
      (s : ServiceState) (p : Option ProfileRecord) → Leaves s (for_profile m o schedule p s)
  unfolding for_profile Keeps
  for_profile-Restored s none = inl refl
  for_profile-Restored s (some p) =
      if_split (λ (f : Service (Option Text)). Leaves s (f s)) p.enabled
        (λ h. on_acquired-Restored s p) (λ h. inl (skip_disabled-Keeps m o schedule s))

  -- Where the guard is refused, the backup is not asked.
  for_profile_same :
      (run : ProfileRecord → Catalog → Result Text BackupSummary × Catalog) (e : SchedulerError)
      (s : ServiceState) (p : Option ProfileRecord)
      → try_acquire s.execution_guard schedule.profile_id ≡ (err e, s.execution_guard)
      → for_profile m (record o { run_backup = run }) schedule p s ≡ for_profile m o schedule p s
  unfolding for_profile skip_busy skip_disabled
  for_profile_same run e s none h = refl
  for_profile_same run e s (some p) h = elim (Bool-cases p.enabled) [
    | inl k ↦ rw (k, h) refl
    | inr k ↦ rw k refl
  ]

-- One execution of a schedule that ends (with a result, an error or a panic) leaves the registry of
-- running profiles as it found it; where its search in local time goes on without an end, the registry
-- is as it was or has the profile besides, which was free. And an execution runs a backup only where
-- the profile was not running and the registry is not poisoned: otherwise its outcome and the state
-- that it leaves do not depend on what a backup would do.
pub execute_single-Guarded :
    (m : Machine) (o : Occasion) (schedule : Schedule) (s : ServiceState)
    → Restored s.execution_guard schedule.profile_id
        (execute_single_scheduled_backup m o schedule s)
      × ((contains s.execution_guard.active_set schedule.profile_id ≡ false)
            × (s.execution_guard.is_poisoned ≡ false)
          ⊎ ((run : ProfileRecord → Catalog → Result Text BackupSummary × Catalog)
              → execute_single_scheduled_backup m (record o { run_backup = run }) schedule s
                ≡ execute_single_scheduled_backup m o schedule s))
unfolding execute_single_scheduled_backup
execute_single-Guarded m o schedule s = (
  query_then m s (Restored s.execution_guard schedule.profile_id) (get_profile schedule.profile_id)
      (for_profile m o schedule) (λ e db. inl refl)
      (λ p db. for_profile-Restored m o schedule (record s { db = db }) p),
  elim (try_acquire-Acquired s.execution_guard schedule.profile_id) [
    | inl (e, h) ↦ inr (λ run.
        query_then_same m s (get_profile schedule.profile_id) _ _
          (λ p db. for_profile_same m o schedule run e (record s { db = db }) p h))
    | inr (free, sound, h) ↦ inl (free, sound)
  ],
)
