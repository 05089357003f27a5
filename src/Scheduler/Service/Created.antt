-- ===== src/Scheduler/Service/Created.antt =====
-- What `create_schedule` of crates/televault-scheduler/src/service.rs leaves and returns.
use televault.Scheduler.Service.Reasons.{
  get_profile_same, create_schedule-eq-ok, first_run-WantedRun, no_run, WantedRun-ReadsBack,
}
use televault.Scheduler.Service.Wanted.{
  wanted_zone, new_schedule, enabled_of-wanted_enabled, ReadsBack, ReadsBack?,
  record_to_domain-new_row, with_row, create_schedule-ok, get_schedule-with_row, WantedRun, Refused,
  Reason, Created,
}
use televault.Scheduler.Clock.{found, failed, panicked, out_of_fuel, Outcome}
use televault.Scheduler.Types.{Schedule, CreateScheduleParams}
use televault.Db.Catalog.{ProfileRecord, ScheduleRecord, Catalog, Query, with_transaction}
use televault.Scheduler.NextRun.{validate_expression}
use televault.Db.Table.{any}
use televault.Db.Profiles.{is_profile, get_profile}
use televault.Db.Schedules.{is_schedule, create_schedule}
use televault.Core.Validation.{new_id}
use televault.Scheduler.Records.{Machine}
use televault.Scheduler.Service.{
  get_domain_schedule, next_run, require_profile, new_schedule_id, first_run, new_row,
  create_domain_schedule,
}
use televault.Scheduler.Effects.{ServiceState, Service, and_then, query}
use televault.Prelude.{
  ℕ, ◌≡◌, refl, sym, subst, ◌≢◌, ◌⊎◌, inl, inr, true, false, Option, none, some, Bool-cases, Text,
  text, ok, Result-cases,
}

module _ (m : Machine) (now : ℕ) (stamp id : Text) (params : CreateScheduleParams)
    (s : ServiceState) where
  abbrev Why : Type 0
  Why = Reason m now id params s.db

  abbrev Ends : Outcome Schedule × ServiceState → Type 0
  Ends r = (Refused s r × Why) ⊎ Created m now id params s r

  pure_then-Ends :
      {A : Type 0} (r : Outcome A) (f : A → Service Schedule)
      → (((a : A) → r ≢ found a) → Why)
      → ((a : A) → r ≡ found a → Ends (f a s))
      → Ends (and_then f (r, s))
  pure_then-Ends (found a) f why k = k a refl
  pure_then-Ends (failed e) f why k = inl (refl, why (λ a h. cc h))
  pure_then-Ends panicked f why k = inl (refl, why (λ a h. cc h))
  pure_then-Ends out_of_fuel f why k = inl (refl, why (λ a h. cc h))

  query_then-Ends :
      {A : Type 0} (q : Query A) (f : A → Service Schedule)
      → (((a : A) (db : Catalog) → q s.db ≢ ok (a, db)) → Why)
      → ((a : A) (db : Catalog) → q s.db ≡ ok (a, db) → Ends (f a (record s { db = db })))
      → Ends (and_then f (query m q s))
  unfolding with_transaction
  query_then-Ends q f why k = elim (Result-cases (q s.db)) [
    | inl ((a, db), h) ↦ rw h (k a db h)
    | inr (e, h) ↦ rw h (inl (refl, why (λ a db g. cc (h, g))))
  ]

  profile_then-Ends :
      (f : Option ProfileRecord → Service Schedule)
      → ((a : Option ProfileRecord)
          → get_profile params.profile_id s.db ≡ ok (a, s.db)
          → Ends (f a s))
      → Ends (and_then f (query m (get_profile params.profile_id) s))
  profile_then-Ends f k =
      query_then-Ends (get_profile params.profile_id) f
        (λ never. inr (inl (λ p h. never (some p) s.db h)))
        (λ a db e.
          let same = get_profile_same params.profile_id s.db a db e in
          subst (λ d. Ends (f a (record s { db = d }))) (sym same)
            (k a (subst (λ d. get_profile params.profile_id s.db ≡ ok (a, d)) same e)))

  required_then-Ends :
      (p : Option ProfileRecord) (f : Unit {0} → Service Schedule)
      → get_profile params.profile_id s.db ≡ ok (p, s.db)
      → Ends (f tt s)
      → Ends (and_then f (require_profile params.profile_id p, s))
  required_then-Ends (some p) f e k = k
  required_then-Ends none f e k = inl (refl, inr (inl (λ p h. cc (e, h))))

  run_then-Ends :
      (f : Option ℕ → Service Schedule)
      → ((next : Option ℕ) → first_run m now params ≡ found next → Ends (f next s))
      → Ends (and_then f (first_run m now params, s))
  run_then-Ends f k =
      pure_then-Ends (first_run m now params) f
        (λ never. inr (inr (inl (no_run m now params never)))) k

  named_then-Ends :
      (f : Text → Service Schedule)
      → params.schedule_id ≡ some id
      → Ends (f id s)
      → Ends (and_then f (new_schedule_id stamp params.schedule_id, s))
  named_then-Ends f e k =
      subst (λ given. Ends (and_then f (new_schedule_id stamp given, s))) (sym e) k

  create_schedule_why :
      (row : ScheduleRecord)
      → ((a : Unit {0}) (db : Catalog) → create_schedule row s.db ≢ ok (a, db))
      → row.schedule_id ≡ id
      → row.profile_id ≡ params.profile_id
      → Why
  create_schedule_why row never i p =
      elim (Bool-cases (any (is_schedule row.schedule_id) s.db.schedules)) [
        | inl a ↦ inr (inr (inr (inl (subst (λ k. any (is_schedule k) s.db.schedules ≡ true) i a))))
        | inr a ↦ elim (Bool-cases (any (is_profile row.profile_id) s.db.profiles)) [
          | inl b ↦ absurd (never tt _ (create_schedule-ok row s.db a b))
          | inr b ↦
              inr (inr (inr (inr (subst (λ k. any (is_profile k) s.db.profiles ≡ false) p b))))
        ]
      ]

  create_then-Ends :
      (row : ScheduleRecord) (f : Unit {0} → Service Schedule)
      → row.schedule_id ≡ id
      → row.profile_id ≡ params.profile_id
      → (any (is_schedule row.schedule_id) s.db.schedules ≡ false
          → any (is_profile row.profile_id) s.db.profiles ≡ true
          → Ends (f tt (record s { db = with_row row s.db })))
      → Ends (and_then f (query m (create_schedule row) s))
  create_then-Ends row f i p k =
      query_then-Ends (create_schedule row) f (λ never. create_schedule_why row never i p)
        (λ a db e.
          let (fresh, known, same) = create_schedule-eq-ok row s.db db e in
          subst (λ d. Ends (f tt (record s { db = d }))) (sym same) (k fresh known))

  created :
      (next : Option ℕ)
      → validate_expression m.table params.schedule_type params.expression ≡ found tt
      → new_id (text "Schedule") id ≡ ok id
      → new_id (text "Profile") params.profile_id ≡ ok params.profile_id
      → ReadsBack m now
      → ReadsBack? m next
      → WantedRun m now params next
      → any (is_schedule id) s.db.schedules ≡ false
      → any (is_profile params.profile_id) s.db.profiles ≡ true
      → Created m now id params s (
          get_domain_schedule m now id
            (record s { db = with_row (new_row m now id params next) s.db; is_notified = true }))
  unfolding get_domain_schedule with_transaction
  created next accepted i p h k planned fresh known = record {
    schedule = new_schedule now id params next;
    row = new_row m now id params next;
    accepted = accepted;
    fresh = fresh;
    known = known;
    named = (refl, refl);
    timed = (refl, refl, refl);
    switched = refl;
    planned = planned;
    never_run = refl;
    dated = (refl, refl);
    row_named = (refl, refl);
    row_enabled = enabled_of-wanted_enabled params;
    row_planned = refl;
    row_read = record_to_domain-new_row m now id params next h k;
    result_is =
        rw
          (
            get_schedule-with_row (new_row m now id params next) s.db fresh i p,
            record_to_domain-new_row m now id params next h k,
          )
          refl;
  }

-- A request with a given identifier, where the two identifiers are valid, as their types ask, and the
-- present and each next run that can be calculated from it are read back as they are written (which
-- chrono does in the years 0 to 9999). The call comes to nothing and leaves the whole state as it was,
-- and the expression is not accepted, the profile cannot be read or has no row, the next run of a
-- schedule to be enabled cannot be calculated, or the identifier is taken; or the expression was
-- accepted, the identifier was new, the profile has a row, and the call returns the schedule that was
-- asked for, in local time and enabled where that is left open, with the
-- calculated next run, or none where it is disabled, and never run; the catalogue has just a row more,
-- which is read as that schedule, the loop is notified, and the rest of the state is as it was.
pub create_domain_schedule-Created :
    (m : Machine) (now : ℕ) (stamp id : Text) (params : CreateScheduleParams) (s : ServiceState)
    → params.schedule_id ≡ some id
    → new_id (text "Schedule") id ≡ ok id
    → new_id (text "Profile") params.profile_id ≡ ok params.profile_id
    → m.parse_from_rfc3339 (m.to_rfc3339 now) ≡ some now
    → ((t : ℕ)
        → next_run m params.schedule_type params.expression (wanted_zone params.timezone) now
          ≡ found t
        → m.parse_from_rfc3339 (m.to_rfc3339 t) ≡ some t)
    → (Refused s (create_domain_schedule m now stamp params s) × Reason m now id params s.db)
      ⊎ Created m now id params s (create_domain_schedule m now stamp params s)
unfolding create_domain_schedule
create_domain_schedule-Created m now stamp id params s e i p h k =
    pure_then-Ends m now stamp id params s
      (validate_expression m.table params.schedule_type params.expression) _
      (λ never. inl (λ g. never tt g))
      (λ u accepted. profile_then-Ends m now stamp id params s _ (λ profile there.
        required_then-Ends m now stamp id params s profile _ there (
          named_then-Ends m now stamp id params s _ e (
            run_then-Ends m now stamp id params s _ (λ next run.
              let planned = first_run-WantedRun m now params next run in
              create_then-Ends m now stamp id params s (new_row m now id params next) _ refl refl
                (λ fresh known. inr (
                  created m now stamp id params s next accepted i p h
                    (WantedRun-ReadsBack m now params next k planned) planned fresh known)))))))
