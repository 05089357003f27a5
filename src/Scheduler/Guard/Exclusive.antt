-- ===== src/Scheduler/Guard/Exclusive.antt =====
-- One guard at a time for a profile (crates/televault-scheduler/src/guard.rs).
use televault.Prelude.{
  ◌≡◌, refl, sym, ◌∙◌, ◌⊎◌, inl, inr, true, false, List, [], ◌∷◌, arith, Text, text_eq_refl, ok,
  err,
}
use televault.Prelude.Keyed.{
  contains, remove, add, Distinct, contains-remove, contains-add, Distinct-remove,
}
use televault.Scheduler.Guard.{
  SchedulerError, ExecutionGuard, ProfileGuard, new_guard, try_acquire, drop, is_running,
  profile_already_running,
}

-- The registry, and the profiles whose guards the callers hold.
pub record World : Type 0 where
  pub registry : ExecutionGuard
  pub held : List Text

abbrev pub world : ExecutionGuard → List Text → World
world g held = record { registry = g; held = held }

-- What callers do: ask for a guard, with the outcome that the code gives, or let go of one they hold.
pub data Step (w : World) : World → Type 0 where
  acquiring :
      (k : Text) (p : ProfileGuard) (g : ExecutionGuard)
      → try_acquire w.registry k ≡ (ok p, g)
      → Step w (world g (p.profile_id ∷ w.held))
  refused :
      (k : Text) (e : SchedulerError) (g : ExecutionGuard)
      → try_acquire w.registry k ≡ (err e, g)
      → Step w (world g w.held)
  releasing :
      (p : ProfileGuard)
      → contains w.held p.profile_id ≡ true
      → Step w (world (drop p w.registry) (remove p.profile_id w.held))

pub data Reach : World → Type 0 where
  here : Reach (world new_guard [])
  next : {v w : World} → Reach v → Step v w → Reach w

-- No profile is held twice, and the registry has exactly those that are held.
pub record Inv (w : World) : Type 0 where
  pub sound : w.registry.is_poisoned ≡ false
  pub once : Distinct w.held
  pub same : (k : Text) → contains w.registry.active_set k ≡ contains w.held k

-- What asking for a guard does: it is refused, and nothing changes, or the profile was free.
try_acquire_cases :
    (g : ExecutionGuard) (k : Text)
    → g.is_poisoned ≡ false
    → ((contains g.active_set k ≡ true) × (try_acquire g k ≡ (err (profile_already_running k), g)))
      ⊎ ((contains g.active_set k ≡ false)
          × (try_acquire g k
              ≡ (ok (record { profile_id = k }), record g { active_set = add k g.active_set })))
unfolding try_acquire
try_acquire_cases g k h = ground arith

acquire-Inv :
    (w : World) (k : Text)
    → Inv w
    → contains w.registry.active_set k ≡ false
    → Inv (world (record w.registry { active_set = add k w.registry.active_set }) (k ∷ w.held))
unfolding contains
acquire-Inv w k i free = record {
  sound = i.sound;
  once = (sym (i.same k) ∙ free, i.once);
  same = λ j. ground (arith, i.same j, contains-add w.registry.active_set k j);
}

drop-Inv :
    (w : World) (p : ProfileGuard)
    → Inv w
    → Inv (world (drop p w.registry) (remove p.profile_id w.held))
unfolding drop
drop-Inv w p i = record {
  sound = ground (arith, i.sound);
  once = Distinct-remove w.held p.profile_id i.once;
  same = λ j. ground (
    arith,
    i.sound,
    i.same j,
    contains-remove w.registry.active_set p.profile_id j,
    contains-remove w.held p.profile_id j,
  );
}

Step-Inv : {v w : World} → Step v w → Inv v → Inv w
Step-Inv {v} (acquiring k p g h) i = elim (try_acquire_cases v.registry k i.sound) [
  | inl (held, e) ↦ absurd (ground arith)
  | inr (free, e) ↦
      let registry : g ≡ record v.registry { active_set = add k v.registry.active_set } =
        ground arith in
      let holder : p.profile_id ≡ k = ground arith in rw (registry, holder) (acquire-Inv v k i free)
]
Step-Inv {v} (refused k e g h) i = elim (try_acquire_cases v.registry k i.sound) [
  | inl (held, e') ↦ let registry : g ≡ v.registry = ground arith in rw registry i
  | inr (free, e') ↦ absurd (ground arith)
]
Step-Inv {v} (releasing p h) i = drop-Inv v p i

Reach-Inv_guard : {w : World} → Reach w → Inv w
Reach-Inv_guard here = record { sound = refl; once = tt; same = λ k. refl }
Reach-Inv_guard (next r s) = Step-Inv s (Reach-Inv_guard r)

-- In every state that callers can bring about, a profile is never held twice, the registry reports a
-- profile as running exactly while its guard is held, and asking for it then is refused and changes
-- nothing, while asking for a free one succeeds and makes it run.
pub guard_exclusive :
    (w : World) (k : Text)
    → Reach w
    → Distinct w.held
      × (is_running w.registry k ≡ contains w.held k)
      × (((contains w.held k ≡ true)
            × (try_acquire w.registry k ≡ (err (profile_already_running k), w.registry)))
          ⊎ ((contains w.held k ≡ false)
              × ((try_acquire w.registry k).0 ≡ ok (record { profile_id = k }))
              × (is_running (try_acquire w.registry k).1 k ≡ true)))
unfolding try_acquire
guard_exclusive w k r =
    let i = Reach-Inv_guard r in
    (
      i.once,
      ground (arith, i.sound, i.same k),
      ground (arith, i.sound, i.same k, contains-add w.registry.active_set k k, text_eq_refl k),
    )
