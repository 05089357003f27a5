-- ===== src/Scheduler/Tests.antt =====
-- The execution guard on concrete inputs.
pub mod Schedules
pub mod Service
use televault.Prelude.{◌≡◌, refl, ◌⊎◌, true, false, [], ◌∷◌, text, text_eq, ok, err}
use televault.Prelude.Keyed.{contains, add, remove, Distinct}
use televault.Scheduler.Guard.{new_guard, try_acquire, drop, is_running}
use televault.Scheduler.Guard.{profile_already_running}
use televault.Scheduler.Guard.Exclusive.{
  here, next, acquiring, World, world, Reach, guard_exclusive,
}

abbrev running : World
running =
    world (record { active_set = text "profile-a" ∷ []; is_poisoned = false })
      (text "profile-a" ∷ [])

acquires_profile :
    try_acquire new_guard (text "profile-a")
    ≡ (ok (record { profile_id = text "profile-a" }), running.registry)
unfolding try_acquire contains add
acquires_profile = refl

reaches_running : Reach running
reaches_running = next here (
    acquiring (text "profile-a") (record { profile_id = text "profile-a" }) running.registry
      acquires_profile)

guard_exclusive_example :
    Distinct running.held
    × (is_running running.registry (text "profile-a") ≡ contains running.held (text "profile-a"))
    × (((contains running.held (text "profile-a") ≡ true)
          × (try_acquire running.registry (text "profile-a")
              ≡ (err (profile_already_running (text "profile-a")), running.registry)))
        ⊎ ((contains running.held (text "profile-a") ≡ false)
            × ((try_acquire running.registry (text "profile-a")).0
                ≡ ok (record { profile_id = text "profile-a" }))
            × (is_running (try_acquire running.registry (text "profile-a")).1 (text "profile-a")
                ≡ true)))
guard_exclusive_example = guard_exclusive running (text "profile-a") reaches_running

-- Letting go makes the profile free again.
released : drop (record { profile_id = text "profile-a" }) running.registry ≡ new_guard
unfolding drop remove text_eq
released = refl
