-- ===== src/Transfer/Engine/Staged.antt =====
-- The retry loop as a whole (crates/televault-transfer/src/engine.rs).
use televault.Prelude.{
  ℕ, zero, suc, ◌+◌, ◌-◌, ◌<◌, ◌^◌, Bool, false, ◌≡◌, inl, inr, Option, some, Result, arith, ap,
  ◌∙◌,
}
use televault.Manifest.Types.{StorageReference}
use televault.Storage.Error.{StorageError}
use televault.Transfer.Error.{TransferError}
use televault.Transfer.Retry.{RetryPolicy, Float}
use televault.Transfer.Worker.Phases.{can_start}
use televault.Transfer.Engine.{Engine, Round, upload_stream, execute_staged_upload, rest_after}
use televault.Transfer.Engine.Attempt.{round_cases, upload_stream-Again}

module _ {F64 : Type 0} (policy : RetryPolicy F64) (callback : Bool) (float : Float F64)
    (cleanup : Result StorageError (Unit {0})) (world : ℕ → Round)
    (word : policy.max_retries < 2 ^ 32) where
  abbrev loop : ℕ → ℕ → Engine → Option (Result TransferError StorageReference × Engine)
  loop = execute_staged_upload policy callback float cleanup world

  abbrev Ends : ℕ → ℕ → Engine → Type 0
  Ends fuel n s = (x : Result TransferError StorageReference × Engine) × (loop fuel n s ≡ some x)

  -- A job that hangs in `verifying` is refused in the next round.
  stuck : (fuel n : ℕ) (s : Engine) → can_start s.run.job.state ≡ false → Ends (suc fuel) n s
  stuck fuel n s h = elim (round_cases policy callback float cleanup world fuel n s) [
    | inl done ↦ done
    | inr (e, f, t, c, next) ↦ absurd (
        cc (h, (upload_stream-Again policy callback (world n).provider (world n).seen s e f t c).0))
  ]

  stuck_soon :
      (fuel n : ℕ) (s : Engine) → 0 < fuel → can_start s.run.job.state ≡ false → Ends fuel n s
  stuck_soon zero n s h k = absurd (omega arith)
  stuck_soon (suc fuel) n s h k = stuck fuel n s k

  abbrev later : ℕ → Engine → Engine
  later n s =
      rest_after policy callback float cleanup world
        (upload_stream policy callback (world n).provider (world n).seen s).1

  counted :
      (fuel n : ℕ) (s : Engine)
      → policy.max_retries - s.run.job.retry_count + 1 < fuel
      → Ends fuel n s
  counted zero n s h = absurd (omega arith)
  counted (suc fuel) n s h = elim (round_cases policy callback float cleanup world fuel n s) [
    | inl done ↦ done
    | inr (e, f, t, c, next) ↦
        elim (upload_stream-Again policy callback (world n).provider (world n).seen s e f t c).1 [
          | inl (room, again, count) ↦
              let (x, eq) = counted fuel (suc n) (later n s) (omega arith) in (x, next ∙ eq)
          | inr (hangs, count) ↦
              let (x, eq) =
                stuck_soon fuel (suc n) (later n s) (omega arith) (ap can_start hangs) in
              (x, next ∙ eq)
        ]
  ]

  -- For a policy whose `max_retries` fits in 32 bits, the loop ends within `max_retries + 2` rounds,
  -- whatever the provider answers and whoever cancels.
  pub execute_staged_upload_ends :
      (n : ℕ) (s : Engine)
      → (x : Result TransferError StorageReference × Engine) × (execute_staged_upload policy
            callback float cleanup world
            (policy.max_retries + 2)
            n
            s
          ≡ some x)
  execute_staged_upload_ends n s = counted (policy.max_retries + 2) n s (omega arith)
