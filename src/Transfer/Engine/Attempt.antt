-- ===== src/Transfer/Engine/Attempt.antt =====
-- One round of the retry loop (crates/televault-transfer/src/engine.rs).
use televault.Prelude.{
  ℕ, suc, ◌+◌, ◌<◌, ◌^◌, ◌%◌, Bool, true, false, ◌≡◌, ◌⊎◌, inl, inr, Option, some, Result, ok, err,
  Result-cases, Bool-cases, Option-cases, arith, ap, ◌∙◌, refl,
}
use televault.Manifest.Types.{StorageReference}
use televault.Storage.Error.{StorageError}
use televault.Storage.Types.{StorageProvider}
use televault.Transfer.Error.{TransferError, is_retryable, io}
use televault.Transfer.State.{retrying, verifying}
use televault.Transfer.Retry.{RetryPolicy, Float, can_retry}
use televault.Transfer.Effects.{Run}
use televault.Transfer.Worker.{Observed, execute_upload, begin_upload}
use televault.Transfer.Worker.Phases.{can_start, begin_upload_refuses, begin_upload-eq-ok}
use televault.Transfer.Worker.Upload.{Ends, execute_upload-Ends}
use televault.Transfer.Engine.{
  Engine, Round, upload_stream, execute_staged_upload, after_upload, rest_after,
}

module _ {F64 : Type 0} (policy : RetryPolicy F64) (callback : Bool) (provider : StorageProvider)
    (seen : Observed) where
  -- An upload of a job that is not in a state to start fails with an error that is final.
  pub execute_upload_refuses :
      (r : Run) (x : TransferError)
      → can_start r.job.state ≡ false
      → (execute_upload policy callback provider seen r).0 ≡ err x
      → is_retryable x ≡ false
  unfolding execute_upload
  execute_upload_refuses r x h k = elim (Result-cases (begin_upload seen.at_start r).0) [
    | inl (job, e) ↦ absurd (cc (h, (begin_upload-eq-ok r seen.at_start job e).1))
    | inr (y, e) ↦
        let same : y ≡ x = cc in begin_upload_refuses r seen.at_start x h (e ∙ ap err same)
  ]

-- How an upload that is to be tried again has left the job.
abbrev pub Again : {F64 : Type 0} → RetryPolicy F64 → Run → Run → Type 0
Again policy before after =
    ((before.job.retry_count < policy.max_retries)
      × (after.job.state ≡ retrying)
      × (after.job.retry_count ≡ (before.job.retry_count + 1) % 2 ^ 32))
    ⊎ ((after.job.state ≡ verifying) × (after.job.retry_count ≡ before.job.retry_count))

cancelled_is_final : is_retryable TransferError.cancelled ≡ false
unfolding is_retryable
cancelled_is_final = refl

Again-of_Ends :
    {F64 : Type 0} (policy : RetryPolicy F64) (provider : StorageProvider) (before : Run)
    (p : Result TransferError StorageReference × Run) (x : TransferError)
    → Ends policy provider before.job p
    → p.0 ≡ err x
    → is_retryable x ≡ true
    → can_retry policy p.1.job.retry_count ≡ true
    → Again policy before p.1
Again-of_Ends policy provider before (ok reference, after) x ends e t c = cc
Again-of_Ends policy provider before (err y, after) x (inl ends) e t c =
    absurd (ground (arith, cancelled_is_final))
Again-of_Ends policy provider before (err y, after) x (inr (inl ends)) e t c =
    inl (ends.1, ends.2, ends.3)
Again-of_Ends policy provider before (err y, after) x (inr (inr (inl ends))) e t c =
    absurd (ground arith)
Again-of_Ends policy provider before (err y, after) x (inr (inr (inr ends))) e t c =
    inr (ends.4, ends.5)

-- An upload that is tried again was taken up, and has counted a retry or hangs in `verifying`.
pub upload_stream-Again :
    {F64 : Type 0} (policy : RetryPolicy F64) (callback : Bool) (provider : StorageProvider)
    (seen : Observed) (s : Engine) (x : TransferError)
    → (upload_stream policy callback provider seen s).0 ≡ err x
    → is_retryable x ≡ true
    → can_retry policy (upload_stream policy callback provider seen s).1.run.job.retry_count ≡ true
    → (can_start s.run.job.state ≡ true)
      × Again policy s.run (upload_stream policy callback provider seen s).1.run
unfolding upload_stream
upload_stream-Again policy callback provider seen s x e t c =
    elim (Bool-cases (can_start s.run.job.state)) [
      | inl h ↦ (
        h,
        Again-of_Ends policy provider s.run (execute_upload policy callback provider seen s.run) x
            (execute_upload-Ends policy callback provider seen s.run h) e t c,
      )
      | inr h ↦ cc (t, execute_upload_refuses policy callback provider seen s.run x h e)
    ]

module _ {F64 : Type 0} (policy : RetryPolicy F64) (callback : Bool) (float : Float F64)
    (cleanup : Result StorageError (Unit {0})) (world : ℕ → Round) where
  after_upload_cases :
      (p : Result TransferError StorageReference × Engine)
      (again : Option (Result TransferError StorageReference × Engine))
      → ((x : Result TransferError StorageReference × Engine) × (after_upload policy callback float
              cleanup world p again
            ≡ some x))
        ⊎ ((e : TransferError) × (p.0 ≡ err e)
            × (is_retryable e ≡ true)
            × (can_retry policy p.1.run.job.retry_count ≡ true)
            × (after_upload policy callback float cleanup world p again ≡ again))
  unfolding after_upload
  after_upload_cases (ok reference, s) again = inl (_, refl)
  after_upload_cases (err e, s) again = elim (Bool-cases (is_retryable e)) [
    | inr f ↦ inl ((err e, s), rw f)
    | inl t ↦ elim (Bool-cases (can_retry policy s.run.job.retry_count)) [
      | inr f ↦ inl ((err e, s), rw (t, f))
      | inl c ↦ inr (e, refl, t, c, rw (t, c))
    ]
  ]

  abbrev attempt : ℕ → Engine → Result TransferError StorageReference × Engine
  attempt n s = upload_stream policy callback (world n).provider (world n).seen s

  abbrev loop : ℕ → ℕ → Engine → Option (Result TransferError StorageReference × Engine)
  loop = execute_staged_upload policy callback float cleanup world

  -- A round ends the loop, or its upload has failed with an error that is tried again.
  pub round_cases :
      (fuel n : ℕ) (s : Engine)
      → ((x : Result TransferError StorageReference × Engine) × (loop (suc fuel) n s ≡ some x))
        ⊎ ((e : TransferError) × ((attempt n s).0 ≡ err e)
            × (is_retryable e ≡ true)
            × (can_retry policy (attempt n s).1.run.job.retry_count ≡ true)
            × (loop (suc fuel) n s
                ≡ loop fuel
                    (suc n)
                    (rest_after policy callback float cleanup world (attempt n s).1)))
  unfolding execute_staged_upload
  round_cases fuel n s = elim (Bool-cases (world n).cancelled_before) [
    | inl c ↦ inl ((err TransferError.cancelled, s), rw c)
    | inr c ↦ elim (Option-cases (world n).open_error) [
      | inr (e, o) ↦ inl ((err (io e), s), rw (c, o))
      | inl o ↦ rw (c, o) (after_upload_cases (attempt n s) _)
    ]
  ]
