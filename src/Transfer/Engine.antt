-- ===== src/Transfer/Engine.antt =====
-- crates/televault-transfer/src/engine.rs: the engine's direct transfers, and the loop that retries
-- the upload of a staging file.
pub mod Attempt
pub mod Staged
pub mod Exhausted
pub mod Succeeded
use televault.Prelude.{
  ℕ, zero, suc, ◌-◌, Bool, true, false, ◌&&◌, Option, none, some, List, [], ◌∷◌, ◌++◌, Result, ok,
  err, if◌then◌else◌,
}
use televault.Manifest.Types.{StorageReference}
use televault.Storage.Error.{IoError, StorageError}
use televault.Storage.Types.{StorageProvider}
use televault.Transfer.Error.{TransferError, storage, io, is_retryable}
use televault.Transfer.Retry.{RetryPolicy, Float, can_retry, calculate_backoff}
use televault.Transfer.Effects.{Run}
use televault.Transfer.Worker.{Observed, execute_upload, execute_download}
use televault.Transfer.Queue.{Queue, finish_job}

-- The engine during one transfer: the caller's job with the reports made of it, the queue, and the
-- delays slept so far.
pub record Engine : Type 0 where
  pub run : Run
  pub queue : Queue
  pub slept : List ℕ

-- What the outside does during one round of the loop.
pub record Round : Type 0 where
  pub cancelled_before : Bool
  pub open_error : Option IoError
  pub provider : StorageProvider
  pub seen : Observed

abbrev settle :
    {A : Type 0} → Engine → Result TransferError A × Run → Result TransferError A × Engine
settle s (res, run) = (res, record s { run = run; queue = finish_job s.queue run.job })

module _ {F64 : Type 0} (policy : RetryPolicy F64) (callback : Bool) where
  -- `TransferEngine::upload_stream`.
  unfoldable pub upload_stream :
      StorageProvider → Observed → Engine → Result TransferError StorageReference × Engine
  upload_stream provider seen s = settle s (execute_upload policy callback provider seen s.run)

  -- `TransferEngine::download_stream`.
  unfoldable pub download_stream :
      StorageProvider → Observed → Engine → Result TransferError ℕ × Engine
  download_stream provider seen s = settle s (execute_download policy callback provider seen s.run)

  module _ (float : Float F64) (cleanup : Result StorageError (Unit {0})) (world : ℕ → Round) where
    -- `staging_file.cleanup().map_err(TransferError::Storage)?; return Ok(storage_ref);`
    abbrev cleaned : StorageReference → Result TransferError StorageReference
    cleaned reference = elim cleanup [ ok _ ↦ ok reference | err e ↦ err (storage e) ]

    abbrev rest_after : Engine → Engine
    rest_after s = record s {
      slept = s.slept ++ calculate_backoff float policy (s.run.job.retry_count - 1) ∷ [];
    }

    -- The `match upload_res`; `again` is what the further rounds come to.
    unfoldable pub after_upload :
        Result TransferError StorageReference × Engine
        → Option (Result TransferError StorageReference × Engine)
        → Option (Result TransferError StorageReference × Engine)
    after_upload (ok reference, s) again = some (cleaned reference, s)
    after_upload (err e, s) again =
        if is_retryable e && can_retry policy s.run.job.retry_count then again else some (err e, s)

    -- The loop of `TransferEngine::execute_staged_upload`, from round `n` on; `none` means that the
    -- fuel ran out.
    unfoldable pub execute_staged_upload :
        ℕ → ℕ → Engine → Option (Result TransferError StorageReference × Engine)
    execute_staged_upload zero n s = none
    execute_staged_upload (suc fuel) n s =
        let result = upload_stream (world n).provider (world n).seen s in
        let again = execute_staged_upload fuel (suc n) (rest_after result.1) in
        if (world n).cancelled_before
        then some (err TransferError.cancelled, s)
        else elim (world n).open_error [
          | some e ↦ some (err (io e), s)
          | none ↦ after_upload result again
        ]
