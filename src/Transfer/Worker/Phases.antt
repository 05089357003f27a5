-- ===== src/Transfer/Worker/Phases.antt =====
-- What each part of a worker's execution does to the job (crates/televault-transfer/src/worker.rs).
use televault.Prelude.{
  ◌+◌, ◌<◌, ◌^◌, ◌%◌, Bool, true, false, ◌≡◌, ◌⊎◌, ◌≢◌, ◌&&◌, inl, inr, some, Result, ok, err,
  Result-cases, arith, ◌++◌, Bool-cases,
}
use televault.Storage.Error.{StorageError}
use televault.Storage.Types.{UploadResult, StorageProvider}
use televault.Transfer.Error.{TransferError, is_retryable, storage}
use televault.Transfer.State.{
  TransferState, pending, preparing, transferring, verifying, completed, failed, retrying,
  cancelled, transition_to,
}
use televault.Transfer.Retry.{RetryPolicy, can_retry}
use televault.Transfer.Job.{TransferJob, transition, fixed_time}
use televault.Transfer.Effects.{Run}
use televault.Transfer.Worker.{
  upload_request, verification_request, on_storage_error, begin_upload, send, confirm,
  complete_upload, upload_reports,
}

-- The states in which a worker takes a job up.
abbrev pub can_start : TransferState → Bool
can_start pending = true
can_start preparing = true
can_start retrying = true
can_start _ = false

abbrev pub at_state : TransferState → Run → Run
at_state s r = record r { job = record r.job { state = s; updated_at = fixed_time } }

pub begin_upload_starts :
    (r : Run)
    → can_start r.job.state ≡ true
    → begin_upload false r ≡ (ok (at_state transferring r).job, at_state transferring r)
unfolding begin_upload transition transition_to
begin_upload_starts r h = ground arith

pub begin_upload_cancelled :
    (r : Run)
    → can_start r.job.state ≡ true
    → begin_upload true r ≡ (err TransferError.cancelled, at_state cancelled r)
unfolding begin_upload transition transition_to
begin_upload_cancelled r h = ground arith

pub begin_upload-eq-ok :
    (r : Run) (cancel : Bool) (j : TransferJob)
    → (begin_upload cancel r).0 ≡ ok j
    → (cancel ≡ false) × (can_start r.job.state ≡ true)
unfolding begin_upload transition transition_to
begin_upload-eq-ok r cancel j h = ground arith

-- From every other state nothing is sent, and the error is final.
pub begin_upload_refuses :
    (r : Run) (cancel : Bool) (x : TransferError)
    → can_start r.job.state ≡ false
    → (begin_upload cancel r).0 ≡ err x
    → is_retryable x ≡ false
unfolding begin_upload transition transition_to is_retryable
begin_upload_refuses r cancel x h k = ground arith

-- How a worker leaves the job when the provider has failed with `e`.
abbrev pub AfterStorageError :
    {F64 : Type 0} → RetryPolicy F64 → Run → StorageError → TransferError × Run → Type 0
AfterStorageError policy r e (x, r') =
    ((x ≡ TransferError.cancelled) × (r' ≡ at_state cancelled r))
    ⊎ ((x ≡ storage e)
        × (is_retryable (storage e) ≡ true)
        × (r.job.retry_count < policy.max_retries)
        × (r'.job.state ≡ retrying)
        × (r'.job.retry_count ≡ (r.job.retry_count + 1) % 2 ^ 32))
    ⊎ ((x ≡ storage e)
        × ((is_retryable (storage e) && can_retry policy r.job.retry_count) ≡ false)
        × (r'.job.state ≡ failed)
        × (r'.job.retry_count ≡ r.job.retry_count))

module _ {F64 : Type 0} (policy : RetryPolicy F64) where
  pub on_storage_error_lem :
      {A : Type 0} (r : Run) (cancel : Bool) (e : StorageError) (x : TransferError)
      → r.job.state ≡ transferring
      → (on_storage_error policy {A = A} cancel e r).0 ≡ err x
      → AfterStorageError policy r e (x, (on_storage_error policy {A = A} cancel e r).1)
  unfolding on_storage_error transition transition_to can_retry
  on_storage_error_lem r cancel e x h k = ground arith

  pub on_storage_error_retries :
      {A : Type 0} (r : Run) (e : StorageError)
      → r.job.state ≡ transferring
      → is_retryable (storage e) ≡ true
      → can_retry policy r.job.retry_count ≡ true
      → ((on_storage_error policy {A = A} false e r).0 ≡ err (storage e))
        × ((on_storage_error policy {A = A} false e r).1.job.state ≡ retrying)
        × ((on_storage_error policy {A = A} false e r).1.job.retry_count
            ≡ (r.job.retry_count + 1) % 2 ^ 32)
  unfolding on_storage_error transition transition_to
  on_storage_error_retries r e h t c = ground arith

  pub on_storage_error-fails :
      {A : Type 0} (r : Run) (cancel : Bool) (e : StorageError) (a : A)
      → (on_storage_error policy cancel e r).0 ≢ ok a
  unfolding on_storage_error transition transition_to
  on_storage_error-fails r cancel e a = ground arith

  module _ (callback : Bool) (provider : StorageProvider) (cancel : Bool) (job : TransferJob) where
    abbrev pub reported : Run → Run
    reported r = record r {
      reports =
          r.reports ++ upload_reports callback job (provider.upload (upload_request job)).moved;
    }

    pub send_ok :
        (r : Run) (u : UploadResult)
        → (provider.upload (upload_request job)).result ≡ ok u
        → send policy callback provider cancel job r ≡ (ok u, reported r)
    unfolding send
    send_ok r u h = rw h

    pub send_err :
        (r : Run) (e : StorageError)
        → (provider.upload (upload_request job)).result ≡ err e
        → send policy callback provider cancel job r ≡ on_storage_error policy cancel e (reported r)
    unfolding send
    send_err r e h = rw h

-- How `confirm` can fail, and how it leaves the job.
abbrev pub AfterConfirm : Run → Result StorageError Bool → TransferError × Run → Type 0
AfterConfirm r verified (x, r') =
    ((x ≡ TransferError.cancelled) × (r' ≡ at_state cancelled r))
    ⊎ ((e : StorageError) × (verified ≡ err e) × (x ≡ storage e) × (r' ≡ at_state verifying r))
    ⊎ ((verified ≡ ok false)
        × (r'.job.state ≡ failed)
        × (r'.job.retry_count ≡ r.job.retry_count)
        × (is_retryable x ≡ false))

module _ (provider : StorageProvider) (cancel : Bool) (u : UploadResult) (r : Run)
    (sending : r.job.state ≡ transferring) where
  pub confirm-eq-ok :
      (confirm provider cancel u r).0 ≡ ok tt
      → (provider.verify (verification_request r.job u) ≡ ok true)
        × (confirm provider cancel u r ≡ (ok tt, at_state verifying r))
  unfolding confirm transition transition_to
  confirm-eq-ok h = ground arith

  pub confirm_fails :
      (x : TransferError)
      → (confirm provider cancel u r).0 ≡ err x
      → AfterConfirm r
          (provider.verify (verification_request r.job u))
          (x, (confirm provider cancel u r).1)
  unfolding confirm transition transition_to is_retryable
  confirm_fails x h = elim (Result-cases (provider.verify (verification_request r.job u))) [
    | inl (true, e) ↦ ground arith
    | inl (false, e) ↦ ground arith
    | inr (y, e) ↦ elim (Bool-cases cancel) [
      | inl c ↦ inl (ground arith, ground arith)
      | inr c ↦ inr (inl (y, e, ground arith, ground arith))
    ]
  ]

pub complete_upload_lem :
    (callback : Bool) (u : UploadResult) (r : Run)
    → r.job.state ≡ verifying
    → (r' : Run) × (complete_upload callback u r ≡ (ok u.storage_reference, r'))
      × (r'.job.state ≡ completed)
      × (r'.job.storage_reference ≡ some u.storage_reference)
      × (r'.job.bytes_transferred ≡ u.bytes_uploaded)
unfolding complete_upload transition transition_to
complete_upload_lem callback u r h =
    ((complete_upload callback u r).1, ground arith, ground arith, ground arith, ground arith)
