-- ===== src/Transfer/Worker.antt =====
-- crates/televault-transfer/src/worker.rs: one execution of an upload or a download job.
pub mod Phases
pub mod Upload
pub mod Steady
pub mod Download
use televault.Prelude.{
  ℕ, ◌+◌, ◌%◌, ◌^◌, Bool, true, false, not, ◌&&◌, Option, none, some, or_else, List, [], ◌∷◌, Text,
  text, Result, ok, err, map_err, if◌then◌else◌,
}
use televault.Core.Models.{TransferDirection}
use televault.Manifest.Types.{StorageReference}
use televault.Storage.Error.{StorageError}
use televault.Storage.Types.{
  UploadRequest, UploadResult, DownloadRequest, DownloadResult, VerificationRequest, Answer,
  StorageProvider,
}
use televault.Transfer.Error.{
  TransferError, invalid_job, storage, verification_failed, is_retryable, storage_text,
}
use televault.Transfer.State.{
  TransferState, preparing, transferring, verifying, completed, failed, retrying, cancelled,
}
use televault.Transfer.Retry.{RetryPolicy, can_retry}
use televault.Transfer.Job.{TransferJob}
use televault.Transfer.Progress.{
  TransferProgress, ProgressContext, new_meter, on_read, on_write, stream,
}
use televault.Transfer.Effects.{
  Run, Action, ◌>>=◌, ◌>>◌, pure, fail, get_job, modify, emit, when, move, move_quietly, lift,
}

-- What `cancellation.is_cancelled()` answers at the places that ask: other threads may set the
-- token between them.
pub record Observed : Type 0 where
  pub at_start : Bool
  pub at_failure : Bool
  pub at_end : Bool

abbrev pub progress_context : TransferJob → ProgressContext
progress_context j = record {
  job_id = j.job_id;
  file_id = j.file_id;
  chunk_id = j.chunk_id;
  chunk_index = j.chunk_index;
  total_chunks = j.total_chunks;
  total_bytes = j.expected_size_bytes;
}

abbrev pub final_report : TransferJob → ℕ → TransferProgress
final_report j bytes = record {
  job_id = j.job_id;
  file_id = j.file_id;
  chunk_id = j.chunk_id;
  chunk_index = j.chunk_index;
  total_chunks = j.total_chunks;
  direction = j.direction;
  bytes_transferred = bytes;
  total_bytes = j.expected_size_bytes;
  state = completed;
}

abbrev pub upload_request : TransferJob → UploadRequest
upload_request j = record {
  file_id = j.file_id;
  chunk_id = j.chunk_id;
  chunk_index = j.chunk_index;
  total_chunks = j.total_chunks;
  expected_size_bytes = j.expected_size_bytes;
  expected_sha256 = j.expected_sha256;
  resumable = false;
}

abbrev pub verification_request : TransferJob → UploadResult → VerificationRequest
verification_request j u = record {
  storage_reference = u.storage_reference;
  expected_size_bytes = j.expected_size_bytes;
  expected_sha256 = or_else u.verified_sha256 j.expected_sha256;
}

abbrev pub download_request : TransferJob → StorageReference → DownloadRequest
download_request j r = record {
  file_id = j.file_id;
  chunk_id = j.chunk_id;
  storage_reference = r;
  expected_size_bytes = j.expected_size_bytes;
  expected_sha256 = j.expected_sha256;
}

-- `if cancellation.is_cancelled() { ... return Err(Cancelled) }`
abbrev pub stop_if : Bool → Action (Unit {0})
stop_if c = when c (move_quietly cancelled >> fail TransferError.cancelled)

abbrev pub retry_later : {A : Type 0} → StorageError → Action A
retry_later storage_err = do
  move retrying
  modify (λ job. record job {
    retry_count = (job.retry_count + 1) % 2 ^ 32;
    error_message = some (storage_text storage_err);
  })
  fail (storage storage_err)

abbrev pub give_up : {A : Type 0} → StorageError → Action A
give_up storage_err = do
  move failed
  modify (λ job. record job { error_message = some (storage_text storage_err) })
  fail (storage storage_err)

module _ {F64 : Type 0} (policy : RetryPolicy F64) where
  -- The arm `Err(storage_err)` of both workers.
  unfoldable pub on_storage_error : {A : Type 0} → Bool → StorageError → Action A
  on_storage_error cancel storage_err = do
    stop_if cancel
    job ← get_job
    if is_retryable (storage storage_err) && can_retry policy job.retry_count
        then retry_later storage_err
        else give_up storage_err

  abbrev pub or_fail : {A : Type 0} → Bool → Result StorageError A → Action A
  or_fail cancel (ok a) = pure a
  or_fail cancel (err e) = on_storage_error cancel e

-- The reports that leave `ProgressReader` and `ProgressWriter` during a transmission.
abbrev pub upload_reports : Bool → TransferJob → List ℕ → List TransferProgress
upload_reports callback job moved =
    (stream on_read (new_meter TransferDirection.upload (progress_context job) callback) moved).1

abbrev pub download_reports : Bool → TransferJob → List ℕ → List TransferProgress
download_reports callback job moved =
    (stream on_write (new_meter TransferDirection.download (progress_context job) callback) moved).1

-- Parts 1 to 3 of `execute_upload`, up to the call of the provider.
unfoldable pub begin_upload : Bool → Action TransferJob
begin_upload cancel = do stop_if cancel; move preparing; move transferring; get_job

-- The call of `provider.upload` and its `match`.
unfoldable pub send :
    {F64 : Type 0}
    → RetryPolicy F64
    → Bool
    → StorageProvider
    → Bool
    → TransferJob
    → Action UploadResult
send policy callback provider cancel job = do
  let answer = provider.upload (upload_request job)
  emit (upload_reports callback job answer.moved)
  or_fail policy cancel answer.result

-- Part 4, the remote verification.
unfoldable pub confirm : StorageProvider → Bool → UploadResult → Action (Unit {0})
confirm provider cancel upload_res = do
  stop_if cancel
  move verifying
  job ← get_job
  verified ← lift (map_err storage (provider.verify (verification_request job upload_res)))
  when (not verified) (do
    move failed
    modify
        (λ j. record j { error_message = some (text "Remote verification check returned false") })
    fail (verification_failed (text "Remote verification check returned false")))

-- Part 5.
unfoldable pub complete_upload : Bool → UploadResult → Action StorageReference
complete_upload callback upload_res = do
  move completed
  modify (λ j. record j {
    storage_reference = some upload_res.storage_reference;
    bytes_transferred = upload_res.bytes_uploaded;
  })
  job ← get_job
  when callback (emit (final_report job upload_res.bytes_uploaded ∷ []))
  pure upload_res.storage_reference

-- `execute_upload` from the call of the provider on.
abbrev pub upload_rest :
    {F64 : Type 0}
    → RetryPolicy F64
    → Bool
    → StorageProvider
    → Observed
    → TransferJob
    → Action StorageReference
upload_rest policy callback provider seen job = do
  upload_res ← send policy callback provider seen.at_failure job
  confirm provider seen.at_end upload_res
  complete_upload callback upload_res

-- `UploadWorker::execute_upload`.
unfoldable pub execute_upload :
    {F64 : Type 0} → RetryPolicy F64 → Bool → StorageProvider → Observed → Action StorageReference
execute_upload policy callback provider seen = do
  job ← begin_upload seen.at_start
  upload_rest policy callback provider seen job

abbrev reference_or_fail : Option StorageReference → Action StorageReference
reference_or_fail none = fail (invalid_job (text "Download job missing storage_reference"))
reference_or_fail (some r) = pure r

-- `execute_download`, up to the call of the provider.
unfoldable pub begin_download : Bool → Action (TransferJob × StorageReference)
begin_download cancel = do
  stop_if cancel
  start ← get_job
  storage_ref ← reference_or_fail start.storage_reference
  move preparing
  move transferring
  job ← get_job
  pure (job, storage_ref)

-- The call of `provider.download` and its `match`.
unfoldable pub receive :
    {F64 : Type 0}
    → RetryPolicy F64
    → Bool
    → StorageProvider
    → Bool
    → TransferJob
    → StorageReference
    → Action DownloadResult
receive policy callback provider cancel job storage_ref = do
  let answer = provider.download (download_request job storage_ref)
  emit (download_reports callback job answer.moved)
  or_fail policy cancel answer.result

-- The end of `execute_download`.
unfoldable pub complete_download : Bool → Bool → DownloadResult → Action ℕ
complete_download callback cancel dl_res = do
  when cancel (fail TransferError.cancelled)
  move completed
  modify (λ j. record j { bytes_transferred = dl_res.bytes_downloaded })
  job ← get_job
  when callback (emit (final_report job dl_res.bytes_downloaded ∷ []))
  pure dl_res.bytes_downloaded

-- `DownloadWorker::execute_download`.
unfoldable pub execute_download :
    {F64 : Type 0} → RetryPolicy F64 → Bool → StorageProvider → Observed → Action ℕ
execute_download policy callback provider seen = do
  (job, storage_ref) ← begin_download seen.at_start
  dl_res ← receive policy callback provider seen.at_failure job storage_ref
  complete_download callback seen.at_end dl_res
