-- ===== src/Transfer/Job/Persist.antt =====
-- Which jobs are valid, and what a job keeps over a restart through the database
-- (crates/televault-transfer/src/job.rs).
use televault.Prelude.{◌<◌, ◌≡◌, ◌↔◌, ◌≢◌, ◌⊎◌, none, ok, arith}
use televault.Core.Models.{upload}
use televault.Transfer.Job.{
  TransferJob, UploadJobParams, DownloadJobParams, DbJobContext, validate_job, new_upload,
  new_download, to_db_record, from_db_record, state_of_status,
}
use televault.Transfer.State.{
  TransferState, pending, preparing, transferring, verifying, to_transfer_status,
}

-- What `validate` is there to ensure.
pub record IsValid (j : TransferJob) : Type 0 where
  pub in_range : j.chunk_index < j.total_chunks
  pub sourced : (j.direction ≡ upload) ⊎ (j.storage_reference ≢ none)

-- `validate` accepts a job exactly if its chunk index is in range and it is an upload or has a
-- storage reference.
pub validate_job_iff : (j : TransferJob) → (validate_job j ≡ ok tt) ↔ IsValid j
unfolding validate_job
validate_job_iff j = (λ h. ground arith, λ v. ground arith)

-- An upload job that the constructor returns is valid and queued, and has used no retry.
pub new_upload-IsValid :
    (p : UploadJobParams) (j : TransferJob)
    → new_upload p ≡ ok j
    → IsValid j × (j.state ≡ pending) × (j.retry_count ≡ 0)
unfolding new_upload validate_job
new_upload-IsValid p j h = ground arith

-- A download job that the constructor returns is valid and queued, and has used no retry.
pub new_download-IsValid :
    (p : DownloadJobParams) (j : TransferJob)
    → new_download p ≡ ok j
    → IsValid j × (j.state ≡ pending) × (j.retry_count ≡ 0)
unfolding new_download validate_job
new_download-IsValid p j h = ground arith

-- What is not in the database row of a job, taken from the job.
abbrev pub context : TransferJob → DbJobContext
context j = record {
  chunk_index = j.chunk_index;
  total_chunks = j.total_chunks;
  expected_size_bytes = j.expected_size_bytes;
  expected_sha256 = j.expected_sha256;
  storage_reference = j.storage_reference;
  source_path = j.source_path;
  destination_path = j.destination_path;
  max_retries = j.max_retries;
}

-- The state in which a job comes back from the database.
abbrev pub reloaded : TransferState → TransferState
reloaded preparing = pending
reloaded verifying = transferring
reloaded s = s

-- A valid job comes back from its database row as it was, but `preparing` comes back as `pending`
-- and `verifying` as `transferring`; it is written to the same row again.
pub from_db_record-to_db_record :
    (j : TransferJob)
    → IsValid j
    → (from_db_record (to_db_record j) (context j) ≡ ok (record j { state = reloaded j.state }))
      × (to_db_record (record j { state = reloaded j.state }) ≡ to_db_record j)
unfolding from_db_record to_db_record state_of_status to_transfer_status validate_job
from_db_record-to_db_record j v = (ground arith, ground arith)
