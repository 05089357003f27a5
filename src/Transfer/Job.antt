-- ===== src/Transfer/Job.antt =====
-- crates/televault-transfer/src/job.rs: a transfer job, its checks, and its form in the database
-- (`TransferJobRecord` of crates/televault-db/src/models.rs).
pub mod Persist
use televault.Prelude.{
  ℕ, not, Option, none, some, ◌++◌, ◌==◌, leb, Text, text, decimal, Result, ok, err, ◌>>=◌, ◌>>◌,
  guard,
}
use televault.Core.Models.{TransferStatus, TransferDirection, upload, download}
use televault.Manifest.Types.{StorageReference}
use televault.Transfer.Error.{TransferError, invalid_job}
use televault.Transfer.State.{
  TransferState, pending, transferring, completed, failed, retrying, cancelled, transition_to,
  to_transfer_status,
}

pub record TransferJob : Type 0 where
  pub job_id : Text
  pub file_id : Text
  pub chunk_id : Text
  pub chunk_index : ℕ  -- u32
  pub total_chunks : ℕ  -- u32
  pub direction : TransferDirection
  pub source_path : Option Text
  pub destination_path : Option Text
  pub storage_reference : Option StorageReference
  pub expected_size_bytes : ℕ  -- u64
  pub expected_sha256 : Option Text
  pub state : TransferState
  pub bytes_transferred : ℕ  -- u64
  pub retry_count : ℕ  -- u32
  pub max_retries : ℕ  -- u32
  pub error_message : Option Text
  pub created_at : Text
  pub updated_at : Text

pub record UploadJobParams : Type 0 where
  pub job_id : Text
  pub file_id : Text
  pub chunk_id : Text
  pub chunk_index : ℕ
  pub total_chunks : ℕ
  pub source_path : Option Text
  pub expected_size_bytes : ℕ
  pub expected_sha256 : Option Text
  pub max_retries : ℕ

pub record DownloadJobParams : Type 0 where
  pub job_id : Text
  pub file_id : Text
  pub chunk_id : Text
  pub chunk_index : ℕ
  pub total_chunks : ℕ
  pub destination_path : Option Text
  pub storage_reference : StorageReference
  pub expected_size_bytes : ℕ
  pub expected_sha256 : Option Text
  pub max_retries : ℕ

-- The time stamp that the source writes everywhere.
abbrev pub fixed_time : Text
fixed_time = text "2026-10-07T12:00:00Z"

abbrev validate_direction : TransferDirection → Option StorageReference → Result TransferError Unit
validate_direction upload reference = ok tt
validate_direction download none =
    err (invalid_job (text "Download job requires a valid storage_reference"))
validate_direction download (some r) = ok tt

-- `TransferJob::validate`.
unfoldable pub validate_job : TransferJob → Result TransferError Unit
validate_job j = do
  guard (not (j.total_chunks == 0)) (invalid_job (text "total_chunks must be greater than zero"))
  guard (not (leb j.total_chunks j.chunk_index)) (
      invalid_job (
        text "chunk_index "
        ++ decimal j.chunk_index
        ++ text " out of bounds for total_chunks "
        ++ decimal j.total_chunks))
  validate_direction j.direction j.storage_reference

-- `TransferJob::new_upload`.
unfoldable pub new_upload : UploadJobParams → Result TransferError TransferJob
new_upload p =
    let job : TransferJob = record {
      job_id = p.job_id;
      file_id = p.file_id;
      chunk_id = p.chunk_id;
      chunk_index = p.chunk_index;
      total_chunks = p.total_chunks;
      direction = upload;
      source_path = p.source_path;
      destination_path = none;
      storage_reference = none;
      expected_size_bytes = p.expected_size_bytes;
      expected_sha256 = p.expected_sha256;
      state = pending;
      bytes_transferred = 0;
      retry_count = 0;
      max_retries = p.max_retries;
      error_message = none;
      created_at = fixed_time;
      updated_at = fixed_time;
    } in
    validate_job job >> ok job

-- `TransferJob::new_download`.
unfoldable pub new_download : DownloadJobParams → Result TransferError TransferJob
new_download p =
    let job : TransferJob = record {
      job_id = p.job_id;
      file_id = p.file_id;
      chunk_id = p.chunk_id;
      chunk_index = p.chunk_index;
      total_chunks = p.total_chunks;
      direction = download;
      source_path = none;
      destination_path = p.destination_path;
      storage_reference = some p.storage_reference;
      expected_size_bytes = p.expected_size_bytes;
      expected_sha256 = p.expected_sha256;
      state = pending;
      bytes_transferred = 0;
      retry_count = 0;
      max_retries = p.max_retries;
      error_message = none;
      created_at = fixed_time;
      updated_at = fixed_time;
    } in
    validate_job job >> ok job

-- `TransferJob::transition`: the job after it; on an error the job is as before.
unfoldable pub transition : TransferJob → TransferState → Result TransferError TransferJob
transition j next = do
  s ← transition_to j.state next
  ok (record j { state = s; updated_at = fixed_time })

pub record TransferJobRecord : Type 0 where
  pub job_id : Text
  pub file_id : Text
  pub chunk_id : Option Text
  pub direction : TransferDirection
  pub status : TransferStatus
  pub progress : ℕ
  pub retry_count : ℕ
  pub error_message : Option Text
  pub created_at : Text
  pub updated_at : Text

pub record DbJobContext : Type 0 where
  pub chunk_index : ℕ
  pub total_chunks : ℕ
  pub expected_size_bytes : ℕ
  pub expected_sha256 : Option Text
  pub storage_reference : Option StorageReference
  pub source_path : Option Text
  pub destination_path : Option Text
  pub max_retries : ℕ

-- `TransferJob::to_db_record`.
unfoldable pub to_db_record : TransferJob → TransferJobRecord
to_db_record j = record {
  job_id = j.job_id;
  file_id = j.file_id;
  chunk_id = some j.chunk_id;
  direction = j.direction;
  status = to_transfer_status j.state;
  progress = j.bytes_transferred;
  retry_count = j.retry_count;
  error_message = j.error_message;
  created_at = j.created_at;
  updated_at = j.updated_at;
}

abbrev chunk_or_default : Option Text → Text
chunk_or_default none = text "chunk-0"
chunk_or_default (some c) = c

-- The `match record.status` of `from_db_record`.
unfoldable pub state_of_status : TransferStatus → TransferState
state_of_status TransferStatus.pending = pending
state_of_status TransferStatus.transferring = transferring
state_of_status TransferStatus.paused = retrying
state_of_status TransferStatus.completed = completed
state_of_status TransferStatus.failed = failed
state_of_status TransferStatus.cancelled = cancelled

-- `TransferJob::from_db_record`.
unfoldable pub from_db_record : TransferJobRecord → DbJobContext → Result TransferError TransferJob
from_db_record r ctx =
    let job : TransferJob = record {
      job_id = r.job_id;
      file_id = r.file_id;
      chunk_id = chunk_or_default r.chunk_id;
      chunk_index = ctx.chunk_index;
      total_chunks = ctx.total_chunks;
      direction = r.direction;
      source_path = ctx.source_path;
      destination_path = ctx.destination_path;
      storage_reference = ctx.storage_reference;
      expected_size_bytes = ctx.expected_size_bytes;
      expected_sha256 = ctx.expected_sha256;
      state = state_of_status r.status;
      bytes_transferred = r.progress;
      retry_count = r.retry_count;
      max_retries = ctx.max_retries;
      error_message = r.error_message;
      created_at = r.created_at;
      updated_at = r.updated_at;
    } in
    validate_job job >> ok job
