-- ===== src/Transfer/Tests/Jobs.antt =====
-- States, jobs, delays and progress reports on concrete inputs.
use televault.Prelude.{
  length, ◌*◌, ◌≤◌, ◌≡◌, refl, inl, true, none, List, [], ◌∷◌, arith, text, ok, err,
}
use televault.Transfer.Error.{invalid_state_transition}
use televault.Core.Models.{TransferDirection}
use televault.Transfer.State.{
  TransferState, state_text, transition_to, pending, preparing, transferring, verifying, completed,
  retrying, cancelled,
}
use televault.Transfer.State.Paths.{run}
use televault.Transfer.Job.{
  TransferJob, UploadJobParams, DownloadJobParams, validate_job, new_upload, new_download,
  to_db_record, from_db_record,
}
use televault.Transfer.Job.Persist.{IsValid, context, from_db_record-to_db_record}
use televault.Transfer.Progress.{
  progress_throttle_byte_delta, Meter, new_meter, check_emit_progress, on_read, on_write, stream,
}
use televault.Transfer.Progress.Throttle.{stream-throttled}
use televault.Transfer.Retry.{calculate_backoff}
use televault.Transfer.Worker.{progress_context}
use televault.Transfer.Samples.{reference, job_1, verifying_job, nat_float, sample_policy}

abbrev stays_cancelled : List TransferState
stays_cancelled = cancelled ∷ cancelled ∷ []

stays_cancelled_runs : run cancelled stays_cancelled ≡ ok cancelled
unfolding run transition_to
stays_cancelled_runs = refl

abbrev whole_path : List TransferState
whole_path =
    preparing ∷ transferring ∷ verifying ∷ retrying ∷ preparing ∷ transferring ∷ completed ∷ []

whole_path_runs : run pending whole_path ≡ ok completed
unfolding run transition_to
whole_path_runs = refl

-- A queued transfer cannot complete at once.
no_shortcut :
    transition_to pending completed
    ≡ err (invalid_state_transition (text "pending") (text "completed"))
unfolding transition_to state_text
no_shortcut = refl

abbrev upload_params : UploadJobParams
upload_params = record {
  job_id = text "job-1";
  file_id = text "file-1";
  chunk_id = text "chunk-1";
  chunk_index = 2;
  total_chunks = 3;
  source_path = none;
  expected_size_bytes = 10;
  expected_sha256 = none;
  max_retries = 3;
}

abbrev made_upload : TransferJob
made_upload = record job_1 {
  chunk_index = 2;
  total_chunks = 3;
  expected_size_bytes = 10;
  storage_reference = none;
}

new_upload_runs : new_upload upload_params ≡ ok made_upload
unfolding new_upload validate_job
new_upload_runs = refl

abbrev download_params : DownloadJobParams
download_params = record {
  job_id = text "job-1";
  file_id = text "file-1";
  chunk_id = text "chunk-1";
  chunk_index = 0;
  total_chunks = 1;
  destination_path = none;
  storage_reference = reference;
  expected_size_bytes = 300000;
  expected_sha256 = none;
  max_retries = 3;
}

abbrev made_download : TransferJob
made_download = record job_1 { direction = TransferDirection.download }

new_download_runs : new_download download_params ≡ ok made_download
unfolding new_download validate_job
new_download_runs = refl

verifying_job-IsValid : IsValid verifying_job
verifying_job-IsValid = record { in_range = ground arith; sourced = inl refl }

from_db_record-to_db_record_example :
    (from_db_record (to_db_record verifying_job) (context verifying_job)
      ≡ ok (record verifying_job { state = transferring }))
    × (to_db_record (record verifying_job { state = transferring }) ≡ to_db_record verifying_job)
from_db_record-to_db_record_example =
    from_db_record-to_db_record verifying_job verifying_job-IsValid

abbrev meter : Meter
meter = new_meter TransferDirection.upload (progress_context job_1) true

-- One report when enough bytes have passed, and one at the end of the stream.
two_reports : length (stream on_read meter (300000 ∷ 5 ∷ 0 ∷ [])).1 ≡ 2
unfolding stream on_read check_emit_progress
two_reports = refl

stream-throttled_example :
    length (stream on_write meter (300000 ∷ 5 ∷ [])).1 * progress_throttle_byte_delta ≤ 300005
stream-throttled_example = stream-throttled meter (300000 ∷ 5 ∷ []) refl refl (ground arith)

backoff_runs : calculate_backoff nat_float sample_policy 3 ≡ 8000
unfolding calculate_backoff
backoff_runs = refl
