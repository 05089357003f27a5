-- ===== src/Transfer/Tests/Worker.antt =====
-- One execution of an upload and of a download on concrete inputs.
use televault.Prelude.{ℕ, ◌≡◌, refl, true, none, Result, ok, err}
use televault.Transfer.Job.{transition}
use televault.Transfer.Progress.{check_emit_progress, on_read, stream}
use televault.Manifest.Types.{StorageReference}
use televault.Transfer.Error.{TransferError}
use televault.Transfer.State.{TransferState, transition_to}
use televault.Transfer.Effects.{Run}
use televault.Transfer.Worker.{
  Observed, begin_upload, send, confirm, complete_upload, execute_upload, execute_download,
}
use televault.Transfer.Worker.Upload.{
  Uploaded, execute_upload-Ends, execute_upload-Uploaded, execute_upload_retries,
}
use televault.Transfer.Worker.Upload
use televault.Transfer.Worker.Download.{execute_download-Ends, execute_download_cancelled_late}
use televault.Transfer.Worker.Download
use televault.Transfer.Samples.{reference, job_1, good_provider, sample_policy, quiet, fresh_run}

abbrev run_1 : Run
run_1 = fresh_run job_1

abbrev upload_1 : Result TransferError StorageReference × Run
upload_1 = execute_upload sample_policy true good_provider quiet run_1

execute_upload-Ends_example : Upload.Ends sample_policy good_provider job_1 upload_1
execute_upload-Ends_example = execute_upload-Ends sample_policy true good_provider quiet run_1 refl

uploads : upload_1.0 ≡ ok reference
unfolding execute_upload begin_upload send confirm complete_upload transition transition_to stream
    on_read check_emit_progress
uploads = refl

abbrev download_1 : Result TransferError ℕ × Run
download_1 = execute_download sample_policy true good_provider quiet run_1

execute_download-Ends_example : Download.Ends sample_policy good_provider job_1 reference download_1
execute_download-Ends_example =
    execute_download-Ends sample_policy true good_provider quiet run_1 reference refl refl

-- The token is set after the last byte.
abbrev late : Observed
late = record quiet { at_end = true }

execute_download_cancelled_late_example :
    let p = execute_download sample_policy true good_provider late run_1 in
    (p.0 ≡ err TransferError.cancelled) × (p.1.job.state ≡ TransferState.transferring)
execute_download_cancelled_late_example =
    execute_download_cancelled_late sample_policy true good_provider late run_1 reference refl refl
      (record { bytes_downloaded = 300000; verified_sha256 = none }) refl refl refl
