-- ===== src/Transfer/Tests/Engine.antt =====
-- The retry loop on concrete inputs: a provider that works, and one that is down.
use televault.Prelude.{ℕ, ◌≡◌, refl, true, Option, some, arith, length, Result, ok, err}
use televault.Transfer.Worker.{begin_upload, send, confirm, complete_upload, execute_upload}
use televault.Transfer.Progress.{check_emit_progress, on_read, stream}
use televault.Manifest.Types.{StorageReference}
use televault.Transfer.Error.{TransferError, is_retryable, storage}
use televault.Transfer.State.{TransferState, transition_to}
use televault.Transfer.Job.{transition}
use televault.Transfer.Engine.{Engine, Round, upload_stream, after_upload, execute_staged_upload}
use televault.Transfer.Engine.Staged.{execute_staged_upload_ends}
use televault.Transfer.Engine.Succeeded.{StoredIn, execute_staged_upload-Uploaded}
use televault.Transfer.Engine.Exhausted.{AlwaysFails, execute_staged_upload_exhausted}
use televault.Transfer.Samples.{
  reference, good_provider, bad_provider, outage, nat_float, sample_policy, rounds, fresh_engine,
}

abbrev loop : (ℕ → Round) → Option (Result TransferError StorageReference × Engine)
loop world = execute_staged_upload sample_policy true nat_float (ok tt) world 5 0 fresh_engine

execute_staged_upload_ends_example :
    (x : Result TransferError StorageReference × Engine) × (loop (rounds bad_provider) ≡ some x)
execute_staged_upload_ends_example =
    execute_staged_upload_ends sample_policy true nat_float (ok tt) (rounds bad_provider)
      (ground arith) 0 fresh_engine

is_down : AlwaysFails (rounds bad_provider)
unfolding is_retryable
is_down = record {
  error = λ n. outage;
  not_before = λ n. refl;
  opens = λ n. refl;
  not_at_start = λ n. refl;
  not_at_failure = λ n. refl;
  fails = λ n q. refl;
  retryable = λ n. refl;
}

execute_staged_upload_exhausted_example :
    (last : Engine) × (loop (rounds bad_provider) ≡ some (err (storage (is_down.error 2)), last))
    × (last.run.job.state ≡ TransferState.retrying)
    × (last.run.job.retry_count ≡ 3)
    × (length last.slept ≡ 2)
execute_staged_upload_exhausted_example =
    execute_staged_upload_exhausted sample_policy true nat_float (ok tt) (rounds bad_provider)
      is_down (ground arith) fresh_engine 2 refl refl refl refl

-- The one round that a working provider takes.
works : (s : Engine) × (loop (rounds good_provider) ≡ some (ok reference, s))
unfolding execute_staged_upload upload_stream after_upload execute_upload begin_upload send confirm
    complete_upload transition transition_to stream on_read check_emit_progress
works = (_, refl)

execute_staged_upload-Uploaded_example :
    StoredIn sample_policy true nat_float
      (ok tt)
      (rounds good_provider)
      0
      5
      fresh_engine.run.job
      reference
      works.0.run.job
execute_staged_upload-Uploaded_example =
    execute_staged_upload-Uploaded sample_policy true nat_float (ok tt) (rounds good_provider) 5 0
      fresh_engine reference works.0 works.1
