-- ===== src/Transfer/Samples.antt =====
-- Concrete jobs, providers and policies, on which the transfer code is run.
use televault.Prelude.{ℕ, ◌*◌, ◌^◌, true, false, none, some, [], ◌∷◌, Text, text, ok, err}
use televault.Prelude.Int.{ℤ, pos, negsuc}
use televault.Core.Models.{upload}
use televault.Manifest.Types.{StorageReference, telegram}
use televault.Storage.Error.{StorageError, provider_unavailable}
use televault.Storage.Types.{StorageStatus, StorageProvider}
use televault.Transfer.State.{TransferState, pending}
use televault.Transfer.Retry.{RetryPolicy, Float}
use televault.Transfer.Job.{TransferJob, fixed_time}
use televault.Transfer.Effects.{Run}
use televault.Transfer.Worker.{Observed}
use televault.Transfer.Queue.{Queue}
use televault.Transfer.Engine.{Engine, Round}

abbrev pub reference : StorageReference
reference = telegram (pos 7) (pos 10) (text "tg-1")

abbrev pub sample_job : Text → TransferState → TransferJob
sample_job job_id state = record {
  job_id = job_id;
  file_id = text "file-1";
  chunk_id = text "chunk-1";
  chunk_index = 0;
  total_chunks = 1;
  direction = upload;
  source_path = none;
  destination_path = none;
  storage_reference = some reference;
  expected_size_bytes = 300000;
  expected_sha256 = none;
  state = state;
  bytes_transferred = 0;
  retry_count = 0;
  max_retries = 3;
  error_message = none;
  created_at = fixed_time;
  updated_at = fixed_time;
}

abbrev pub job_1 : TransferJob
job_1 = sample_job (text "job-1") pending

abbrev pub job_2 : TransferJob
job_2 = sample_job (text "job-2") pending

-- A job that the database has as running, seen there with its bytes.
abbrev pub verifying_job : TransferJob
verifying_job = record job_1 { state = TransferState.verifying; bytes_transferred = 300000 }

-- A provider that takes everything, and one that is down.
abbrev pub good_provider : StorageProvider
good_provider = record {
  upload = λ q. record {
    moved = 300000 ∷ 0 ∷ [];
    result = ok (record {
      storage_reference = reference;
      bytes_uploaded = q.expected_size_bytes;
      verified_sha256 = none;
      remote_status = StorageStatus.uploaded;
    });
  };
  download = λ q. record {
    moved = 300000 ∷ [];
    result = ok (record { bytes_downloaded = 300000; verified_sha256 = none });
  };
  verify = λ q. ok true;
}

abbrev pub outage : StorageError
outage = provider_unavailable (text "down")

abbrev pub bad_provider : StorageProvider
bad_provider = record {
  upload = λ q. record { moved = []; result = err outage };
  download = λ q. record { moved = []; result = err outage };
  verify = λ q. err outage;
}

abbrev exponent : ℤ → ℕ
exponent (pos n) = n
exponent (negsuc n) = 0

-- Delays counted in natural numbers.
abbrev pub nat_float : Float ℕ
nat_float = record {
  of_u64 = λ n. n;
  powi = λ b e. b ^ exponent e;
  mul = λ a b. a * b;
  round_to_u64 = λ n. n;
}

abbrev pub sample_policy : RetryPolicy ℕ
sample_policy = record {
  max_retries = 3;
  initial_backoff_ms = 1000;
  max_backoff_ms = 30000;
  backoff_factor = 2;
}

abbrev pub quiet : Observed
quiet = record { at_start = false; at_failure = false; at_end = false }

abbrev pub fresh_run : TransferJob → Run
fresh_run job = record { job = job; reports = [] }

abbrev pub empty_queue : Queue
empty_queue = record { pending = []; jobs = []; active = []; tokens = []; max_concurrency = 2 }

abbrev pub fresh_engine : Engine
fresh_engine = record { run = fresh_run job_1; queue = empty_queue; slept = [] }

abbrev pub rounds : StorageProvider → ℕ → Round
rounds provider n = record {
  cancelled_before = false;
  open_error = none;
  provider = provider;
  seen = quiet;
}
