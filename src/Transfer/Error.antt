-- ===== src/Transfer/Error.antt =====
-- crates/televault-transfer/src/error.rs: the errors of a transfer, and which may be retried.
use televault.Prelude.{ℕ, Bool, true, false, Text, text, ◌++◌}
use televault.Storage.Error.{
  IoErrorKind, timed_out, connection_reset, connection_aborted, interrupted, IoError, StorageError,
  upload_failed, download_failed, provider_unavailable, storage_error_text,
}

pub data TransferError : Type 0 where
  invalid_state_transition : (from to : Text) → TransferError
  invalid_job : Text → TransferError
  source_unavailable : Text → TransferError
  destination_unavailable : Text → TransferError
  storage : StorageError → TransferError
  io : IoError → TransferError
  verification_failed : Text → TransferError
  retries_exhausted : (attempts : ℕ) (last_error : Text) → TransferError
  cancelled : TransferError
  database : Text → TransferError
  concurrency : Text → TransferError
  other : Text → TransferError

abbrev storage_is_retryable : StorageError → Bool
storage_is_retryable (upload_failed reason retryable) = retryable
storage_is_retryable (download_failed reason retryable) = retryable
storage_is_retryable (provider_unavailable s) = true
storage_is_retryable _ = false

abbrev io_is_retryable : IoErrorKind → Bool
io_is_retryable timed_out = true
io_is_retryable connection_reset = true
io_is_retryable connection_aborted = true
io_is_retryable interrupted = true
io_is_retryable _ = false

-- `TransferError::is_retryable`.
unfoldable pub is_retryable : TransferError → Bool
is_retryable (storage e) = storage_is_retryable e
is_retryable (io e) = io_is_retryable e.kind
is_retryable _ = false

-- What `to_string` prints of the one error whose text a worker keeps.
abbrev pub storage_text : StorageError → Text
storage_text e = text "Storage provider error: " ++ storage_error_text e
