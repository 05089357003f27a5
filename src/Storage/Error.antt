-- ===== src/Storage/Error.antt =====
-- crates/televault-storage/src/error.rs: the errors of a storage provider, and how they print.
use televault.Prelude.{ℕ, Bool, true, false, Text, text, decimal, ◌++◌}

-- `std::io::ErrorKind`, as far as the program tells its values apart.
pub data IoErrorKind : Type 0 where
  timed_out connection_reset connection_aborted interrupted : IoErrorKind
  other_kind : IoErrorKind

-- `std::io::Error`: its kind and its printed form.
pub record IoError : Type 0 where
  pub kind : IoErrorKind
  pub message : Text

pub data StorageError : Type 0 where
  io : IoError → StorageError
  invalid_reference : Text → StorageError
  upload_failed : (reason : Text) (retryable : Bool) → StorageError
  download_failed : (reason : Text) (retryable : Bool) → StorageError
  delete_failed : (reason : Text) (retryable : Bool) → StorageError
  verification_failed : (reason : Text) → StorageError
  temp_storage : Text → StorageError
  provider_unavailable : Text → StorageError
  invalid_state : (current expected : Text) → StorageError
  not_found : Text → StorageError
  chunk_too_large : (actual_bytes limit_bytes : ℕ) → StorageError
  serialization : Text → StorageError

abbrev bool_text : Bool → Text
bool_text true = text "true"
bool_text false = text "false"

abbrev failed_text : Text → Bool → Text → Text
failed_text what retryable reason =
    what ++ text " failed (retryable=" ++ bool_text retryable ++ text "): " ++ reason

-- The `#[error(...)]` formats.
unfoldable pub storage_error_text : StorageError → Text
storage_error_text (io e) = text "Storage I/O error: " ++ e.message
storage_error_text (invalid_reference s) = text "Invalid storage reference: " ++ s
storage_error_text (upload_failed reason r) = failed_text (text "Upload") r reason
storage_error_text (download_failed reason r) = failed_text (text "Download") r reason
storage_error_text (delete_failed reason r) = failed_text (text "Delete") r reason
storage_error_text (verification_failed reason) = text "Remote verification failed: " ++ reason
storage_error_text (temp_storage s) = text "Temporary storage error: " ++ s
storage_error_text (provider_unavailable s) = text "Storage provider unavailable: " ++ s
storage_error_text (invalid_state current expected) =
    text "Invalid storage state: current '"
    ++ current
    ++ text "', expected '"
    ++ expected
    ++ text "'"
storage_error_text (not_found s) = text "Remote storage object not found: " ++ s
storage_error_text (chunk_too_large actual limit) =
    text "Chunk payload exceeds size limit: " ++ decimal actual ++ text " > " ++ decimal limit
storage_error_text (serialization s) = text "Storage serialization error: " ++ s
