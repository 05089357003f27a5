-- ===== src/Core/Error.antt =====
-- crates/televault-core/src/error.rs: the application's error and how it prints. An I/O error is
-- kept by its printed form.
use televault.Prelude.{Text, text, ◌++◌}

pub data AppError : Type 0 where
  io : Text → AppError
  config : (field message : Text) → AppError
  validation : (field message : Text) → AppError
  invalid_id : (entity reason : Text) → AppError
  not_found : (entity id : Text) → AppError
  path : Text → AppError
  conflict : (entity reason : Text) → AppError
  invalid_state : (current expected : Text) → AppError
  internal : Text → AppError

-- The `#[error(...)]` formats.
unfoldable pub app_error_text : AppError → Text
app_error_text (io e) = text "I/O error: " ++ e
app_error_text (config field message) =
    text "Configuration error in '" ++ (field ++ (text "': " ++ message))
app_error_text (validation field message) =
    text "Validation error for '" ++ (field ++ (text "': " ++ message))
app_error_text (invalid_id entity reason) =
    text "Invalid " ++ (entity ++ (text " identifier: " ++ reason))
app_error_text (not_found entity id) = entity ++ (text " not found: " ++ id)
app_error_text (path message) = text "Path error: " ++ message
app_error_text (conflict entity reason) = text "Conflict on " ++ (entity ++ (text ": " ++ reason))
app_error_text (invalid_state current expected) =
    text "Invalid state transition: current state '"
    ++ (current ++ (text "', expected '" ++ (expected ++ text "'")))
app_error_text (internal message) = text "Internal error: " ++ message
