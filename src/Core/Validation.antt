-- ===== src/Core/Validation.antt =====
-- crates/televault-core/src/validation.rs: the checks on identifiers and paths, and the identifiers
-- of ids.rs.
pub mod Identifier
pub mod Traversal
use televault.Core.Error.{AppError, validation, invalid_id, path}
use televault.Prelude.{
  ℕ, Bool, true, false, not, ◌&&◌, ◌||◌, Option, none, some, List, [], ◌∷◌, ◌++◌, leb, ltb, ◌==◌,
  if◌then◌else◌, Text, text, trim, is_empty, byte_len, is_ascii_digit, find_bad, decimal, Result,
  ok, err, ◌>>=◌, ◌>>◌, guard, text_eq,
}

-- `validate_non_empty`
unfoldable pub validate_non_empty : Text → Text → Result AppError (Unit {0})
validate_non_empty field value =
    guard (not (is_empty (trim value))) (validation field (text "value cannot be empty"))

abbrev pub is_identifier_char : ℕ → Bool
is_identifier_char c =
    is_ascii_digit c
    || leb b'a' c && leb c b'z'
    || leb b'A' c && leb c b'Z'
    || c == b'-'
    || c == b'_'

abbrev illegal : Text → Option ℕ → Result AppError (Unit {0})
illegal entity none = ok tt
illegal entity (some c) = err (
    invalid_id entity (
      text "identifier contains illegal character '"
      ++ c ∷ text "'; only alphanumeric, '-', and '_' are permitted"))

-- `validate_identifier_string`
unfoldable pub validate_identifier_string : Text → Text → Result AppError (Unit {0})
validate_identifier_string entity value = do
  let trimmed = trim value
  guard (not (is_empty trimmed)) (invalid_id entity (text "identifier cannot be empty"))
  guard (leb (byte_len trimmed) 64) (
      invalid_id entity (
        text "identifier exceeds maximum length of 64 characters (length: "
        ++ (decimal (byte_len trimmed) ++ text ")")))
  illegal entity (find_bad is_identifier_char trimmed)

-- `std::path::Component`, as Unix has it: no prefix.
pub data Component : Type 0 where
  root_dir cur_dir parent_dir : Component
  normal : Text → Component

abbrev push_char : ℕ → List Text → List Text
push_char c [] = (c ∷ []) ∷ []
push_char c (w ∷ ws) = (c ∷ w) ∷ ws

-- The parts of a path between its separators.
unfoldable pub segments : Text → List Text
segments [] = [] ∷ []
segments (c ∷ s) = let rest = segments s in if c == b'/' then [] ∷ rest else push_char c rest

-- Empty parts are no component, and `.` is one only at the head of a relative path.
unfoldable pub body : Bool → List Text → List Component
body leading [] = []
body leading (w ∷ ws) =
    let rest = body false ws in
    if is_empty w
    then rest
    else if text_eq w (text ".")
    then (if leading then cur_dir ∷ rest else rest)
    else if text_eq w (text "..")
    then parent_dir ∷ rest
    else normal w ∷ rest

abbrev pub is_absolute : Text → Bool
is_absolute [] = false
is_absolute (c ∷ s) = c == b'/'

-- `Path::components`
unfoldable pub components : Text → List Component
components p = if is_absolute p then root_dir ∷ body false (segments p) else body true (segments p)

unfoldable pub check_components : List Component → Result AppError (Unit {0})
check_components [] = ok tt
check_components (parent_dir ∷ cs) =
    err (path (text "path traversal ('..') is strictly prohibited"))
check_components (root_dir ∷ cs) =
    err (path (text "absolute prefixes or root elements are not permitted in relative paths"))
check_components (cur_dir ∷ cs) = check_components cs
check_components (normal w ∷ cs) = check_components cs

-- `validate_safe_relative_path`
unfoldable pub validate_safe_relative_path : Text → Result AppError (Unit {0})
validate_safe_relative_path p = do
  guard (not (is_absolute p)) (path (text "path must be relative, not absolute"))
  check_components (components p)

-- `new` of the identifier types (`define_id!` of crates/televault-core/src/ids.rs), which are the text
-- that they are made of.
unfoldable pub new_id : Text → Text → Result AppError Text
new_id entity id = validate_identifier_string entity id >> ok id
