-- ===== src/Core/Tests.antt =====
-- Identifiers and paths on concrete inputs.
use televault.Prelude.{
  trim, trim_start, byte_len, find_bad, ◌≤◌, ◌≡◌, refl, ◌≢◌, ◌↔◌, true, List, [], ◌∷◌, ◌++◌, All,
  Text, text, text_eq, ok, err,
}
use televault.Core.Error.{path}
use televault.Core.Validation.{
  new_id, segments, check_components, body, components, is_identifier_char,
  validate_identifier_string, validate_safe_relative_path,
}
use televault.Core.Validation.Identifier.{validate_identifier_string_iff}
use televault.Core.Validation.Traversal.{resolve, validate_safe_relative_path-resolve}

validate_identifier_string_iff_example :
    (validate_identifier_string (text "Profile") (text "profile-01_a") ≡ ok tt) ↔ (
      (trim (text "profile-01_a") ≢ [])
      × (byte_len (trim (text "profile-01_a")) ≤ 64)
      × All (λ c. is_identifier_char c ≡ true) (trim (text "profile-01_a")))
validate_identifier_string_iff_example =
    validate_identifier_string_iff (text "Profile") (text "profile-01_a")

identifier_passes : validate_identifier_string (text "Profile") (text "profile-01_a") ≡ ok tt
unfolding validate_identifier_string trim trim_start byte_len find_bad
identifier_passes = refl

abbrev safe : Text
safe = text "./sub//folder/file.txt"

safe_passes : validate_safe_relative_path safe ≡ ok tt
unfolding validate_safe_relative_path check_components components body segments text_eq
safe_passes = refl

validate_safe_relative_path-resolve_example :
    (below : List Text) × (resolve (text "root" ∷ []) (components safe) ≡ below ++ text "root" ∷ [])
validate_safe_relative_path-resolve_example =
    validate_safe_relative_path-resolve safe (text "root" ∷ []) safe_passes

safe_resolves :
    resolve (text "root" ∷ []) (components safe)
    ≡ text "file.txt" ∷ text "folder" ∷ text "sub" ∷ text "root" ∷ []
unfolding resolve components body segments text_eq
safe_resolves = refl

climbs :
    validate_safe_relative_path (text "sub/../../escape.txt")
    ≡ err (path (text "path traversal ('..') is strictly prohibited"))
unfolding validate_safe_relative_path check_components components body segments text_eq
climbs = refl

-- The blanks around an identifier are checked off, but kept.
keeps_blanks : new_id (text "File") (text " file-1 ") ≡ ok (text " file-1 ")
unfolding new_id validate_identifier_string trim trim_start byte_len find_bad
keeps_blanks = refl
