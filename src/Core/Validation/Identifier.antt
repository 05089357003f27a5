-- ===== src/Core/Validation/Identifier.antt =====
-- What `validate_identifier_string` accepts (crates/televault-core/src/validation.rs).
use televault.Prelude.{
  ℕ, ◌≤◌, Bool, true, ◌≡◌, ◌≢◌, ◌↔◌, none, [], ◌∷◌, Text, trim, byte_len, find_bad, ok, arith, All,
}
use televault.Core.Validation.{is_identifier_char, validate_identifier_string}

find_bad_iff : (good : ℕ → Bool) (s : Text) → (find_bad good s ≡ none) ↔ All (λ c. good c ≡ true) s
unfolding find_bad
find_bad_iff good [] = ground arith
find_bad_iff good (c ∷ s) = ground (arith, find_bad_iff good s)

-- An identifier is accepted exactly if, without the blanks around it, it is not empty, has 64 bytes
-- at most, and all its characters are letters, digits, hyphens and underscores.
pub validate_identifier_string_iff :
    (entity value : Text)
    → (validate_identifier_string entity value ≡ ok tt) ↔ (
        (trim value ≢ [])
        × (byte_len (trim value) ≤ 64)
        × All (λ c. is_identifier_char c ≡ true) (trim value))
unfolding validate_identifier_string
validate_identifier_string_iff entity value = (
  λ h. ground (arith, find_bad_iff is_identifier_char (trim value)),
  λ v. ground (arith, find_bad_iff is_identifier_char (trim value)),
)
