-- ===== src/Core/Validation/Traversal.antt =====
-- A path that `validate_safe_relative_path` accepts leads below where it starts
-- (crates/televault-core/src/validation.rs).
use televault.Prelude.{not, ◌≡◌, refl, List, [], ◌∷◌, ◌++◌, Text, ok, guard, >>=-eq-ok, arith}
use mathlib.Core.List.{append_assoc}
use televault.Core.Validation.{
  Component, root_dir, cur_dir, parent_dir, normal, is_absolute, components, check_components,
  validate_safe_relative_path,
}

-- The directories from the deepest to the root after following a path.
unfoldable pub resolve : List Text → List Component → List Text
resolve dirs [] = dirs
resolve dirs (root_dir ∷ cs) = resolve [] cs
resolve dirs (cur_dir ∷ cs) = resolve dirs cs
resolve [] (parent_dir ∷ cs) = resolve [] cs
resolve (d ∷ dirs) (parent_dir ∷ cs) = resolve dirs cs
resolve dirs (normal w ∷ cs) = resolve (w ∷ dirs) cs

check_components-resolve :
    (cs : List Component) (dirs : List Text)
    → check_components cs ≡ ok tt
    → (below : List Text) × (resolve dirs cs ≡ below ++ dirs)
unfolding check_components resolve
check_components-resolve [] dirs h = ([], refl)
check_components-resolve (root_dir ∷ cs) dirs h = ground arith
check_components-resolve (parent_dir ∷ cs) dirs h = ground arith
check_components-resolve (cur_dir ∷ cs) dirs h = check_components-resolve cs dirs h
check_components-resolve (normal w ∷ cs) dirs h =
    let r = check_components-resolve cs (w ∷ dirs) h in
    (r.0 ++ w ∷ [], ground (arith, r.1, append_assoc r.0 (w ∷ []) dirs))

-- A path that is accepted leads to a place below the directory that it is followed from, whatever
-- that directory is.
pub validate_safe_relative_path-resolve :
    (p : Text) (dirs : List Text)
    → validate_safe_relative_path p ≡ ok tt
    → (below : List Text) × (resolve dirs (components p) ≡ below ++ dirs)
unfolding validate_safe_relative_path
validate_safe_relative_path-resolve p dirs h =
    check_components-resolve (components p) dirs
      (>>=-eq-ok (guard (not (is_absolute p)) _) (λ _. check_components (components p)) h).2
