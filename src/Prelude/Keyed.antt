-- ===== src/Prelude/Keyed.antt =====
-- Maps and sets keyed by texts: Rust's `HashMap<JobId, V>` as an association list in which a key
-- stands once, and `HashSet<JobId>` as a list in which a key stands once.
use televault.Prelude.{
  suc, ◌≤◌, Bool, true, false, ◌≡◌, refl, Option, none, some, List, [], ◌∷◌, ◌++◌, length, Text,
  text_eq, text_eq_iff, if◌then◌else◌, arith,
}

module _ {V : Type 0} where
  unfoldable pub lookup : Text → List (Text × V) → Option V
  lookup k [] = none
  lookup k ((j, v) ∷ m) = if text_eq j k then some v else lookup k m

  unfoldable pub insert : Text → V → List (Text × V) → List (Text × V)
  insert k v [] = (k, v) ∷ []
  insert k v ((j, w) ∷ m) = if text_eq j k then (k, v) ∷ m else (j, w) ∷ insert k v m

  pub lookup-insert :
      (k j : Text) (v : V) (m : List (Text × V))
      → lookup j (insert k v m) ≡ (if text_eq k j then some v else lookup j m)
  unfolding lookup insert
  lookup-insert k j v [] = refl
  lookup-insert k j v ((i, w) ∷ m) =
      ground (arith, text_eq_iff k j, text_eq_iff i k, text_eq_iff i j, lookup-insert k j v m)

module _ {V : Type 0} where
  -- `HashMap::remove`
  unfoldable pub erase : Text → List (Text × V) → List (Text × V)
  erase k [] = []
  erase k ((j, v) ∷ m) = let rest = erase k m in if text_eq j k then rest else (j, v) ∷ rest

  pub lookup-erase :
      (k j : Text) (m : List (Text × V))
      → lookup j (erase k m) ≡ (if text_eq k j then none else lookup j m)
  unfolding lookup erase
  lookup-erase k j [] = ground arith
  lookup-erase k j ((i, w) ∷ m) =
      ground (arith, text_eq_iff k j, text_eq_iff i k, text_eq_iff i j, lookup-erase k j m)

-- Sets, and queues of identifiers.
unfoldable pub contains : List Text → Text → Bool
contains [] k = false
contains (j ∷ s) k = if text_eq j k then true else contains s k

-- `HashSet::insert`
unfoldable pub add : Text → List Text → List Text
add k s = if contains s k then s else k ∷ s

-- `HashSet::remove`, and `VecDeque::retain(|id| id != k)`.
unfoldable pub remove : Text → List Text → List Text
remove k [] = []
remove k (j ∷ s) = if text_eq j k then remove k s else j ∷ remove k s

-- No key stands twice.
abbrev pub Distinct : List Text → Type 0
Distinct [] = Unit
Distinct (k ∷ s) = (contains s k ≡ false) × Distinct s

pub contains-append :
    (s t : List Text) (k : Text)
    → contains (s ++ t) k ≡ (if contains s k then true else contains t k)
unfolding contains
contains-append [] t k = refl
contains-append (j ∷ s) t k = ground (arith, contains-append s t k)

pub contains-remove :
    (s : List Text) (k j : Text)
    → contains (remove k s) j ≡ (if text_eq k j then false else contains s j)
unfolding contains remove
contains-remove [] k j = ground arith
contains-remove (i ∷ s) k j =
    ground (arith, text_eq_iff i k, text_eq_iff i j, text_eq_iff k j, contains-remove s k j)

pub contains-add :
    (s : List Text) (k j : Text)
    → contains (add k s) j ≡ (if text_eq k j then true else contains s j)
unfolding contains add
contains-add s k j = ground (arith, text_eq_iff k j)

pub Distinct-remove : (s : List Text) (k : Text) → Distinct s → Distinct (remove k s)
unfolding remove
Distinct-remove [] k d = tt
Distinct-remove (j ∷ s) k d = ground (arith, Distinct-remove s k d.1, contains-remove s k j)

pub Distinct-add : (s : List Text) (k : Text) → Distinct s → Distinct (add k s)
unfolding add
Distinct-add s k d = ground arith

pub Distinct-snoc :
    (s : List Text) (k : Text) → Distinct s → contains s k ≡ false → Distinct (s ++ k ∷ [])
unfolding contains
Distinct-snoc [] k d h = ground arith
Distinct-snoc (j ∷ s) k d h =
    ground
      (arith, text_eq_iff j k, text_eq_iff k j, contains-append s (k ∷ []) j, Distinct-snoc s k d.1)

pub length-remove : (s : List Text) (k : Text) → length (remove k s) ≤ length s
unfolding remove
length-remove [] k = omega arith
length-remove (j ∷ s) k = ground (arith, length-remove s k)

pub length-add : (s : List Text) (k : Text) → length (add k s) ≤ suc (length s)
unfolding add
length-add s k = ground arith
