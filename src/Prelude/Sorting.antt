-- ===== src/Prelude/Sorting.antt =====
-- `slice::sort_by`, which is stable: an element goes before those that compare equal to it and stood
-- behind it.
use televault.Prelude.{
  subst, length, suc, refl, flip, Ordering, ◌≡◌, ◌≢◌, List, [], ◌∷◌, arith, All,
}
use mathlib.Core.List.{Perm, Memᴰ}
use mathlib.Core.List.Perm

module _ {A : Type 0} (cmp : A → A → Ordering) where
  unfoldable pub insert_by : A → List A → List A
  insert_by a [] = a ∷ []
  insert_by a (b ∷ bs) =
      let further = b ∷ insert_by a bs in
      elim (cmp a b) [ Ordering.gt ↦ further | Ordering.eq ↦ a ∷ b ∷ bs | Ordering.lt ↦ a ∷ b ∷ bs ]

  unfoldable pub sort_by : List A → List A
  unfolding insert_by
  sort_by [] = []
  sort_by (a ∷ xs) = insert_by a (sort_by xs)

  -- No element compares greater than the next.
  abbrev pub IsSorted : List A → Type 0
  IsSorted [] = Unit
  IsSorted (a ∷ []) = Unit
  IsSorted (a ∷ b ∷ bs) = (cmp a b ≢ Ordering.gt) × IsSorted (b ∷ bs)

  insert_by-perm : (a : A) (bs : List A) → Perm (insert_by a bs) (a ∷ bs)
  unfolding insert_by
  insert_by-perm a [] = Perm.rfl
  insert_by-perm a (b ∷ bs) =
      let further = Perm.trans (Perm.cons b (insert_by-perm a bs)) (Perm.swap a b bs) in
      ground (arith, further, Perm.refl (a ∷ b ∷ bs))

  pub sort_by-perm : (xs : List A) → Perm (sort_by xs) xs
  unfolding sort_by
  sort_by-perm [] = Perm.rfl
  sort_by-perm (a ∷ xs) = Perm.trans (insert_by-perm a (sort_by xs)) (Perm.cons a (sort_by-perm xs))

  module _ (total : (a b : A) → cmp b a ≡ flip (cmp a b)) where
    insert_by-IsSorted : (a : A) (bs : List A) → IsSorted bs → IsSorted (insert_by a bs)
    unfolding insert_by
    insert_by-IsSorted a [] h = tt
    insert_by-IsSorted a (b ∷ []) h = ground (arith, total a b)
    insert_by-IsSorted a (b ∷ c ∷ bs) h =
        ground (arith, total a b, insert_by-IsSorted a (c ∷ bs) h.1)

    pub sort_by-IsSorted : (xs : List A) → IsSorted (sort_by xs)
    unfolding sort_by
    sort_by-IsSorted [] = tt
    sort_by-IsSorted (a ∷ xs) = insert_by-IsSorted a (sort_by xs) (sort_by-IsSorted xs)

  length-insert_by : (a : A) (bs : List A) → length (insert_by a bs) ≡ suc (length bs)
  unfolding insert_by
  length-insert_by a [] = refl
  length-insert_by a (b ∷ bs) = ground (arith, length-insert_by a bs)

  pub length-sort_by : (xs : List A) → length (sort_by xs) ≡ length xs
  unfolding sort_by
  length-sort_by [] = refl
  length-sort_by (a ∷ xs) = omega (arith, length-insert_by a (sort_by xs), length-sort_by xs)

  module _ (P : A → Type 0) where
    All-insert_by : (a : A) (bs : List A) → P a → All P bs → All P (insert_by a bs)
    unfolding insert_by
    All-insert_by a [] h hs = ground arith
    All-insert_by a (b ∷ bs) h hs = ground (arith, All-insert_by a bs)

    pub All-sort_by : (xs : List A) → All P xs → All P (sort_by xs)
    unfolding sort_by
    All-sort_by [] hs = tt
    All-sort_by (a ∷ xs) hs = All-insert_by a (sort_by xs) hs.0 (All-sort_by xs hs.1)

  -- Nothing is lost.
  module _ {x : A} where
    before :
        (a b : A) (bs : List A) (o : Ordering)
        → (Unit {0} → Memᴰ x (b ∷ insert_by a bs))
        → (Unit {0} → Memᴰ x (a ∷ b ∷ bs))
        → Memᴰ x (elim o [
          | Ordering.gt ↦ b ∷ insert_by a bs
          | Ordering.eq ↦ a ∷ b ∷ bs
          | Ordering.lt ↦ a ∷ b ∷ bs
        ])
    before a b bs Ordering.gt f g = f tt
    before a b bs Ordering.eq f g = g tt
    before a b bs Ordering.lt f g = g tt

    Mem-insert_by_head : (bs : List A) → Memᴰ x (insert_by x bs)
    unfolding insert_by
    Mem-insert_by_head [] = Memᴰ.head refl
    Mem-insert_by_head (b ∷ bs) =
        before x b bs (cmp x b) (λ h. Memᴰ.tail (Mem-insert_by_head bs)) (λ h. Memᴰ.head refl)

    Mem-insert_by : (a : A) (bs : List A) → Memᴰ x bs → Memᴰ x (insert_by a bs)
    unfolding insert_by
    Mem-insert_by a [] m = Memᴰ.tail m
    Mem-insert_by a (b ∷ bs) (Memᴰ.head e) =
        before a b bs (cmp a b) (λ h. Memᴰ.head e) (λ h. Memᴰ.tail (Memᴰ.head e))
    Mem-insert_by a (b ∷ bs) (Memᴰ.tail m) =
        before a b bs (cmp a b) (λ h. Memᴰ.tail (Mem-insert_by a bs m))
          (λ h. Memᴰ.tail (Memᴰ.tail m))

    pub Mem-sort_by : (xs : List A) → Memᴰ x xs → Memᴰ x (sort_by xs)
    unfolding sort_by
    Mem-sort_by [] m = elim m [ ]
    Mem-sort_by (a ∷ xs) (Memᴰ.head e) =
        subst (λ y. Memᴰ x (insert_by y (sort_by xs))) e (Mem-insert_by_head (sort_by xs))
    Mem-sort_by (a ∷ xs) (Memᴰ.tail m) = Mem-insert_by a (sort_by xs) (Mem-sort_by xs m)
