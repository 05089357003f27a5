-- ===== src/Db/Table/Laws.antt =====
-- What the statements on one table keep, and what they change.
use televault.Db.Table.{some, first, select, delete_where, update_where, count, any, append_row}
use televault.Prelude.{
  ◌+◌, ◌≡◌, refl, ◌↔◌, inl, inr, Bool, true, false, ◌&&◌, ◌||◌, List, [], ◌∷◌, arith, Bool-cases,
  length, All, Text, text_eq, text_eq_iff,
}

module _ {Row : Type 0} where
  pub any-append :
      (p : Row → Bool) (t : List Row) (r : Row) → any p (append_row r t) ≡ (any p t || p r)
  unfolding any
  any-append p [] r = ground arith
  any-append p (x ∷ t) r = ground (arith, any-append p t r)

  -- Rows that are looked for are still found, when none of them is deleted.
  pub any-delete :
      (p q : Row → Bool) (t : List Row)
      → ((r : Row) → p r ≡ true → q r ≡ false)
      → any p t ≡ true
      → any p (delete_where q t) ≡ true
  unfolding any delete_where
  any-delete p q [] h k = k
  any-delete p q (x ∷ t) h k = ground (arith, any-delete p q t h, h x)

  pub any-update :
      (p q : Row → Bool) (f : Row → Row) (t : List Row)
      → ((r : Row) → p (f r) ≡ p r)
      → any p (update_where q f t) ≡ any p t
  unfolding any update_where
  any-update p q f [] h = refl
  any-update p q f (x ∷ t) h = ground (arith, any-update p q f t h, h x)

  pub none_of : (p : Row → Bool) (t : List Row) → any p t ≡ false → All (λ r. p r ≡ false) t
  unfolding any
  none_of p [] h = tt
  none_of p (x ∷ t) h = (ground arith, none_of p t (ground arith))

  pub count_zero : (p : Row → Bool) (t : List Row) → (count p t ≡ 0) ↔ (any p t ≡ false)
  unfolding count any
  count_zero p [] = ground arith
  count_zero p (x ∷ t) = ground (arith, count_zero p t)

  pub delete_none : (p : Row → Bool) (t : List Row) → any p t ≡ false → delete_where p t ≡ t
  unfolding any delete_where
  delete_none p [] h = refl
  delete_none p (x ∷ t) h = ground (arith, delete_none p t)

  pub any-delete_self : (p : Row → Bool) (t : List Row) → any p (delete_where p t) ≡ false
  unfolding any delete_where
  any-delete_self p [] = refl
  any-delete_self p (x ∷ t) = ground (arith, any-delete_self p t)

  pub All-map : (P Q : Row → Type 0) (t : List Row) → ((r : Row) → P r → Q r) → All P t → All Q t
  All-map P Q [] h k = tt
  All-map P Q (x ∷ t) h k = (h x k.0, All-map P Q t h k.1)

  pub All-and : (P Q : Row → Type 0) (t : List Row) → All P t → All Q t → All (λ r. P r × Q r) t
  All-and P Q [] h k = tt
  All-and P Q (x ∷ t) h k = ((h.0, k.0), All-and P Q t h.1 k.1)

  pub All-unit : (t : List Row) → All (λ r. Unit {0}) t
  All-unit [] = tt
  All-unit (x ∷ t) = (tt, All-unit t)

  pub All-delete :
      (P Q : Row → Type 0) (q : Row → Bool) (t : List Row)
      → ((r : Row) → P r → q r ≡ false → Q r)
      → All P t
      → All Q (delete_where q t)
  unfolding delete_where
  All-delete P Q q [] h k = tt
  All-delete P Q q (x ∷ t) h k =
      let rest = All-delete P Q q t h k.1 in
      elim (Bool-cases (q x)) [ inl e ↦ rw e rest | inr e ↦ rw e (h x k.0 e, rest) ]

  pub All-update :
      (P Q : Row → Type 0) (q : Row → Bool) (f : Row → Row) (t : List Row)
      → ((r : Row) → P r → q r ≡ true → Q (f r))
      → ((r : Row) → P r → q r ≡ false → Q r)
      → All P t
      → All Q (update_where q f t)
  unfolding update_where
  All-update P Q q f [] h g k = tt
  All-update P Q q f (x ∷ t) h g k =
      let rest = All-update P Q q f t h g k.1 in
      elim (Bool-cases (q x)) [ inl e ↦ rw e (h x k.0 e, rest) | inr e ↦ rw e (g x k.0 e, rest) ]

  -- A row that is looked for is still found, if it is not among those deleted.
  pub any-delete_others :
      (p q : Row → Bool) (t : List Row)
      → any (λ r. q r && p r) t ≡ false
      → any p t ≡ true
      → any p (delete_where q t) ≡ true
  unfolding any delete_where
  any-delete_others p q [] h k = k
  any-delete_others p q (x ∷ t) h k = ground (arith, any-delete_others p q t)

-- The rows of other keys stay.
pub any-delete_key :
    {Row : Type 0} (key : Row → Text) (j k : Text) (t : List Row)
    → text_eq k j ≡ false
    → any (λ (r : Row). text_eq (key r) k) t ≡ true
    → any (λ (r : Row). text_eq (key r) k) (delete_where (λ (r : Row). text_eq (key r) j) t) ≡ true
any-delete_key key j k t h =
    any-delete (λ r. text_eq (key r) k) (λ r. text_eq (key r) j) t
      (λ r e. ground (arith, text_eq_iff (key r) k, text_eq_iff (key r) j, text_eq_iff k j))

module _ {Row : Type 0} where
  -- Two deletions in a row.
  pub delete-delete :
      (p q u : Row → Bool) (t : List Row)
      → ((r : Row) → u r ≡ (q r || p r))
      → delete_where p (delete_where q t) ≡ delete_where u t
  unfolding delete_where
  delete-delete p q u [] h = refl
  delete-delete p q u (x ∷ t) h = ground (arith, delete-delete p q u t h, h x)

  pub count-delete :
      (q : Row → Bool) (t : List Row) → count q t + length (delete_where q t) ≡ length t
  unfolding delete_where count
  count-delete q [] = refl
  count-delete q (x ∷ t) = ground (arith, count-delete q t)

  pub delete_nothing :
      (q : Row → Bool) (t : List Row) → ((r : Row) → q r ≡ false) → delete_where q t ≡ t
  unfolding delete_where
  delete_nothing q [] h = refl
  delete_nothing q (x ∷ t) h = ground (arith, delete_nothing q t h, h x)

-- A new row is the first under its key.
pub select_append_new :
    {Row : Type 0} (p : Row → Bool) (t : List Row) (r : Row)
    → any p t ≡ false
    → p r ≡ true
    → first (select p (append_row r t)) ≡ some r
unfolding any select
select_append_new p [] r h k = rw k refl
select_append_new p (x ∷ t) r h k = ground (arith, select_append_new p t r)
