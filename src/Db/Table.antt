-- ===== src/Db/Table.antt =====
-- What the SQL statements of crates/televault-db/src/db.rs do to one table: a list of rows in the order
-- of their insertion.
pub mod Laws
use televault.Prelude.{
  compare_text, ℕ, zero, suc, Ordering, Bool, false, ◌||◌, Option, none, some, List, [], ◌∷◌, ◌++◌,
  if◌then◌else◌, Text, text_eq, compare_text,
}

module _ {Row : Type 0} where
  -- `SELECT .. WHERE`
  unfoldable pub select : (Row → Bool) → List Row → List Row
  select p [] = []
  select p (r ∷ t) = let rest = select p t in if p r then r ∷ rest else rest

  -- `DELETE .. WHERE`
  unfoldable pub delete_where : (Row → Bool) → List Row → List Row
  delete_where p [] = []
  delete_where p (r ∷ t) = let rest = delete_where p t in if p r then rest else r ∷ rest

  -- `UPDATE .. SET .. WHERE`
  unfoldable pub update_where : (Row → Bool) → (Row → Row) → List Row → List Row
  update_where p f [] = []
  update_where p f (r ∷ t) = (if p r then f r else r) ∷ update_where p f t

  -- The rows that a statement affects: `SELECT COUNT(*) .. WHERE`.
  unfoldable pub count : (Row → Bool) → List Row → ℕ
  count p [] = 0
  count p (r ∷ t) = let rest = count p t in if p r then suc rest else rest

  unfoldable pub any : (Row → Bool) → List Row → Bool
  any p [] = false
  any p (r ∷ t) = p r || any p t

  -- The first row, as `query_row` has it.
  abbrev pub first : List Row → Option Row
  first [] = none
  first (r ∷ t) = some r

  -- `INSERT`: the new row comes last.
  abbrev pub append_row : Row → List Row → List Row
  append_row r t = t ++ r ∷ []

module _ {Row : Type 0} (key : Row → Text) where
  -- A row stands under a key.
  abbrev pub has_key : List Row → Text → Bool
  has_key t k = any (λ (r : Row). text_eq (key r) k) t

  unfoldable pub find_key : List Row → Text → Option Row
  find_key t k = first (select (λ (r : Row). text_eq (key r) k) t)

-- A column that may be NULL.
abbrev pub is_text : Option Text → Text → Bool
is_text none k = false
is_text (some j) k = text_eq j k

-- `ORDER BY .. ASC` and `DESC` on a column of texts, which sort stably.
abbrev pub ascending : {Row : Type 0} → (Row → Text) → Row → Row → Ordering
ascending col a b = compare_text (col a) (col b)

abbrev pub descending : {Row : Type 0} → (Row → Text) → Row → Row → Ordering
descending col a b = compare_text (col b) (col a)

unfoldable pub limit : {Row : Type 0} → ℕ → List Row → List Row
limit zero t = []
limit (suc n) [] = []
limit (suc n) (r ∷ t) = r ∷ limit n t
