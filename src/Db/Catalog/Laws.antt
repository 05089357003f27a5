-- ===== src/Db/Catalog/Laws.antt =====
-- Reasoning about statements in sequence.
use televault.Db.Catalog.{
  DbError, Catalog, Query, continue, ◌>>=◌, ◌>>◌, requires, check_affected, committed,
  with_transaction,
}
use televault.Prelude.{
  ℕ, ◌≡◌, ◌≢◌, inl, inr, Bool, true, arith, ◌==◌, Bool-cases, Text, Result, ok, err,
}

-- What the catalogue satisfies after statements that succeed.
abbrev pub After : {A : Type 0} → (Catalog → Type 0) → Result DbError (A × Catalog) → Type 0
After P (ok p) = P p.1
After P (err e) = Unit

pub After-requires :
    {B : Type 0} (P : Catalog → Type 0) (test : Catalog → Bool) (e : DbError) (rest : Query B)
    (db : Catalog)
    → (test db ≡ true → After P (rest db))
    → After P ((requires test e >> rest) db)
After-requires P test e rest db h = elim (Bool-cases (test db)) [
  | inl t ↦ rw t (h t)
  | inr t ↦ rw t tt
]

pub After-check :
    {B : Type 0} (P : Catalog → Type 0) (entity id : Text) (n : ℕ) (rest : Query B) (db : Catalog)
    → (n ≢ 0 → After P (rest db))
    → After P ((check_affected entity id n >> rest) db)
After-check P entity id n rest db h = elim (Bool-cases (n == 0)) [
  | inl t ↦ rw t tt
  | inr t ↦ rw t (h (ground arith))
]

pub After-checked :
    (P : Catalog → Type 0) (entity id : Text) (n : ℕ) (db : Catalog)
    → (n ≢ 0 → P db)
    → After P (check_affected entity id n db)
After-checked P entity id n db h = elim (Bool-cases (n == 0)) [
  | inl t ↦ rw t tt
  | inr t ↦ rw t (h (ground arith))
]

continue-After :
    {A B : Type 0} (P Q : Catalog → Type 0) (rest : A → Query B) (r : Result DbError (A × Catalog))
    → After P r
    → ((a : A) (db' : Catalog) → P db' → After Q (rest a db'))
    → After Q (continue r rest)
continue-After P Q rest (ok p) h k = k p.0 p.1 h
continue-After P Q rest (err e) h k = tt

pub After-bind :
    {A B : Type 0} (P Q : Catalog → Type 0) (step : Query A) (rest : A → Query B) (db : Catalog)
    → After P (step db)
    → ((a : A) (db' : Catalog) → P db' → After Q (rest a db'))
    → After Q ((step >>= rest) db)
After-bind P Q step rest db h k = continue-After P Q rest (step db) h k

committed-After :
    {A : Type 0} (P : Catalog → Type 0) (db : Catalog) (r : Result DbError (A × Catalog))
    → P db
    → After P r
    → P (committed db r).1
committed-After P db (ok p) i h = h
committed-After P db (err e) i h = i

-- A transaction leaves the catalogue as it was, or as the statements leave it.
pub with_transaction-After :
    {A : Type 0} (P : Catalog → Type 0) (f : Query A) (db : Catalog)
    → P db
    → After P (f db)
    → P (with_transaction f db).1
unfolding with_transaction
with_transaction-After P f db i h = committed-After P db (f db) i h
