-- ===== src/Sql.antt =====
-- What the code relies on of SQLAlchemy and the database below it (neither is in the repository):
-- the operations of a session on one table, with the documented effect of each. `rows` is what a
-- table holds, for the laws alone. A `select` promises the rows and not their order, `order_by`
-- an order and not how ties are broken.
pub mod Rows
use ride_flow.Prelude.{
  ℕ, Bool, true, false, List, [], ◌∷◌, ◌++◌, Option, Perm, map, ◌≡◌, All, filterb, find, map_where,
  not, distinct, length,
}

-- Every row stands before those behind it.
abbrev pub IsOrdered {ℓ} : {A : Type ℓ} → (A → A → Bool) → List A → Type 0
IsOrdered le [] = Unit
IsOrdered le (x ∷ xs) = All (λ y. le x y ≡ true) xs × IsOrdered le xs

pub record Sql : Type 1 where
  pub Table : Type 0 → Type 0
  pub rows : {Row : Type 0} → Table Row → List Row
  -- `session.get`, by the primary key that the condition tests
  pub get : {Row : Type 0} → (Row → Bool) → Table Row → Option Row
  -- `select(...).where(...)`
  pub select : {Row : Type 0} → (Row → Bool) → Table Row → List Row
  -- `select(...).where(...).order_by(...)`
  pub order_by : {Row : Type 0} → (Row → Row → Bool) → (Row → Bool) → Table Row → List Row
  -- `session.add` and the INSERT that follows
  pub add : {Row : Type 0} → Row → Table Row → Table Row
  -- `update(...).where(...).values(...).returning(...)`
  pub update : {Row : Type 0} → (Row → Bool) → (Row → Row) → Table Row → List Row × Table Row
  -- `delete(...).where(...)`, with its row count
  pub delete : {Row : Type 0} → (Row → Bool) → Table Row → ℕ × Table Row
  -- the check of a UNIQUE constraint
  pub unique : {Row : Type 0} → (Row → Row → Bool) → Table Row → Bool
  pub get-rows : {Row : Type 0} (p : Row → Bool) (t : Table Row) → get p t ≡ find p (rows t)
  pub select-rows :
      {Row : Type 0} (p : Row → Bool) (t : Table Row) → Perm (select p t) (filterb p (rows t))
  pub order_by-rows :
      {Row : Type 0} (le : Row → Row → Bool) (p : Row → Bool) (t : Table Row)
      → Perm (order_by le p t) (filterb p (rows t))
  pub order_by-IsOrdered :
      {Row : Type 0} (le : Row → Row → Bool) (p : Row → Bool) (t : Table Row)
      → ((x y : Row) → le x y ≡ false → le y x ≡ true)
      → ((x y z : Row) → le x y ≡ true → le y z ≡ true → le x z ≡ true)
      → IsOrdered le (order_by le p t)
  pub rows-add : {Row : Type 0} (r : Row) (t : Table Row) → rows (add r t) ≡ rows t ++ (r ∷ [])
  pub update-returning :
      {Row : Type 0} (p : Row → Bool) (f : Row → Row) (t : Table Row)
      → Perm (update p f t).0 (map f (filterb p (rows t)))
  pub rows-update :
      {Row : Type 0} (p : Row → Bool) (f : Row → Row) (t : Table Row)
      → rows (update p f t).1 ≡ map_where p f (rows t)
  pub delete-count :
      {Row : Type 0} (p : Row → Bool) (t : Table Row) → (delete p t).0 ≡ length (filterb p (rows t))
  pub rows-delete :
      {Row : Type 0} (p : Row → Bool) (t : Table Row)
      → rows (delete p t).1 ≡ filterb (λ r. not (p r)) (rows t)
  pub unique-rows :
      {Row : Type 0} (eq : Row → Row → Bool) (t : Table Row) → unique eq t ≡ distinct eq (rows t)
