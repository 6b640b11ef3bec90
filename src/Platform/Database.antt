-- ===== src/Platform/Database.antt =====
-- The database client (Prisma, which is not part of the repository) as an interface: its operations
-- on a table, with the documented behaviour that the services rely on. A table is the list of its
-- rows. `find_first` stands for `findUnique` too, and `create` is given the id by the database.
use gracon_user_auth_service.Common.{
  ℕ, String, Bool, not, Option, some, List, [], ◌∷◌, ◌++◌, ◌≡◌, length, find, select, update_where,
  All, ◌≤◌, ◌⊎◌, none,
}

-- The answer to a write that may be refused, with the error's code.
pub data Reply (A : Type 0) : Type 0 where
  accepted : A → Reply A
  rejected : String → Reply A

pub record Client : Type 1 where
  pub find_first : (Row : Type 0) → (Row → Bool) → List Row → Option Row
  pub find_many : (Row : Type 0) → (Row → Bool) → List Row → List Row
  pub count : (Row : Type 0) → (Row → Bool) → List Row → ℕ
  pub create : (Row : Type 0) → (ℕ → Row) → List Row → Reply (Row × List Row)
  pub update : (Row : Type 0) → (Row → Bool) → (Row → Row) → List Row → List Row
  pub update_many : (Row : Type 0) → (Row → Bool) → (Row → Row) → List Row → List Row
  -- `upsert`: the row of the condition is changed, or one is created.
  pub upsert :
      (Row : Type 0) → (Row → Bool) → (ℕ → Row) → (Row → Row) → List Row → Reply (Row × List Row)
  pub delete_many : (Row : Type 0) → (Row → Bool) → List Row → List Row
  pub transaction : (A : Type 0) → Reply A → Reply A
  -- `orderBy` a column, ascending or descending.
  pub order_by : (Row : Type 0) → (Row → ℕ) → List Row → List Row
  pub order_by_desc : (Row : Type 0) → (Row → ℕ) → List Row → List Row
  pub find_first_lem :
      (Row : Type 0) (p : Row → Bool) (rows : List Row) → find_first Row p rows ≡ find p rows
  pub find_many_lem :
      (Row : Type 0) (p : Row → Bool) (rows : List Row) → find_many Row p rows ≡ select p rows
  pub count_lem :
      (Row : Type 0) (p : Row → Bool) (rows : List Row) → count Row p rows ≡ length (select p rows)
  -- A write that is accepted adds one row, under an id that the database chooses.
  pub create_lem :
      (Row : Type 0) (make : ℕ → Row) (rows : List Row) (row : Row) (rows' : List Row)
      → create Row make rows ≡ accepted (row, rows')
      → (id : ℕ) × (row ≡ make id) × (rows' ≡ rows ++ row ∷ [])
  -- An update of one record that is there changes the records of its condition.
  pub update_lem :
      (Row : Type 0) (p : Row → Bool) (f : Row → Row) (rows : List Row) (row : Row)
      → find p rows ≡ some row
      → update Row p f rows ≡ update_where p f rows
  pub update_many_lem :
      (Row : Type 0) (p : Row → Bool) (f : Row → Row) (rows : List Row)
      → update_many Row p f rows ≡ update_where p f rows
  pub upsert_lem :
      (Row : Type 0) (p : Row → Bool) (make : ℕ → Row) (f : Row → Row) (rows : List Row) (row : Row)
      (rows' : List Row)
      → upsert Row p make f rows ≡ accepted (row, rows')
      → ((old : Row) × (find p rows ≡ some old) × (row ≡ f old) × (rows' ≡ update_where p f rows))
        ⊎ ((find p rows ≡ none) × ((id : ℕ) × (row ≡ make id) × (rows' ≡ rows ++ make id ∷ [])))
  pub delete_many_lem :
      (Row : Type 0) (p : Row → Bool) (rows : List Row)
      → delete_many Row p rows ≡ select (λ r. not (p r)) rows
  -- A transaction that commits yields what its body computed.
  pub transaction_lem :
      (A : Type 0) (body : Reply A) (a : A) → transaction A body ≡ accepted a → body ≡ accepted a
  -- Sorting keeps the number of rows, and puts first one of them whose column is least.
  pub order_by_length :
      (Row : Type 0) (key : Row → ℕ) (rows : List Row)
      → length (order_by Row key rows) ≡ length rows
  pub order_by_least :
      (Row : Type 0) (key : Row → ℕ) (rows : List Row) (first : Row) (rest : List Row)
      → order_by Row key rows ≡ first ∷ rest
      → All (λ r. key first ≤ key r) rows
  pub order_by_member :
      (Row : Type 0) (key : Row → ℕ) (rows : List Row) (first : Row) (rest : List Row)
      (P : Row → Type 0)
      → order_by Row key rows ≡ first ∷ rest
      → All P rows
      → P first
  -- What holds of all rows holds of all sorted ones.
  pub order_by_all :
      (Row : Type 0) (key : Row → ℕ) (P : Row → Type 0) (rows : List Row)
      → All P rows
      → All P (order_by Row key rows)
  pub order_by_desc_all :
      (Row : Type 0) (key : Row → ℕ) (P : Row → Type 0) (rows : List Row)
      → All P rows
      → All P (order_by_desc Row key rows)
  pub order_by_desc_length :
      (Row : Type 0) (key : Row → ℕ) (rows : List Row)
      → length (order_by_desc Row key rows) ≡ length rows
