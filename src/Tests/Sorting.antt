-- ===== src/Tests/Sorting.antt =====
-- Sorting by a column, for the client of the fixture.
use gracon_user_auth_service.Common.{
  ℕ, suc, ◌+◌, ◌≤◌, ◌≡◌, refl, subst, inl, inr, arith, List, [], ◌∷◌, leb, if◌then◌else◌,
  Bool-cases, All, length,
}
use gracon_user_auth_service.Common.Tables.{All-map}

-- Insertion sort, by a column.
unfoldable pub memory_insert : (Row : Type 0) → (Row → ℕ) → Row → List Row → List Row
memory_insert Row key r [] = r ∷ []
memory_insert Row key r (x ∷ xs) =
    if leb (key r) (key x) then r ∷ x ∷ xs else x ∷ memory_insert Row key r xs

unfoldable pub memory_sort : (Row : Type 0) → (Row → ℕ) → List Row → List Row
unfolding memory_insert
memory_sort Row key [] = []
memory_sort Row key (x ∷ xs) = memory_insert Row key x (memory_sort Row key xs)

memory_reverse : (Row : Type 0) → List Row → List Row → List Row
memory_reverse Row [] acc = acc
memory_reverse Row (x ∷ xs) acc = memory_reverse Row xs (x ∷ acc)

unfoldable pub memory_sort_desc : (Row : Type 0) → (Row → ℕ) → List Row → List Row
unfolding memory_reverse memory_sort
memory_sort_desc Row key rows = memory_reverse Row (memory_sort Row key rows) []

length-memory_insert :
    (Row : Type 0) (key : Row → ℕ) (r : Row) (xs : List Row)
    → length (memory_insert Row key r xs) ≡ suc (length xs)
unfolding memory_insert
length-memory_insert Row key r [] = refl
length-memory_insert Row key r (x ∷ xs) = ground (arith, length-memory_insert Row key r xs)

pub length-memory_sort :
    (Row : Type 0) (key : Row → ℕ) (rows : List Row)
    → length (memory_sort Row key rows) ≡ length rows
unfolding memory_sort
length-memory_sort Row key [] = refl
length-memory_sort Row key (x ∷ xs) =
    ground (
      arith,
      length-memory_insert Row key x (memory_sort Row key xs),
      length-memory_sort Row key xs,
    )

All-memory_insert :
    (Row : Type 0) (key : Row → ℕ) (P : Row → Type 0) (r : Row) (xs : List Row)
    → P r
    → All P xs
    → All P (memory_insert Row key r xs)
unfolding memory_insert
All-memory_insert Row key P r [] p a = (p, tt)
All-memory_insert Row key P r (x ∷ xs) p a = elim (Bool-cases (leb (key r) (key x))) [
  | inl before ↦ rw before (p, (a.0, a.1))
  | inr after ↦ rw after (a.0, All-memory_insert Row key P r xs p a.1)
]

pub All-memory_sort :
    (Row : Type 0) (key : Row → ℕ) (P : Row → Type 0) (rows : List Row)
    → All P rows
    → All P (memory_sort Row key rows)
unfolding memory_sort
All-memory_sort Row key P [] a = tt
All-memory_sort Row key P (x ∷ xs) a =
    All-memory_insert Row key P x (memory_sort Row key xs) a.0 (All-memory_sort Row key P xs a.1)

pub memory_sort_member :
    (Row : Type 0) (key : Row → ℕ) (rows : List Row) (first : Row) (rest : List Row)
    (P : Row → Type 0)
    → memory_sort Row key rows ≡ first ∷ rest
    → All P rows
    → P first
memory_sort_member Row key rows first rest P e a =
    let k : All P (first ∷ rest) = rw e at (All-memory_sort Row key P rows a) in k.0

least_step :
    (Row : Type 0) (key : Row → ℕ) (x : Row) (xs s : List Row) (first : Row) (rest : List Row)
    → length s ≡ length xs
    → ((y : Row) (ys : List Row) → s ≡ y ∷ ys → All (λ r. key y ≤ key r) xs)
    → memory_insert Row key x s ≡ first ∷ rest
    → All (λ r. key first ≤ key r) (x ∷ xs)
unfolding memory_insert
least_step Row key x [] [] first rest n ih e = ground arith
least_step Row key x (z ∷ xs) [] first rest n ih e = ground arith
least_step Row key x xs (y ∷ ys) first rest n ih e =
    let below = ih y ys refl in
    elim (Bool-cases (leb (key x) (key y))) [
      | inl before ↦
          let same : x ≡ first = ground arith in
          subst (λ z. All (λ r. key z ≤ key r) (x ∷ xs)) same
            (
              ground arith,
              All-map (λ r. key y ≤ key r) (λ r. key x ≤ key r) xs (λ r h. ground arith) below,
            )
      | inr after ↦
          let same : y ≡ first = ground arith in
          subst (λ z. All (λ r. key z ≤ key r) (x ∷ xs)) same (ground arith, below)
    ]

pub memory_sort_least :
    (Row : Type 0) (key : Row → ℕ) (rows : List Row) (first : Row) (rest : List Row)
    → memory_sort Row key rows ≡ first ∷ rest
    → All (λ r. key first ≤ key r) rows
unfolding memory_sort
memory_sort_least Row key [] first rest e = tt
memory_sort_least Row key (x ∷ xs) first rest e =
    least_step Row key x xs (memory_sort Row key xs) first rest (length-memory_sort Row key xs)
      (λ y ys h. memory_sort_least Row key xs y ys h) e

length-memory_reverse :
    (Row : Type 0) (xs acc : List Row) → length (memory_reverse Row xs acc) ≡ length xs + length acc
unfolding memory_reverse
length-memory_reverse Row [] acc = omega arith
length-memory_reverse Row (x ∷ xs) acc = omega (arith, length-memory_reverse Row xs (x ∷ acc))

pub length-memory_sort_desc :
    (Row : Type 0) (key : Row → ℕ) (rows : List Row)
    → length (memory_sort_desc Row key rows) ≡ length rows
unfolding memory_sort_desc
length-memory_sort_desc Row key rows = omega (
  arith,
  length-memory_reverse Row (memory_sort Row key rows) [],
  length-memory_sort Row key rows,
)

All-memory_reverse :
    (Row : Type 0) (P : Row → Type 0) (xs acc : List Row)
    → All P xs
    → All P acc
    → All P (memory_reverse Row xs acc)
unfolding memory_reverse
All-memory_reverse Row P [] acc a b = b
All-memory_reverse Row P (x ∷ xs) acc a b = All-memory_reverse Row P xs (x ∷ acc) a.1 (a.0, b)

pub All-memory_sort_desc :
    (Row : Type 0) (key : Row → ℕ) (P : Row → Type 0) (rows : List Row)
    → All P rows
    → All P (memory_sort_desc Row key rows)
unfolding memory_sort_desc
All-memory_sort_desc Row key P rows a =
    All-memory_reverse Row P (memory_sort Row key rows) [] (All-memory_sort Row key P rows a) tt
