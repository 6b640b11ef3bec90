-- ===== src/Common/Tables.antt =====
-- Laws of the operations on tables.
use gracon_user_auth_service.Common.Tests.{if◌then◌else◌, Bool-cases}
use gracon_user_auth_service.Common.Lists.{All, find, select, update_where}
use mathlib.Core.Path.{◌≡◌, refl}
use mathlib.Core.Logic.{◌⊎◌, inl, inr}
use mathlib.Core.Bool.{Bool, true, false, not}
use mathlib.Core.Option.{none, some}
use mathlib.Core.List.{List, [], ◌∷◌, ◌++◌}
use native.Mathlib.Omega.{arith}

pub List-cases : {A : Type 0} (xs : List A) → (xs ≡ []) ⊎ ((x : A) × (ys : List A) × (xs ≡ x ∷ ys))
List-cases [] = inl refl
List-cases (x ∷ xs) = inr (x, xs, refl)

module _ {A : Type 0} where
  -- What is found meets the condition.
  pub find_sound : (p : A → Bool) (xs : List A) {x : A} → find p xs ≡ some x → p x ≡ true
  unfolding find
  find_sound p [] h = ground arith
  find_sound p (y ∷ ys) {x} h = ground (arith, find_sound p ys {x = x})

  -- A row that is found has every property of all rows.
  pub All-find :
      (P : A → Type 0) (p : A → Bool) (xs : List A) {x : A} → All P xs → find p xs ≡ some x → P x
  unfolding find
  All-find P p [] a h = ground arith
  All-find P p (y ∷ ys) {x} a h = elim (Bool-cases (p y)) [
    | inl t ↦ let e : y ≡ x = ground arith in rw e at a.0
    | inr f ↦ All-find P p ys a.1 (ground arith)
  ]

  -- A condition that a found row meets finds a row.
  pub find_other :
      (p q : A → Bool) (xs : List A) {x : A}
      → find p xs ≡ some x
      → q x ≡ true
      → (y : A) × (find q xs ≡ some y)
  unfolding find
  find_other p q [] h k = ground arith
  find_other p q (y ∷ ys) {x} h k = elim (Bool-cases (q y)) [
    | inl t ↦ (y, ground arith)
    | inr f ↦ let (z, e) = find_other p q ys {x = x} (ground arith) k in (z, ground arith)
  ]

  -- A search by columns that an update leaves alone finds the same row, updated.
  pub find-update_where :
      (p q : A → Bool) (f : A → A) (xs : List A) {x : A}
      → ((a : A) → q (f a) ≡ q a)
      → find q xs ≡ some x
      → find q (update_where p f xs) ≡ some (if p x then f x else x)
  unfolding find update_where
  find-update_where p q f [] same h = ground arith
  find-update_where p q f (y ∷ ys) {x} same h =
      ground (arith, same y, find-update_where p q f ys {x = x} same)

  pub find-append :
      (p : A → Bool) (xs ys : List A) {x : A} → find p xs ≡ some x → find p (xs ++ ys) ≡ some x
  unfolding find
  find-append p [] ys h = ground arith
  find-append p (y ∷ xs) ys {x} h = ground (arith, find-append p xs ys {x = x})

  pub find-append_none :
      (p : A → Bool) (xs ys : List A) → find p xs ≡ none → find p (xs ++ ys) ≡ find p ys
  unfolding find
  find-append_none p [] ys h = refl
  find-append_none p (y ∷ xs) ys h = ground (arith, find-append_none p xs ys)

  pub All-append : (P : A → Type 0) (xs ys : List A) → All P xs → All P ys → All P (xs ++ ys)
  All-append P [] ys a b = b
  All-append P (x ∷ xs) ys a b = (a.0, All-append P xs ys a.1 b)

  pub All-map : (P Q : A → Type 0) (xs : List A) → ((x : A) → P x → Q x) → All P xs → All Q xs
  All-map P Q [] f a = tt
  All-map P Q (x ∷ xs) f a = (f x a.0, All-map P Q xs f a.1)

  pub All-update_where :
      (P Q : A → Type 0) (p : A → Bool) (f : A → A) (xs : List A)
      → ((x : A) → P x → Q (if p x then f x else x))
      → All P xs
      → All Q (update_where p f xs)
  unfolding update_where
  All-update_where P Q p f [] k a = tt
  All-update_where P Q p f (x ∷ xs) k a = (k x a.0, All-update_where P Q p f xs k a.1)

  -- An update that falsifies its own condition leaves no row that meets it.
  pub select-update_where_none :
      (p : A → Bool) (f : A → A) (xs : List A)
      → ((x : A) → p (f x) ≡ false)
      → select p (update_where p f xs) ≡ []
  unfolding select update_where
  select-update_where_none p f [] k = refl
  select-update_where_none p f (x ∷ xs) k = ground (arith, k x, select-update_where_none p f xs k)

  -- Rows that an update keeps out of reach stay as they are.
  pub select-update_where_other :
      (p q : A → Bool) (f : A → A) (xs : List A)
      → ((x : A) → p x ≡ true → q x ≡ false)
      → ((x : A) → p x ≡ true → q (f x) ≡ false)
      → select q (update_where p f xs) ≡ select q xs
  unfolding select update_where
  select-update_where_other p q f [] k m = refl
  select-update_where_other p q f (x ∷ xs) k m =
      ground (arith, k x, m x, select-update_where_other p q f xs k m)

  pub select-append :
      (p : A → Bool) (xs ys : List A) → select p (xs ++ ys) ≡ select p xs ++ select p ys
  unfolding select
  select-append p [] ys = refl
  select-append p (x ∷ xs) ys = ground (arith, select-append p xs ys)

  -- A row that is added after all others left is the one that is left.
  pub select-append_one :
      (p : A → Bool) (xs : List A) (x : A)
      → select p xs ≡ []
      → p x ≡ true
      → select p (xs ++ x ∷ []) ≡ x ∷ []
  unfolding select
  select-append_one p [] x h t = ground arith
  select-append_one p (y ∷ ys) x h t = ground (arith, select-append_one p ys x)

  -- A condition that no row meets selects none.
  pub select_never : (p : A → Bool) (xs : List A) → ((x : A) → p x ≡ false) → select p xs ≡ []
  unfolding select
  select_never p [] never = refl
  select_never p (x ∷ xs) never = ground (arith, never x, select_never p xs never)

  -- What is not found is not selected.
  pub select_of_missing : (p : A → Bool) (xs : List A) → find p xs ≡ none → select p xs ≡ []
  unfolding find select
  select_of_missing p [] h = refl
  select_of_missing p (y ∷ ys) h = ground (arith, select_of_missing p ys)

  -- A row that does not meet the condition is not counted.
  pub select-append_rejected :
      (p : A → Bool) (xs : List A) (x : A) → p x ≡ false → select p (xs ++ x ∷ []) ≡ select p xs
  unfolding select
  select-append_rejected p [] x h = ground arith
  select-append_rejected p (y ∷ ys) x h = ground (arith, select-append_rejected p ys x h)

  -- Updates that do not touch a column leave the searches by it.
  pub find_missing-update_where :
      (p q : A → Bool) (f : A → A) (xs : List A)
      → ((a : A) → q (f a) ≡ q a)
      → find q xs ≡ none
      → find q (update_where p f xs) ≡ none
  unfolding find update_where
  find_missing-update_where p q f [] same h = ground arith
  find_missing-update_where p q f (y ∷ ys) same h =
      ground (arith, same y, find_missing-update_where p q f ys same)

  -- An update, and a removal, of what is not there.
  pub update_where_missing :
      (p : A → Bool) (f : A → A) (xs : List A) → find p xs ≡ none → update_where p f xs ≡ xs
  unfolding find update_where
  update_where_missing p f [] h = refl
  update_where_missing p f (y ∷ ys) h = ground (arith, update_where_missing p f ys)

  pub remove_missing :
      (p : A → Bool) (xs : List A) → find p xs ≡ none → select (λ x. not (p x)) xs ≡ xs
  unfolding find select
  remove_missing p [] h = refl
  remove_missing p (y ∷ ys) h = ground (arith, remove_missing p ys)

  pub find_missing-select :
      (p q : A → Bool) (xs : List A) → find p xs ≡ none → find p (select q xs) ≡ none
  unfolding find select
  find_missing-select p q [] h = refl
  find_missing-select p q (y ∷ ys) h = ground (arith, find_missing-select p q ys)

  pub All-select : (P : A → Type 0) (p : A → Bool) (xs : List A) → All P xs → All P (select p xs)
  unfolding select
  All-select P p [] a = tt
  All-select P p (x ∷ xs) a = elim (Bool-cases (p x)) [
    | inl t ↦ rw t (a.0, All-select P p xs a.1)
    | inr f ↦ rw f (All-select P p xs a.1)
  ]
