-- ===== src/Common/Counting.antt =====
-- How many rows meet a condition, and how the conditions compare.
use gracon_user_auth_service.Common.{
  ◌+◌, ◌≤◌, ◌≡◌, refl, inl, inr, arith, Bool, true, List, [], ◌∷◌, ◌++◌, Bool-cases, All, length,
  select,
}

module _ {A : Type 0} where
  pub All-select : (p : A → Bool) (xs : List A) → All (λ x. p x ≡ true) (select p xs)
  unfolding select
  All-select p [] = tt
  All-select p (x ∷ xs) = elim (Bool-cases (p x)) [
    | inl yes_p ↦ rw yes_p (yes_p, All-select p xs)
    | inr no_p ↦ rw no_p (All-select p xs)
  ]

  -- A stronger condition is met less often.
  pub count_mono :
      (p q : A → Bool) (xs : List A)
      → ((x : A) → q x ≡ true → p x ≡ true)
      → length (select q xs) ≤ length (select p xs)
  unfolding select
  count_mono p q [] k = omega arith
  count_mono p q (x ∷ xs) k = ground (arith, k x, count_mono p q xs k)

  -- If it is met as often, every row of the weaker condition meets it.
  pub All-of_count :
      (p q : A → Bool) (xs : List A)
      → ((x : A) → q x ≡ true → p x ≡ true)
      → length (select p xs) ≤ length (select q xs)
      → All (λ x. q x ≡ true) (select p xs)
  unfolding select
  All-of_count p q [] k h = tt
  All-of_count p q (x ∷ xs) k h = elim (Bool-cases (p x)) [
    | inl yes_p ↦ rw yes_p (
      ground (arith, k x, count_mono p q xs k),
      All-of_count p q xs k (ground (arith, k x, count_mono p q xs k)),
    )
    | inr no_p ↦ rw no_p (All-of_count p q xs k (ground (arith, k x, count_mono p q xs k)))
  ]

  -- And conversely.
  pub count_of_All :
      (p q : A → Bool) (xs : List A)
      → ((x : A) → q x ≡ true → p x ≡ true)
      → All (λ x. q x ≡ true) (select p xs)
      → length (select q xs) ≡ length (select p xs)
  unfolding select
  count_of_All p q [] k a = refl
  count_of_All p q (x ∷ xs) k a = elim (Bool-cases (p x)) [
    | inl yes_p ↦
        let b : All (λ x. q x ≡ true) (x ∷ select p xs) = rw yes_p at a in
        ground (arith, count_of_All p q xs k b.1, b.0)
    | inr no_p ↦
        let b : All (λ x. q x ≡ true) (select p xs) = rw no_p at a in
        ground (arith, k x, count_of_All p q xs k b)
  ]

  pub count-append_one :
      (p : A → Bool) (xs : List A) (x : A)
      → length (select p (xs ++ x ∷ [])) ≤ length (select p xs) + 1
  unfolding select
  count-append_one p [] x = ground arith
  count-append_one p (y ∷ ys) x = ground (arith, count-append_one p ys x)

  pub All-both :
      (P Q R : A → Type 0) (xs : List A)
      → ((x : A) → P x → Q x → R x)
      → All P xs
      → All Q xs
      → All R xs
  All-both P Q R [] k a b = tt
  All-both P Q R (x ∷ xs) k a b = (k x a.0 b.0, All-both P Q R xs k a.1 b.1)
