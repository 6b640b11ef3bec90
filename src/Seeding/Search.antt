-- ===== src/Seeding/Search.antt =====
-- common/seeding/fake-verified-users.ts: the loops that draw until a value is free come to an end, and
-- the generated accounts share no address and no number.
use gracon_user_auth_service.Common.{
  ℕ, suc, ◌+◌, ◌*◌, ◌%◌, ◌≤◌, ◌<◌, ◌≡◌, refl, ap, subst, inl, inr, arith, true, false, not, none,
  some, List, [], ◌∷◌, String, str_eq, str_eq_iff, if◌then◌else◌, Bool-cases, Option-cases, All,
  length, find, contains,
}
use gracon_user_auth_service.Common.Tables.{find_sound}
use gracon_user_auth_service.Seeding.{
  FakeVerifiedUserInput, SeedDraw, first_free, email_candidates, phone_candidates, numbered,
  generate_fake_verified_user_email, generate_fake_verified_user_phone_number,
  generate_fake_verified_users, nid_at, user_at, nth, rwandan_surnames, given_names,
}

-- No text occurs twice.
abbrev pub Distinct : List String → Type 0
Distinct [] = Unit
Distinct (x ∷ xs) = (contains x xs ≡ false) × Distinct xs

without_one : String → List String → List String
without_one s [] = []
without_one s (x ∷ xs) = let rest = without_one s xs in if str_eq s x then xs else x ∷ rest

length-without_one :
    (s : String) (ys : List String)
    → contains s ys ≡ true
    → length ys ≡ suc (length (without_one s ys))
unfolding without_one
length-without_one s [] h = absurd (ground arith)
length-without_one s (y ∷ ys) h = ground (arith, length-without_one s ys)

contains-without_one :
    (s t : String) (ys : List String)
    → str_eq s t ≡ false
    → contains t ys ≡ true
    → contains t (without_one s ys) ≡ true
unfolding without_one
contains-without_one s t [] apart h = h
contains-without_one s t (y ∷ ys) apart h =
    ground
      (arith, contains-without_one s t ys apart, str_eq_iff s y, str_eq_iff t y, str_eq_iff s t)

All-without_one :
    (s : String) (xs ys : List String)
    → contains s xs ≡ false
    → All (λ x. contains x ys ≡ true) xs
    → All (λ x. contains x (without_one s ys) ≡ true) xs
All-without_one s [] ys fresh a = tt
All-without_one s (x ∷ xs) ys fresh a =
    (contains-without_one s x ys (ground arith) a.0, All-without_one s xs ys (ground arith) a.1)

-- Different texts of a list are no more than the texts of the list.
length-Distinct :
    (xs ys : List String) → Distinct xs → All (λ x. contains x ys ≡ true) xs → length xs ≤ length ys
length-Distinct [] ys d a = omega arith
length-Distinct (x ∷ xs) ys d a =
    let rest = length-Distinct xs (without_one x ys) d.1 (All-without_one x xs ys d.0 a.1) in
    omega (arith, length-without_one x ys a.0)

All-taken :
    (reserved candidates : List String)
    → first_free reserved candidates ≡ none
    → All (λ x. contains x reserved ≡ true) candidates
unfolding first_free find
All-taken reserved [] h = tt
All-taken reserved (x ∷ xs) h = elim (Bool-cases (contains x reserved)) [
  | inl t ↦ (t, All-taken reserved xs (ground arith))
  | inr f ↦ absurd (ground arith)
]

pub first_free_sound :
    (reserved candidates : List String) {s : String}
    → first_free reserved candidates ≡ some s
    → contains s reserved ≡ false
unfolding first_free
first_free_sound reserved candidates {s} h =
    let free = find_sound (λ x. not (contains x reserved)) candidates {x = s} h in ground arith

pub first_free_total :
    (reserved candidates : List String)
    → Distinct candidates
    → length reserved < length candidates
    → (s : String) × (first_free reserved candidates ≡ some s) × (contains s reserved ≡ false)
first_free_total reserved candidates d more = elim (Option-cases (first_free reserved candidates)) [
  | inl e ↦
      let few = length-Distinct candidates reserved d (All-taken reserved candidates e) in
      absurd (omega arith)
  | inr (s, e) ↦ (s, e, first_free_sound reserved candidates e)
]

length-phone_candidates :
    (draws : List (ℕ × List ℕ)) → length (phone_candidates draws) ≡ length draws
unfolding phone_candidates
length-phone_candidates [] = refl
length-phone_candidates (d ∷ draws) = ap suc (length-phone_candidates draws)

length-numbered : (base : String) (ns : List ℕ) → length (numbered base ns) ≡ length ns
length-numbered base [] = refl
length-numbered base (n ∷ ns) = ap suc (length-numbered base ns)

-- The two loops end: if the draws give different values, as many as are reserved for an address and
-- one more than that for a number are enough, and the value found is not reserved.
pub generators_total :
    (sur_name given_name : String) (emails phones : List String) (draws : List ℕ)
    (phone_draws : List (ℕ × List ℕ))
    → Distinct (email_candidates sur_name given_name draws)
    → length emails ≤ length draws
    → Distinct (phone_candidates phone_draws)
    → length phones < length phone_draws
    → ((email : String) × (generate_fake_verified_user_email sur_name given_name emails draws
          ≡ some email)
        × (contains email emails ≡ false))
      × ((phone : String) × (generate_fake_verified_user_phone_number phones phone_draws
            ≡ some phone)
          × (contains phone phones ≡ false))
unfolding generate_fake_verified_user_email generate_fake_verified_user_phone_number
    email_candidates
generators_total sur_name given_name emails phones draws phone_draws d1 n1 d2 n2 = (
  first_free_total emails (email_candidates sur_name given_name draws) d1
      (omega (arith, length-numbered _ draws)),
  first_free_total phones (phone_candidates phone_draws) d2
      (omega (arith, length-phone_candidates phone_draws)),
)

email_free :
    (sur_name given_name : String) (emails : List String) (draws : List ℕ) {email : String}
    → generate_fake_verified_user_email sur_name given_name emails draws ≡ some email
    → contains email emails ≡ false
unfolding generate_fake_verified_user_email
email_free sur_name given_name emails draws h =
    first_free_sound emails (email_candidates sur_name given_name draws) h

phone_free :
    (phones : List String) (draws : List (ℕ × List ℕ)) {phone : String}
    → generate_fake_verified_user_phone_number phones draws ≡ some phone
    → contains phone phones ≡ false
unfolding generate_fake_verified_user_phone_number
phone_free phones draws h = first_free_sound phones (phone_candidates draws) h

-- Rows from an index on, with values that are not reserved and not used before.
abbrev pub AreFresh : ℕ → List String → List String → List FakeVerifiedUserInput → Type 0
AreFresh index emails phones [] = Unit
AreFresh index emails phones (u ∷ us) =
    (contains u.email emails ≡ false)
    × (contains u.phone_number phones ≡ false)
    × (u.nid ≡ nid_at index)
    × AreFresh (index + 1) (u.email ∷ emails) (u.phone_number ∷ phones) us

-- The generated rows are as many as asked for; no address and no phone number is reserved or occurs
-- twice; and the identity numbers depend on the index alone.
pub generate_fake_verified_users-AreFresh :
    (index : ℕ) (draws : List SeedDraw) (emails phones : List String)
    {us : List FakeVerifiedUserInput}
    → generate_fake_verified_users index draws emails phones ≡ some us
    → (length us ≡ length draws) × AreFresh index emails phones us
unfolding generate_fake_verified_users
generate_fake_verified_users-AreFresh index [] emails phones {us} h =
    subst (λ z. (length z ≡ 0) × AreFresh index emails phones z)
      (let same : [] ≡ us = ground arith in same) (refl, tt)
generate_fake_verified_users-AreFresh index (d ∷ ds) emails phones {us} h =
    let sur = nth (index % 20) rwandan_surnames in
    let giv = nth (index * 7 % 20) given_names in
    elim (Option-cases (generate_fake_verified_user_email sur giv emails d.email_draws)) [
      | inl e ↦ absurd (ground arith)
      | inr (email, e) ↦
          elim (Option-cases (generate_fake_verified_user_phone_number phones d.phone_draws)) [
            | inl k ↦ absurd (ground arith)
            | inr (phone, k) ↦
                elim (Option-cases
                  (generate_fake_verified_users (index + 1) ds (email ∷ emails) (phone ∷ phones))) [
                    | inl m ↦ absurd (ground arith)
                    | inr (rest, m) ↦
                        let (long, fresh) =
                          generate_fake_verified_users-AreFresh (index + 1) ds (email ∷ emails)
                            (phone ∷ phones) {us = rest} m in
                        let same : user_at index d email phone ∷ rest ≡ us = ground arith in
                        subst (λ z. (length z ≡ suc (length ds)) × AreFresh index emails phones z)
                          same
                          (
                            ap suc long,
                            (
                              email_free sur giv emails d.email_draws e,
                              phone_free phones d.phone_draws k,
                              refl,
                              fresh,
                            ),
                          )
                  ]
          ]
    ]
