-- ===== src/Seeding.antt =====
-- common/seeding/fake-verified-users.ts: the sample accounts of the development script. The random
-- draws are arguments, a loop that draws until a value is free searches a list of draws, and the
-- clock's zone is Rwanda's, where midnight UTC falls on the same day.
pub mod Search
pub mod Script
pub mod Rows
pub mod Again
use Prim.Native.Char.{code}
use Prim.Native.String
use gracon_user_auth_service.Common.{
  ℕ, zero, suc, ◌+◌, ◌-◌, ◌*◌, ◌/◌, ◌%◌, ◌≤◌, ◌<◌, ◌≡◌, ◌≢◌, refl, sym, ap, subst, ◌∙◌, ◌⊎◌, ◌↔◌,
  inl, inr, arith, Bool, true, false, not, ◌&&◌, ◌||◌, Option, none, some, List, [], ◌∷◌, ◌++◌, map,
  String, str_eq, str_eq_iff, ltb, leb, ◌==◌, if◌then◌else◌, truthy, is_some, or_else, substring,
  ◌⁺⁺◌, trim, decimal, Bool-cases, Option-cases, All, length, find, select, update_where, take,
  drop, contains, ==_iff, ==_refl, &&-eq-true,
}
use gracon_user_auth_service.Users.Registration.{generate_pid}

-- `FakeVerifiedUserInput`; the date of birth is its year, month and day.
pub record FakeVerifiedUserInput : Type 0 where
  pub email : String
  pub phone_number : String
  pub nid : String
  pub pid : String
  pub sur_name : String
  pub post_names : String
  pub sex : String
  pub birth_year : ℕ
  pub birth_month : ℕ
  pub birth_day : ℕ

abbrev pub fake_verified_user_password : String
fake_verified_user_password = "Password!7"

abbrev pub rwandan_surnames : List String
rwandan_surnames =
    "HABIMANA" ∷ "MUGISHA" ∷ "UWASE" ∷ "NIYONZIMA" ∷ "IRADUKUNDA" ∷ "MUKAMANA" ∷ "KAYITESI"
    ∷ "NDAYISABA" ∷ "BIZIMANA" ∷ "TUYISHIME" ∷ "UWIMANA" ∷ "HAKIZIMANA" ∷ "NSENGIYUMVA"
    ∷ "MUREKATETE" ∷ "ISHIMWE" ∷ "MUTUYIMANA" ∷ "NIYONKURU" ∷ "MUKESHIMANA" ∷ "GASANA"
    ∷ "RUTAYISIRE" ∷ []

abbrev pub given_names : List String
given_names =
    "Daniel" ∷ "Salomon" ∷ "Aline" ∷ "Jean" ∷ "Grace" ∷ "Amina" ∷ "Yusuf" ∷ "Emmanuel" ∷ "Claudine"
    ∷ "Patrick" ∷ "Immaculee" ∷ "Olivier" ∷ "Nadine" ∷ "Theogene" ∷ "Fatuma" ∷ "Eric" ∷ "Alice"
    ∷ "Moses" ∷ "Sarah" ∷ "Ange" ∷ []

abbrev rwandan_phone_prefixes : List String
rwandan_phone_prefixes = "+25078" ∷ "+25072" ∷ "+25073" ∷ []

-- The element at an index of one of these lists.
abbrev pub nth : ℕ → List String → String
nth n [] = ""
nth zero (x ∷ xs) = x
nth (suc n) (x ∷ xs) = nth n xs

-- The letter at an index of the alphabet.
unfoldable pub letter_at : ℕ → String → String
letter_at n String.[] = String.[]
letter_at zero (String.◌∷◌ c s) = String.◌∷◌ c String.[]
letter_at (suc n) (String.◌∷◌ c s) = letter_at n s

-- `.toLowerCase().replace(/[^a-z]/g, '')`
unfoldable pub small_letters : String → String
unfolding letter_at
small_letters String.[] = String.[]
small_letters (String.◌∷◌ c s) =
    let rest = small_letters s in
    if leb b'A' (code c) && leb (code c) b'Z'
    then letter_at (code c - b'A') "abcdefghijklmnopqrstuvwxyz" ⁺⁺ rest
    else if leb b'a' (code c) && leb (code c) b'z'
    then String.◌∷◌ c rest
    else rest

-- The addresses that the loop tries, for the numbers that it draws.
abbrev pub numbered : String → List ℕ → List String
numbered base [] = []
numbered base (n ∷ ns) = (base ⁺⁺ decimal n ⁺⁺ "@gmail.com") ∷ numbered base ns

unfoldable pub email_candidates : String → String → List ℕ → List String
unfolding small_letters decimal
email_candidates sur_name given_name draws =
    let base = small_letters (sur_name ⁺⁺ given_name) in
    (base ⁺⁺ "@gmail.com") ∷ numbered base draws

-- The loops: the first candidate that is not reserved, if one comes.
unfoldable pub first_free : List String → List String → Option String
unfolding find
first_free reserved candidates = find (λ s. not (contains s reserved)) candidates

unfoldable pub generate_fake_verified_user_email :
    String → String → List String → List ℕ → Option String
unfolding email_candidates first_free
generate_fake_verified_user_email sur_name given_name existing_emails draws =
    first_free existing_emails (email_candidates sur_name given_name draws)

abbrev digits_text : List ℕ → String
digits_text [] = ""
digits_text (d ∷ ds) = decimal d ⁺⁺ digits_text ds

-- The numbers that the loop tries: the index of a prefix and seven digits each.
unfoldable pub phone_candidates : List (ℕ × List ℕ) → List String
unfolding decimal
phone_candidates [] = []
phone_candidates (d ∷ draws) =
    (nth d.0 rwandan_phone_prefixes ⁺⁺ digits_text (take 7 d.1)) ∷ phone_candidates draws

unfoldable pub generate_fake_verified_user_phone_number :
    List String → List (ℕ × List ℕ) → Option String
unfolding phone_candidates first_free
generate_fake_verified_user_phone_number existing_phones draws =
    first_free existing_phones (phone_candidates draws)

-- `padStart(2, '0')` of a number below 100
abbrev two_digits : ℕ → String
two_digits n = if ltb n 10 then "0" ⁺⁺ decimal n else decimal n

-- The sequence has seven digits for every index below a million.
unfoldable pub generate_fake_verified_user_nid : ℕ → ℕ → ℕ → ℕ → Bool → String
unfolding decimal
generate_fake_verified_user_nid index year month day is_male =
    (if is_male then "1" else "2")
    ⁺⁺ decimal year
    ⁺⁺ two_digits (month + 1)
    ⁺⁺ two_digits day
    ⁺⁺ decimal (9000000 + index)

-- What a row draws.
pub record SeedDraw : Type 0 where
  pub email_draws : List ℕ
  pub phone_draws : List (ℕ × List ℕ)
  pub pid_digits : List ℕ

abbrev pub is_male_at : ℕ → Bool
is_male_at index = index % 2 == 0

unfoldable pub nid_at : ℕ → String
unfolding generate_fake_verified_user_nid
nid_at index =
    generate_fake_verified_user_nid (index + 1) (1975 + index % 28) (index % 12) (index % 27 + 1)
      (is_male_at index)

abbrev pub user_at : ℕ → SeedDraw → String → String → FakeVerifiedUserInput
user_at index draw email phone_number = record {
  email = email;
  phone_number = phone_number;
  nid = nid_at index;
  pid = generate_pid (1975 + index % 28) draw.pid_digits;
  sur_name = nth (index % 20) rwandan_surnames;
  post_names = nth (index * 7 % 20) given_names;
  sex = if is_male_at index then "M" else "F";
  birth_year = 1975 + index % 28;
  birth_month = index % 12;
  birth_day = index % 27 + 1;
}

-- `generateFakeVerifiedUsers`, from an index on, one row for each draw. Both sets grow with each row.
unfoldable pub generate_fake_verified_users :
    ℕ → List SeedDraw → List String → List String → Option (List FakeVerifiedUserInput)
generate_fake_verified_users index [] emails phones = some []
generate_fake_verified_users index (draw ∷ draws) emails phones =
    elim (generate_fake_verified_user_email (nth (index % 20) rwandan_surnames)
      (nth (index * 7 % 20) given_names) emails draw.email_draws) [
        | none ↦ none
        | some email ↦ elim (generate_fake_verified_user_phone_number phones draw.phone_draws) [
          | none ↦ none
          | some phone_number ↦
              elim (generate_fake_verified_users (index + 1) draws (email ∷ emails)
                (phone_number ∷ phones)) [
                  | none ↦ none
                  | some rest ↦ some (user_at index draw email phone_number ∷ rest)
                ]
        ]
      ]
