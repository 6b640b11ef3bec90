-- ===== src/Tests/SeedCases.antt =====
-- The seeding script on an empty database, and again.
use gracon_user_auth_service.Common.{
  ℕ, zero, suc, ◌+◌, ◌*◌, ◌/◌, ◌%◌, ◌≡◌, refl, arith, Bool, true, false, not, ◌&&◌, none, some,
  List, [], ◌∷◌, ◌++◌, map, String, codes, contains,
}
use gracon_user_auth_service.Platform.{World, ok}
use gracon_user_auth_service.Citizen.{is_nid}
use gracon_user_auth_service.Users.Registration.{generate_random_digits}
use gracon_user_auth_service.Seeding.{
  FakeVerifiedUserInput, SeedDraw, letter_at, small_letters, email_candidates, first_free,
  generate_fake_verified_user_email, phone_candidates, generate_fake_verified_user_phone_number,
  generate_fake_verified_user_nid, nid_at, generate_fake_verified_users,
}
use gracon_user_auth_service.Seeding.Search.{generators_total}
use gracon_user_auth_service.Seeding.Script.{
  user_count, SeedEnvironment, enforce_seed_safety_gate, FakeVerifiedUserSeedResult, ScriptDraw,
  create_verified_user, seed_rows, write_seed, seed_verified_users,
}
use gracon_user_auth_service.Seeding.Again.{seed_verified_users_again}
use gracon_user_auth_service.Tests.Fixture.{test_env, fixture, world}

seeding : Unit {0}
unfolding generate_random_digits letter_at small_letters email_candidates first_free
    generate_fake_verified_user_email phone_candidates generate_fake_verified_user_phone_number
    generate_fake_verified_user_nid nid_at generate_fake_verified_users enforce_seed_safety_gate
    create_verified_user seed_rows write_seed seed_verified_users is_nid codes fixture
seeding = tt

generators_total_example :
    ((email : String) × (generate_fake_verified_user_email "UWASE" "Aline"
          ("uwasealine@gmail.com" ∷ [])
          (417 ∷ [])
        ≡ some email)
      × (contains email ("uwasealine@gmail.com" ∷ []) ≡ false))
    × ((phone : String) × (generate_fake_verified_user_phone_number []
            ((0, 1 ∷ 2 ∷ 3 ∷ 4 ∷ 5 ∷ 6 ∷ 7 ∷ []) ∷ [])
          ≡ some phone)
        × (contains phone [] ≡ false))
unfolding seeding
generators_total_example =
    generators_total "UWASE" "Aline" ("uwasealine@gmail.com" ∷ []) [] (417 ∷ [])
      ((0, 1 ∷ 2 ∷ 3 ∷ 4 ∷ 5 ∷ 6 ∷ 7 ∷ []) ∷ []) (refl, (refl, tt)) (omega arith) (refl, tt)
      (omega arith)

upto : ℕ → List ℕ
upto zero = []
upto (suc n) = upto n ++ n ∷ []

-- Seven digits of a number below a thousand, the last first.
abbrev digits_of : ℕ → List ℕ
digits_of n = n % 10 ∷ n / 10 % 10 ∷ n / 100 % 10 ∷ 0 ∷ 0 ∷ 0 ∷ 0 ∷ []

abbrev row_draw : ℕ → SeedDraw
row_draw n = record {
  email_draws = (1000 + n) ∷ (2000 + n) ∷ [];
  phone_draws = (0, digits_of n) ∷ (1, digits_of n) ∷ [];
  pid_digits = digits_of n;
}

nids : List ℕ → List String
nids [] = []
nids (n ∷ ns) = nid_at n ∷ nids ns

all_nids : List String → Bool
all_nids [] = true
all_nids (s ∷ ss) = is_nid s && all_nids ss

no_two_equal : List String → Bool
no_two_equal [] = true
no_two_equal (s ∷ ss) = not (contains s ss) && no_two_equal ss

-- The identity numbers of a run have 16 digits and differ.
numbers_fit : (all_nids (nids (upto user_count)) && no_two_equal (nids (upto user_count))) ≡ true
unfolding seeding upto nids all_nids no_two_equal
numbers_fit = refl

draws : ScriptDraw
draws = record {
  rows = map row_draw (upto user_count);
  nid_vector = λ n. n;
  pid_vector = λ n. n;
  salt = 1;
}

abbrev allowed : SeedEnvironment
allowed = record {
  allowed = some "true";
  app_env = some "development";
  production_allowed = none;
  database_url = some "postgresql://";
}

abbrev birth : FakeVerifiedUserInput → ℕ
birth u = (u.birth_year * 12 + u.birth_month) * 31 + u.birth_day

abbrev seeded : World
seeded = (seed_verified_users test_env birth allowed draws 5000 world).1

abbrev hundred : FakeVerifiedUserSeedResult
hundred = record { created = 100; skipped = 0 }

seed_runs : seed_verified_users test_env birth allowed draws 5000 world ≡ (ok hundred, seeded)
unfolding seeding upto draws
seed_runs = refl

abbrev again : World
again = (seed_verified_users test_env birth allowed draws 9000 seeded).1

abbrev none_created : FakeVerifiedUserSeedResult
none_created = record { created = 0; skipped = 100 }

again_runs : seed_verified_users test_env birth allowed draws 9000 seeded ≡ (ok none_created, again)
unfolding seeding upto draws
again_runs = refl

seed_verified_users_again_example :
    (100 + 0 ≡ user_count)
    × (none_created ≡ record { created = 0; skipped = user_count })
    × (again ≡ seeded)
seed_verified_users_again_example =
    seed_verified_users_again test_env birth allowed allowed draws draws 5000 9000 world seeded
      again hundred none_created seed_runs again_runs
