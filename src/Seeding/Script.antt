-- ===== src/Seeding/Script.antt =====
-- prisma/seed-verified-users.ts: the script that writes the sample accounts, behind its gate.
use gracon_user_auth_service.Common.{
  ℕ, ◌+◌, Bool, true, false, not, ◌&&◌, Option, none, some, List, [], ◌∷◌, String, str_eq, ◌==◌,
  if◌then◌else◌, truthy, is_some, or_else, length, take,
}
use gracon_user_auth_service.Platform.{
  nid, User, CitizenIdentity, PlatformId, Reply, accepted, rejected, and_then, World, Exception,
  prisma, crash, Outcome, ok, throws, Handler, Env,
}
use gracon_user_auth_service.Users.Registration.Register.{same_identity}
use gracon_user_auth_service.Seeding.{
  FakeVerifiedUserInput, SeedDraw, fake_verified_user_password, generate_fake_verified_users,
}

abbrev pub user_count : ℕ
user_count = 100

-- The variables of the script's environment.
pub record SeedEnvironment : Type 0 where
  pub allowed : Option String
  pub app_env : Option String
  pub production_allowed : Option String
  pub database_url : Option String

abbrev is_text : Option String → String → Bool
is_text none s = false
is_text (some t) s = str_eq t s

abbrev refuses : Exception
refuses = crash "Refusing to seed fake users."

-- `enforceSeedSafetyGate`; an exit of the process is a thrown error here.
unfoldable pub enforce_seed_safety_gate : SeedEnvironment → Outcome (Unit {0})
enforce_seed_safety_gate e =
    if not (is_text e.allowed "true")
    then throws refuses
    else if is_text e.app_env "production" && not (is_text e.production_allowed "true")
    then throws refuses
    else ok tt

pub record FakeVerifiedUserSeedResult : Type 0 where
  pub created : ℕ
  pub skipped : ℕ

-- The emails and the phone numbers of the accounts, without the empty ones.
abbrev pub emails_of : List User → List String
emails_of [] = []
emails_of (u ∷ us) = u.email ∷ emails_of us

abbrev pub phones_of : List User → List String
phones_of [] = []
phones_of (u ∷ us) = elim u.phone_number [
  | none ↦ phones_of us
  | some s ↦ if truthy s then s ∷ phones_of us else phones_of us
]

-- What the script draws besides a row's draws: the vectors of the encryptions, by how many accounts
-- were created before, and the salt.
pub record ScriptDraw : Type 0 where
  pub rows : List SeedDraw
  pub nid_vector : ℕ → ℕ
  pub pid_vector : ℕ → ℕ
  pub salt : ℕ

abbrev pub count_created : FakeVerifiedUserSeedResult → FakeVerifiedUserSeedResult
count_created r = record r { created = r.created + 1 }

abbrev pub count_skipped : FakeVerifiedUserSeedResult → FakeVerifiedUserSeedResult
count_skipped r = record r { skipped = r.skipped + 1 }

module _ (env : Env) (birth_time : FakeVerifiedUserInput → ℕ) where
  open env use {find_first, create, transaction, hash, encrypt, bcrypt_hash}

  abbrev pub seeded_user : FakeVerifiedUserInput → String → ℕ → ℕ → User
  seeded_user u password_hash now id = record {
    id = id;
    email = u.email;
    phone_number = some u.phone_number;
    password_hash = password_hash;
    image_url = none;
    is_verified = true;
    is_active = true;
    is_id_verified = true;
    id_verified_at = some now;
    verification_attempts = 0;
    created_at = now;
  }

  abbrev pub seeded_identity : FakeVerifiedUserInput → ℕ → ℕ → CitizenIdentity
  seeded_identity u vector user_id = record {
    user_id = user_id;
    identity_type = nid;
    nid_encrypted = some (encrypt vector u.nid);
    nid_hash = some (hash u.nid);
    fin_encrypted = none;
    fin_hash = none;
    sur_name = u.sur_name;
    post_names = u.post_names;
    sex = u.sex;
    date_of_birth = birth_time u;
    country_of_birth = "Rwanda";
  }

  abbrev pub seeded_platform : FakeVerifiedUserInput → ℕ → ℕ → PlatformId
  seeded_platform u vector user_id = record {
    user_id = user_id;
    pid_encrypted = encrypt vector u.pid;
    pid_hash = hash u.pid;
  }

  -- `createVerifiedUser`: the account with its identity and its Platform ID.
  unfoldable pub create_verified_user :
      FakeVerifiedUserInput → String → ℕ → ℕ → ℕ → World → Reply World
  create_verified_user u password_hash nid_vector pid_vector now w =
      and_then (create User (seeded_user u password_hash now) w.users) λ a.
        and_then
          (create CitizenIdentity (λ _. seeded_identity u nid_vector a.0.id) w.citizen_identities)
          λ c.
            and_then (create PlatformId (λ _. seeded_platform u pid_vector a.0.id) w.platform_ids)
              λ p. accepted (record w { users = a.1; citizen_identities = c.1; platform_ids = p.1 })

  abbrev pub is_seeded : FakeVerifiedUserInput → World → Bool
  is_seeded u w =
      is_some (find_first CitizenIdentity (same_identity nid (hash u.nid)) w.citizen_identities)

  -- The loop of the transaction.
  unfoldable pub seed_rows :
      List FakeVerifiedUserInput
      → String
      → ScriptDraw
      → ℕ
      → FakeVerifiedUserSeedResult × World
      → Reply (FakeVerifiedUserSeedResult × World)
  seed_rows [] password_hash draw now s = accepted s
  seed_rows (u ∷ us) password_hash draw now (r, w) =
      if is_seeded u w
      then seed_rows us password_hash draw now (count_skipped r, w)
      else and_then
          (create_verified_user u password_hash (draw.nid_vector r.created)
            (draw.pid_vector r.created) now w)
          λ w'. seed_rows us password_hash draw now (count_created r, w')

  unfoldable pub write_seed :
      List FakeVerifiedUserInput → ScriptDraw → ℕ → Handler FakeVerifiedUserSeedResult
  write_seed us draw now w =
      elim (transaction (FakeVerifiedUserSeedResult × World) (
        seed_rows us (bcrypt_hash draw.salt fake_verified_user_password) draw now
          (record { created = 0; skipped = 0 }, w))) [
            | accepted (r, w') ↦ (ok r, w')
            | rejected code ↦ (throws (prisma code), w)
          ]

  -- `seedVerifiedUsers`. Draws that do not suffice for the loops leave the script running.
  unfoldable pub seed_verified_users :
      SeedEnvironment → ScriptDraw → ℕ → Handler FakeVerifiedUserSeedResult
  seed_verified_users e draw now w = elim (enforce_seed_safety_gate e) [
    | throws x ↦ (throws x, w)
    | ok _ ↦
        if not (truthy (or_else e.database_url ""))
        then (throws (crash "DATABASE_URL environment variable is not set."), w)
        else if not (length (take user_count draw.rows) == user_count)
        then (throws (crash "still drawing"), w)
        else elim (generate_fake_verified_users 0 (take user_count draw.rows) (emails_of w.users)
            (phones_of w.users)) [
              | none ↦ (throws (crash "still drawing"), w)
              | some us ↦ write_seed us draw now w
            ]
  ]
