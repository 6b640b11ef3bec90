-- ===== src/Users/Registration/Register.antt =====
-- The rows of a registration and `register` of modules/users/users.service.ts. `logger` is left out; the
-- mailer swallows the failures of its transport.
use gracon_user_auth_service.Common.{
  ℕ, ◌+◌, ◌*◌, Bool, false, not, Option, none, some, [], ◌∷◌, ◌++◌, String, str_eq, ◌==◌,
  if◌then◌else◌, is_some,
}
use gracon_user_auth_service.Platform.{
  IdentityType, nid, fin, User, CitizenIdentity, PlatformId, EmailVerificationToken, Mail,
  verification_email, Reply, accepted, rejected, and_then, World, Exception, conflict, Handler,
  pure, throw, gets, ◌>>=◌, ◌>>◌, modify, throw_if, Env, Moment,
}
use gracon_user_auth_service.Users.Requests.{RegisterDto}
use gracon_user_auth_service.Users.Registration.{
  RegistrationIdentityRecord, RegistrationResult, Draw, Registries, generate_pid,
  assert_exclusive_identity_input, taken, failed, is_foreign, resolve_registration_identity,
}

abbrev pub has_hash : ℕ → Option ℕ → Bool
has_hash h none = false
has_hash h (some k) = k == h

-- The search for a registered identity: by the digest of the number, in the column of its kind.
abbrev pub same_identity : IdentityType → ℕ → CitizenIdentity → Bool
same_identity nid h c = has_hash h c.nid_hash
same_identity fin h c = has_hash h c.fin_hash

abbrev pub identity_taken : IdentityType → Exception
identity_taken nid = conflict "An account with this National ID is already registered"
identity_taken fin = conflict "An account with this Foreign Identity Number is already registered"

abbrev pub for_kind : {A : Type 0} → Bool → A → Option A
for_kind b a = if b then some a else none

abbrev pub verification_token_expiry_ms : ℕ
verification_token_expiry_ms = 24 * 60 * 60 * 1000

module _ (env : Env) where
  open env use {find_first, create, transaction, hash, encrypt, bcrypt_hash}

  abbrev pub user_row : RegisterDto → IdentityType → Moment → ℕ → User
  user_row dto kind at id = record {
    id = id;
    email = dto.email;
    phone_number = dto.phone_number;
    password_hash = bcrypt_hash at.salt dto.password;
    image_url = none;
    is_verified = false;
    is_active = false;
    is_id_verified = is_foreign kind;
    id_verified_at = for_kind (is_foreign kind) at.now;
    verification_attempts = 0;
    created_at = at.now;
  }

  abbrev pub identity_row : RegistrationIdentityRecord → ℕ → ℕ → CitizenIdentity
  identity_row i vector user_id =
      let foreign = is_foreign i.identity_type in
      record {
        user_id = user_id;
        identity_type = i.identity_type;
        nid_encrypted = for_kind (not foreign) (encrypt vector i.identity_number);
        nid_hash = for_kind (not foreign) (hash i.identity_number);
        fin_encrypted = for_kind foreign (encrypt vector i.identity_number);
        fin_hash = for_kind foreign (hash i.identity_number);
        sur_name = i.sur_name;
        post_names = i.post_names;
        sex = i.sex;
        date_of_birth = i.date_of_birth;
        country_of_birth = i.country_of_birth;
      }

  abbrev pub platform_row : String → ℕ → ℕ → PlatformId
  platform_row pid vector user_id = record {
    user_id = user_id;
    pid_encrypted = encrypt vector pid;
    pid_hash = hash pid;
  }

  -- The row of a fresh verification token.
  abbrev pub verification_token_row : ℕ → Moment → ℕ → EmailVerificationToken
  verification_token_row user_id at id = record {
    id = id;
    user_id = user_id;
    token_hash = hash at.random;
    expires_at = at.now + verification_token_expiry_ms;
    used = false;
    created_at = at.now;
  }

  -- Step 8: the four rows, of which the first is the account's.
  unfoldable pub registration_rows :
      RegisterDto
      → RegistrationIdentityRecord
      → String
      → Draw
      → Moment
      → World
      → Reply (User × World)
  registration_rows dto i pid draw at w =
      and_then (create User (user_row dto i.identity_type at) w.users) λ u.
        and_then
          (create CitizenIdentity (λ _. identity_row i draw.identity_vector u.0.id)
            w.citizen_identities)
          λ c.
            and_then
              (create PlatformId (λ _. platform_row pid draw.pid_vector u.0.id) w.platform_ids)
              λ p.
                and_then
                  (create EmailVerificationToken (verification_token_row u.0.id at) w.email_tokens)
                  λ t. accepted (
                    u.0,
                    record w {
                      users = u.1;
                      citizen_identities = c.1;
                      platform_ids = p.1;
                      email_tokens = t.1;
                    },
                  )

  -- A refused transaction leaves no row. A unique column that is taken is a conflict.
  unfoldable pub persist :
      RegisterDto → RegistrationIdentityRecord → String → Draw → Moment → Handler User
  persist dto i pid draw at w =
      elim (transaction (User × World) (registration_rows dto i pid draw at w)) [
        | accepted (u, w') ↦ pure u w'
        | rejected code ↦ throw (if str_eq code "P2002" then taken else failed) w
      ]

  abbrev pub email_is_taken : RegisterDto → World → Bool
  email_is_taken dto w = is_some (find_first User (λ u. str_eq u.email dto.email) w.users)

  abbrev pub identity_is_taken : RegistrationIdentityRecord → World → Bool
  identity_is_taken i w = is_some (
      find_first CitizenIdentity (same_identity i.identity_type (hash i.identity_number))
        w.citizen_identities)

  abbrev pub registered : RegistrationIdentityRecord → String → User → RegistrationResult
  registered i pid u = record {
    user_id = u.id;
    email = u.email;
    sur_name = i.sur_name;
    post_names = i.post_names;
    platform_id = pid;
    identity_type = i.identity_type;
    fin = for_kind (is_foreign i.identity_type) i.identity_number;
  }

  -- The message that `sendVerificationEmail` hands on; a failure to send is swallowed.
  abbrev pub send_mail : Mail → Handler (Unit {0})
  send_mail mail = modify λ w. record w { mails = w.mails ++ mail ∷ [] }

  -- Steps 2 to 10, with the identity that has been resolved.
  unfoldable pub register_identity :
      Registries
      → RegisterDto
      → Draw
      → Moment
      → RegistrationIdentityRecord
      → Handler RegistrationResult
  register_identity registries dto draw at i = do
    known ← gets (email_is_taken dto)
    throw_if known (conflict "An account with this email address already exists")
    same ← gets (identity_is_taken i)
    throw_if same (identity_taken i.identity_type)
    let pid = generate_pid (registries.full_year i.date_of_birth) draw.digits
    u ← persist dto i pid draw at
    send_mail (verification_email u.email i.sur_name i.post_names u.id at.random)
    pure (registered i pid u)

  unfoldable pub register : Registries → RegisterDto → Draw → Moment → Handler RegistrationResult
  register registries dto draw at = do
    assert_exclusive_identity_input dto
    i ← resolve_registration_identity registries dto
    register_identity registries dto draw at i
