-- ===== src/Users/Registration/Rows.antt =====
-- users.service.ts, register: the rows that a registration adds.
use gracon_user_auth_service.Common.{
  ◌+◌, refl, true, some, ℕ, ◌≡◌, inl, inr, arith, false, ◌&&◌, none, List, [], ◌∷◌, ◌++◌, String,
  str_eq, find,
}
use gracon_user_auth_service.Platform.{
  IdentityType, nid, fin, User, CitizenIdentity, PlatformId, EmailVerificationToken,
  verification_email, Reply, accepted, World, ok, Env, Moment,
}
use gracon_user_auth_service.Platform.Laws.{Reply-cases}
use gracon_user_auth_service.Users.Requests.{RegisterDto, given}
use gracon_user_auth_service.Users.Registration.{
  RegistrationIdentityRecord, RegistrationResult, Draw, Registries, generate_pid, and_then,
  resolve_registration_identity, resolve_citizen_registration_identity,
  resolve_foreign_registration_identity,
}
use gracon_user_auth_service.Users.Registration.Register.{
  same_identity, user_row, identity_row, platform_row, verification_token_row, registration_rows,
  registered,
}

-- The account that a registration adds: not verified and not active, and identified exactly when its
-- identity is a foreign one.
abbrev pub new_account : Env → RegisterDto → IdentityType → Moment → ℕ → User
new_account env dto nid at id = record {
  id = id;
  email = dto.email;
  phone_number = dto.phone_number;
  password_hash = env.bcrypt_hash at.salt dto.password;
  image_url = none;
  is_verified = false;
  is_active = false;
  is_id_verified = false;
  id_verified_at = none;
  verification_attempts = 0;
  created_at = at.now;
}
new_account env dto fin at id = record {
  id = id;
  email = dto.email;
  phone_number = dto.phone_number;
  password_hash = env.bcrypt_hash at.salt dto.password;
  image_url = none;
  is_verified = false;
  is_active = false;
  is_id_verified = true;
  id_verified_at = some at.now;
  verification_attempts = 0;
  created_at = at.now;
}

-- The columns of a number: the one of its kind, encrypted and as a digest, and the other empty.
abbrev pub Stores : Env → IdentityType → String → ℕ → CitizenIdentity → Type 0
Stores env nid number vector row =
    (row.nid_encrypted ≡ some (env.encrypt vector number))
    × (row.nid_hash ≡ some (env.hash number))
    × (row.fin_encrypted ≡ none)
    × (row.fin_hash ≡ none)
Stores env fin number vector row =
    (row.fin_encrypted ≡ some (env.encrypt vector number))
    × (row.fin_hash ≡ some (env.hash number))
    × (row.nid_encrypted ≡ none)
    × (row.nid_hash ≡ none)

-- The row of an identity.
pub record Describes (env : Env) (i : RegistrationIdentityRecord) (vector id : ℕ)
    (row : CitizenIdentity) : Type 0 where
  pub whose : row.user_id ≡ id
  pub kind : row.identity_type ≡ i.identity_type
  pub number : Stores env i.identity_type i.identity_number vector row
  pub sur_name : row.sur_name ≡ i.sur_name
  pub post_names : row.post_names ≡ i.post_names
  pub sex : row.sex ≡ i.sex
  pub date_of_birth : row.date_of_birth ≡ i.date_of_birth
  pub country_of_birth : row.country_of_birth ≡ i.country_of_birth

-- The identity is taken from one of the two registries, and the account, the identity, the Platform ID
-- and the verification token have one new row each.
pub record Registers (env : Env) (registries : Registries) (dto : RegisterDto) (draw : Draw)
    (at : Moment) (w : World) (res : RegistrationResult) (w' : World) : Type 0 where
  pub one_number : (given dto.document_number && given dto.fin) ≡ false
  pub identity : RegistrationIdentityRecord
  pub resolved : resolve_registration_identity registries dto w ≡ (ok identity, w)
  pub new_email : find (λ u. str_eq u.email dto.email) w.users ≡ none
  pub new_identity :
      find
        (same_identity identity.identity_type (env.hash identity.identity_number))
        w.citizen_identities
      ≡ none
  pub id : ℕ
  pub token_id : ℕ
  pub added_row : CitizenIdentity
  pub same_row : added_row ≡ identity_row env identity draw.identity_vector id
  pub users : w'.users ≡ w.users ++ new_account env dto identity.identity_type at id ∷ []
  pub identities : w'.citizen_identities ≡ w.citizen_identities ++ added_row ∷ []
  pub described : Describes env identity draw.identity_vector id added_row
  pub pid : String
  pub generated : pid ≡ generate_pid (registries.full_year identity.date_of_birth) draw.digits
  pub platform_ids :
      w'.platform_ids
      ≡ w.platform_ids
        ++ record {
          user_id = id;
          pid_encrypted = env.encrypt draw.pid_vector pid;
          pid_hash = env.hash pid;
        }
          ∷ []
  pub tokens :
      w'.email_tokens
      ≡ w.email_tokens
        ++ record {
          id = token_id;
          user_id = id;
          token_hash = env.hash at.random;
          expires_at = at.now + 86_400_000;
          used = false;
          created_at = at.now;
        }
          ∷ []
  pub mails :
      w'.mails
      ≡ w.mails
        ++ verification_email dto.email identity.sur_name identity.post_names id at.random ∷ []
  pub answer : res ≡ registered env identity pid (new_account env dto identity.identity_type at id)
  pub frame : w' ≡ record w {
    users = w'.users;
    citizen_identities = w'.citizen_identities;
    platform_ids = w'.platform_ids;
    email_tokens = w'.email_tokens;
    mails = w'.mails;
  }

pub user_row_lem :
    (env : Env) (dto : RegisterDto) (kind : IdentityType) (at : Moment) (id : ℕ)
    → user_row env dto kind at id ≡ new_account env dto kind at id
user_row_lem env dto nid at id = refl
user_row_lem env dto fin at id = refl

identity_row-Stores :
    (env : Env) (kind : IdentityType) (i : RegistrationIdentityRecord) (vector id : ℕ)
    → i.identity_type ≡ kind
    → Stores env kind i.identity_number vector (identity_row env i vector id)
identity_row-Stores env nid i vector id e = rw e (refl, refl, refl, refl)
identity_row-Stores env fin i vector id e = rw e (refl, refl, refl, refl)

pub identity_row-Describes :
    (env : Env) (i : RegistrationIdentityRecord) (vector id : ℕ)
    → Describes env i vector id (identity_row env i vector id)
identity_row-Describes env i vector id = record {
  whose = refl;
  kind = refl;
  number = identity_row-Stores env i.identity_type i vector id refl;
  sur_name = refl;
  post_names = refl;
  sex = refl;
  date_of_birth = refl;
  country_of_birth = refl;
}

module _ (env : Env) where
  pub resolve_state :
      (registries : Registries) (dto : RegisterDto) (w : World)
      → (resolve_registration_identity registries dto w).1 ≡ w
  unfolding resolve_registration_identity resolve_citizen_registration_identity
      resolve_foreign_registration_identity
  resolve_state registries dto w = ground arith

  -- The rows that follow the account's.
  abbrev pub identity_rows :
      RegistrationIdentityRecord
      → String
      → Draw
      → Moment
      → World
      → User
      → List User
      → Reply (User × World)
  identity_rows i pid draw at w u us =
      and_then
        (env.create CitizenIdentity (λ _. identity_row env i draw.identity_vector u.id)
          w.citizen_identities)
        λ c.
          and_then
            (env.create PlatformId (λ _. platform_row env pid draw.pid_vector u.id) w.platform_ids)
            λ p.
              and_then
                (env.create EmailVerificationToken (verification_token_row env u.id at)
                  w.email_tokens)
                λ t. accepted (
                  u,
                  record w {
                    users = us;
                    citizen_identities = c.1;
                    platform_ids = p.1;
                    email_tokens = t.1;
                  },
                )

  pub identity_rows-accepted :
      (i : RegistrationIdentityRecord) (pid : String) (draw : Draw) (at : Moment) (w : World)
      (u : User) (us : List User) {u' : User} {w' : World}
      → identity_rows i pid draw at w u us ≡ accepted (u', w')
      → (token_id : ℕ) × (u' ≡ u)
        × (w' ≡ record w {
          users = us;
          citizen_identities =
              w.citizen_identities ++ identity_row env i draw.identity_vector u.id ∷ [];
          platform_ids = w.platform_ids ++ platform_row env pid draw.pid_vector u.id ∷ [];
          email_tokens = w.email_tokens ++ verification_token_row env u.id at token_id ∷ [];
        })
  identity_rows-accepted i pid draw at w u us h =
      elim (Reply-cases (
        env.create CitizenIdentity (λ _. identity_row env i draw.identity_vector u.id)
          w.citizen_identities)) [
            | inr (c, e) ↦ ground arith
            | inl ((c, cs), e) ↦
                let (n, p, q) = env.create_lem CitizenIdentity _ w.citizen_identities c cs e in
                elim (Reply-cases (
                  env.create PlatformId (λ _. platform_row env pid draw.pid_vector u.id)
                    w.platform_ids)) [
                      | inr (c', e') ↦ ground arith
                      | inl ((pi, ps), e') ↦
                          let (n', p', q') = env.create_lem PlatformId _ w.platform_ids pi ps e' in
                          elim (Reply-cases (
                            env.create EmailVerificationToken (verification_token_row env u.id at)
                              w.email_tokens)) [
                                | inr (c'', e'') ↦ ground arith
                                | inl ((t, ts), e'') ↦
                                    let (id, p'', q'') =
                                      env.create_lem EmailVerificationToken _ w.email_tokens t ts
                                        e'' in
                                    (id, ground arith, ground arith)
                              ]
                    ]
          ]

  -- The rows of a transaction that may commit.
  pub registration_rows-accepted :
      (dto : RegisterDto) (i : RegistrationIdentityRecord) (pid : String) (draw : Draw)
      (at : Moment) (w : World) {u' : User} {w' : World}
      → registration_rows env dto i pid draw at w ≡ accepted (u', w')
      → (id token_id : ℕ) × (u' ≡ user_row env dto i.identity_type at id)
        × (w' ≡ record w {
          users = w.users ++ user_row env dto i.identity_type at id ∷ [];
          citizen_identities =
              w.citizen_identities ++ identity_row env i draw.identity_vector id ∷ [];
          platform_ids = w.platform_ids ++ platform_row env pid draw.pid_vector id ∷ [];
          email_tokens = w.email_tokens ++ verification_token_row env id at token_id ∷ [];
        })
  unfolding registration_rows
  registration_rows-accepted dto i pid draw at w {u'} {w'} h =
      elim (Reply-cases (env.create User (user_row env dto i.identity_type at) w.users)) [
        | inr (c, e) ↦ ground arith
        | inl ((u, us), e) ↦
            let (id, p, q) = env.create_lem User _ w.users u us e in
            let rest : identity_rows i pid draw at w u us ≡ accepted (u', w') = ground arith in
            let (token_id, s, t) = identity_rows-accepted i pid draw at w u us rest in
            (id, token_id, ground arith, ground arith)
      ]
