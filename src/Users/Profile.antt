-- ===== src/Users/Profile.antt =====
-- `getProfile`, `updateProfile` and `uploadProfileImage` of modules/users/users.service.ts. The
-- column `updatedAt` and `logger` are left out.
pub mod Changes
pub mod Image
use gracon_user_auth_service.Common.{
  ℕ, zero, suc, ◌+◌, ◌-◌, ◌*◌, ◌/◌, ◌%◌, ◌≤◌, ◌<◌, ◌≡◌, ◌≢◌, refl, sym, ap, subst, ◌∙◌, ◌⊎◌, ◌↔◌,
  inl, inr, arith, Bool, true, false, not, ◌&&◌, ◌||◌, Option, none, some, List, [], ◌∷◌, ◌++◌, map,
  String, str_eq, str_eq_iff, ltb, leb, ◌==◌, if◌then◌else◌, truthy, is_some, or_else, substring,
  ◌⁺⁺◌, trim, decimal, Bool-cases, Option-cases, All, length, find, select, update_where, take,
  drop, contains, ==_iff, ==_refl, &&-eq-true,
}
use gracon_user_auth_service.Platform.{
  IdentityType, nid, fin, TokenType, full, limited, User, CitizenIdentity, PlatformId,
  InvitePreference, no_verification, email_otp, identity_verification, UserPreference,
  EmailVerificationToken, PasswordResetToken, RefreshToken, IdVerification, SecurityEvent,
  login_success, login_failed, verification_passed, verification_failed, password_reset_requested,
  password_changed, sessions_revoked_by_user, revoked_token_reuse, rate_limit_exceeded,
  SecurityEventLog, Mail, verification_email, welcome_email, password_reset_email, Reply, accepted,
  rejected, and_then, Client, World, Exception, http, prisma, crash, bad_request, unauthorized,
  forbidden, not_found, conflict, internal_server_error, Outcome, ok, throws, Handler, pure, throw,
  gets, ◌>>=◌, ◌>>◌, modify, throw_if, insert, Bucket, Env, Moment, JwtPayload,
}
use gracon_user_auth_service.Storage.{ImageFile, upload_profile_image, without_object}
use gracon_user_auth_service.Users.Requests.{UpdateProfileDto, given}
use gracon_user_auth_service.Users.Access.{
  ImageAccess, find_by_id, identity_of, decrypted_fin, resolve_profile_image_access,
  get_presigned_url,
}
use gracon_user_auth_service.Users.Registration.Register.{send_mail}
use gracon_user_auth_service.Users.EmailVerification.{platform_id_of, upsert_token}
use gracon_user_auth_service.PasswordReset.{sur_name_of, post_names_of}

pub record CitizenProfile : Type 0 where
  pub sur_name : String
  pub post_names : String
  pub sex : String
  pub date_of_birth : ℕ
  pub country_of_birth : String

pub record Profile : Type 0 where
  pub id : ℕ
  pub email : String
  pub phone_number : Option String
  pub is_verified : Bool
  pub is_active : Bool
  pub is_id_verified : Bool
  pub id_verified_at : Option ℕ
  pub created_at : ℕ
  pub platform_id : Option String
  pub identity_type : IdentityType
  pub fin : Option String
  pub profile_image_url : Option String
  pub profile_image_expires_at : Option ℕ
  pub citizen_identity : Option CitizenProfile

abbrev pub identity_type_of : Option CitizenIdentity → IdentityType
identity_type_of none = nid
identity_type_of (some c) = c.identity_type

abbrev pub citizen_profile_of : Option CitizenIdentity → Option CitizenProfile
citizen_profile_of none = none
citizen_profile_of (some c) = some (record {
  sur_name = c.sur_name;
  post_names = c.post_names;
  sex = c.sex;
  date_of_birth = c.date_of_birth;
  country_of_birth = c.country_of_birth;
})

abbrev pub user_not_found : Exception
user_not_found = not_found "User not found"

abbrev pub email_taken : Exception
email_taken = conflict "An account with this email address already exists"

-- `dto.email && dto.email !== user.email`
abbrev pub is_email_changing : UpdateProfileDto → User → Bool
is_email_changing dto u = given dto.email && not (str_eq (or_else dto.email "") u.email)

-- Another account has the address.
abbrev pub is_other : ℕ → Option User → Bool
is_other user_id none = false
is_other user_id (some u) = not (u.id == user_id)

-- `updateData`, as the change of the row: an address that changes locks the account.
abbrev pub with_phone_number : Option String → User → User
with_phone_number none u = u
with_phone_number (some n) u = record u { phone_number = some n }

abbrev pub lock_for : String → User → User
lock_for email u = record u { email = email; is_verified = false; is_active = false }

abbrev pub update_data : UpdateProfileDto → Bool → User → User
update_data dto is_changing u =
    if is_changing
    then lock_for (or_else dto.email "") (with_phone_number dto.phone_number u)
    else with_phone_number dto.phone_number u

module _ (env : Env) where
  open env use {find_first, update, decrypt}

  abbrev pub shown_platform_id : Option PlatformId → Option String
  shown_platform_id none = none
  shown_platform_id (some p) = some (decrypt p.pid_encrypted)

  abbrev pub fin_of : Option CitizenIdentity → Option String
  fin_of none = none
  fin_of (some c) = decrypted_fin env c.identity_type c.fin_encrypted

  abbrev pub profile_with :
      User → Option CitizenIdentity → Option PlatformId → ImageAccess → Profile
  profile_with u identity pid image = record {
    id = u.id;
    email = u.email;
    phone_number = u.phone_number;
    is_verified = u.is_verified;
    is_active = u.is_active;
    is_id_verified = u.is_id_verified;
    id_verified_at = u.id_verified_at;
    created_at = u.created_at;
    platform_id = shown_platform_id pid;
    identity_type = identity_type_of identity;
    fin = fin_of identity;
    profile_image_url = image.url;
    profile_image_expires_at = image.expires_at;
    citizen_identity = citizen_profile_of identity;
  }

  unfoldable pub get_profile : ℕ → ℕ → Handler Profile
  get_profile user_id now w = elim (find_by_id env user_id w) [
    | none ↦ throw user_not_found w
    | some u ↦
        (resolve_profile_image_access env u.image_url now >>= λ image.
        pure (profile_with u (identity_of env w u.id) (platform_id_of env w u.id) image))
          w
  ]

  abbrev pub address_is_taken : UpdateProfileDto → ℕ → World → Bool
  address_is_taken dto user_id w =
      is_other user_id (find_first User (λ u. str_eq u.email (or_else dto.email "")) w.users)

  -- The writes of `updateProfile`, with whether the address changes.
  unfoldable pub apply_update :
      ℕ → UpdateProfileDto → Bool → Option CitizenIdentity → Moment → Handler (Unit {0})
  apply_update user_id dto is_changing identity at = do
    modify λ w. record w {
      users = update User (λ u. u.id == user_id) (update_data dto is_changing) w.users;
    }
    if is_changing
        then (upsert_token env user_id at
            >> send_mail env (
                verification_email (or_else dto.email "") (sur_name_of identity)
                  (post_names_of identity) user_id at.random))
        else pure tt

  unfoldable pub update_account :
      ℕ → UpdateProfileDto → User → Option CitizenIdentity → Moment → Handler Profile
  update_account user_id dto u identity at = do
    is_taken ← gets (address_is_taken dto user_id)
    throw_if (is_email_changing dto u && is_taken) email_taken
    apply_update user_id dto (is_email_changing dto u) identity at
    get_profile user_id at.now

  unfoldable pub update_profile : ℕ → UpdateProfileDto → Moment → Handler Profile
  update_profile user_id dto at w = elim (find_by_id env user_id w) [
    | none ↦ throw user_not_found w
    | some u ↦ update_account user_id dto u (identity_of env w u.id) at w
  ]

  abbrev pub remove_image : Option String → Handler (Unit {0})
  remove_image none = pure tt
  remove_image (some key) =
      if truthy key
      then (modify λ w. record w { objects = without_object env key w.objects })
      else pure tt

  -- The old image goes first; `folder` and `hex` name the new one.
  unfoldable pub replace_image : String → ℕ → User → ImageFile → String → ℕ → Handler (String × ℕ)
  replace_image folder user_id u file hex now = do
    remove_image u.image_url
    key ← upload_profile_image env folder user_id file hex
    modify λ w. record w {
      users = update User (λ a. a.id == user_id) (λ a. record a { image_url = some key }) w.users;
    }
    get_presigned_url env key now

  unfoldable pub upload_image : String → ℕ → ImageFile → String → ℕ → Handler (String × ℕ)
  upload_image folder user_id file hex now w = elim (find_by_id env user_id w) [
    | none ↦ throw user_not_found w
    | some u ↦ replace_image folder user_id u file hex now w
  ]
