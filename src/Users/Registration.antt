-- ===== src/Users/Registration.antt =====
-- The identity of a registration in modules/users/users.service.ts and the Platform ID of
-- common/pid/pid.service.ts. The registry lookups are
-- functions that may throw.
pub mod Register
pub mod Rows
pub mod Result
pub mod Sources
use gracon_user_auth_service.Common.{
  ℕ, zero, suc, ◌+◌, ◌-◌, ◌*◌, ◌/◌, ◌%◌, ◌≤◌, ◌<◌, ◌≡◌, ◌≢◌, refl, sym, ap, subst, ◌∙◌, ◌⊎◌, ◌↔◌,
  inl, inr, arith, Bool, true, false, not, ◌&&◌, ◌||◌, Option, none, some, List, [], ◌∷◌, ◌++◌, map,
  String, str_eq, str_eq_iff, ltb, leb, ◌==◌, if◌then◌else◌, truthy, is_some, or_else, substring,
  ◌⁺⁺◌, trim, decimal, Bool-cases, Option-cases, All, length, find, select, update_where, take,
  drop, contains, ==_iff, ==_refl, &&-eq-true,
}
use gracon_user_auth_service.Platform.{
  IdentityType, nid, fin, TokenType, full, limited, User, CitizenIdentity, PlatformId,
  InvitePreference, no_verification, email_otp, identity_verification, UserPreference,
  EmailVerificationToken, PasswordResetToken, RefreshToken, IdVerification, SecurityEvent,
  login_success, login_failed, verification_passed, verification_failed, password_reset_requested,
  password_changed, sessions_revoked_by_user, revoked_token_reuse, rate_limit_exceeded,
  SecurityEventLog, Mail, verification_email, welcome_email, password_reset_email, Reply, accepted,
  rejected, and_then, Client, World, Exception, http, prisma, crash, bad_request, unauthorized,
  forbidden, not_found, conflict, internal_server_error, Outcome, ok, throws, Handler, pure, throw,
  lift, gets, ◌>>=◌, ◌>>◌, modify, throw_if, insert, Bucket, Env, Moment, JwtPayload,
}
use gracon_user_auth_service.Citizen.{CitizenData}
use gracon_user_auth_service.ForeignIdentity.{ForeignIdentityProfile}
use gracon_user_auth_service.Users.Requests.{RegisterDto, given}
use gracon_user_auth_service.Users.Access.{find_by_email}

-- `RegistrationIdentityRecord`
pub record RegistrationIdentityRecord : Type 0 where
  pub identity_type : IdentityType
  pub identity_number : String
  pub sur_name : String
  pub post_names : String
  pub sex : String
  pub date_of_birth : ℕ
  pub country_of_birth : String

pub record RegistrationResult : Type 0 where
  pub user_id : ℕ
  pub email : String
  pub sur_name : String
  pub post_names : String
  pub platform_id : String
  pub identity_type : IdentityType
  pub fin : Option String

-- What a registration draws besides its moment: the random digits of the Platform ID and the vectors
-- of the two encryptions.
pub record Draw : Type 0 where
  pub digits : List ℕ
  pub identity_vector : ℕ
  pub pid_vector : ℕ

-- The registries, and the calendar year of a time.
pub record Registries : Type 0 where
  pub lookup_citizen : String → Outcome CitizenData
  pub get_by_fin : String → Outcome (Option ForeignIdentityProfile)
  pub full_year : ℕ → ℕ

unfoldable pub generate_random_digits : List ℕ → String
generate_random_digits [] = ""
generate_random_digits (d ∷ ds) = decimal d ⁺⁺ generate_random_digits ds

-- `PidService.generate`, for a year of birth and six random digits.
abbrev pub generate_pid : ℕ → List ℕ → String
generate_pid birth_year digits = decimal birth_year ⁺⁺ generate_random_digits (take 6 digits) ⁺⁺ "1"

unfoldable pub assert_exclusive_identity_input : RegisterDto → Handler (Unit {0})
assert_exclusive_identity_input dto = do
  throw_if (given dto.document_number && given dto.fin)
      (bad_request "Provide either documentNumber or fin, not both in the same request.")
  throw_if (not (given dto.document_number) && not (given dto.fin))
      (bad_request "Either documentNumber or fin must be provided for registration.")

abbrev pub not_registered : Exception
not_registered =
    not_found
      "The provided Foreign Identity Number is not registered or has been deactivated. Contact a platform administrator."

abbrev pub taken : Exception
taken = conflict "An account with this email or identity number already exists"

abbrev pub failed : Exception
failed = internal_server_error "Registration failed. Please try again."

abbrev pub is_foreign : IdentityType → Bool
is_foreign nid = false
is_foreign fin = true

abbrev pub foreign_identity : ForeignIdentityProfile → ℕ → RegistrationIdentityRecord
foreign_identity f date = record {
  identity_type = fin;
  identity_number = f.fin;
  sur_name = f.last_name;
  post_names = f.first_name;
  sex = f.gender;
  date_of_birth = date;
  country_of_birth = f.country_of_origin;
}

module _ (registries : Registries) where
  abbrev pub citizen_record : String → CitizenData → RegistrationIdentityRecord
  citizen_record document_number c = record {
    identity_type = nid;
    identity_number = document_number;
    sur_name = c.sur_name;
    post_names = c.post_names;
    sex = c.sex;
    date_of_birth = c.date_of_birth;
    country_of_birth = c.country_of_birth;
  }

  unfoldable pub resolve_citizen_registration_identity : String → Handler RegistrationIdentityRecord
  resolve_citizen_registration_identity document_number =
      lift (registries.lookup_citizen document_number) >>= λ c.
      pure (citizen_record document_number c)

  abbrev pub foreign_record : ForeignIdentityProfile → Option ℕ → Handler RegistrationIdentityRecord
  foreign_record f none =
      throw (internal_server_error "Foreign identity lookup returned an invalid date of birth.")
  foreign_record f (some date) = pure (foreign_identity f date)

  abbrev pub active_foreign_record :
      Option ForeignIdentityProfile → Handler RegistrationIdentityRecord
  active_foreign_record none = throw not_registered
  active_foreign_record (some f) =
      if f.is_active then foreign_record f f.date_of_birth else throw not_registered

  unfoldable pub resolve_foreign_registration_identity : String → Handler RegistrationIdentityRecord
  resolve_foreign_registration_identity fin_number =
      lift (registries.get_by_fin fin_number) >>= active_foreign_record

  -- `documentNumber!`: one of the two has been given.
  unfoldable pub resolve_registration_identity : RegisterDto → Handler RegistrationIdentityRecord
  resolve_registration_identity dto =
      if given dto.fin
      then resolve_foreign_registration_identity (or_else dto.fin "")
      else resolve_citizen_registration_identity (or_else dto.document_number "")
