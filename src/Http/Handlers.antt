-- ===== src/Http/Handlers.antt =====
-- The controllers: what each route does with its request, once the request's body is read. The
-- documentation of the routes is left out, and so is the wrapping of an answer.
use gracon_user_auth_service.Common.{
  ℕ, Bool, Option, none, some, List, [], ◌∷◌, String, str_eq, if◌then◌else◌,
}
use gracon_user_auth_service.Http.Uploads.{profile_upload_config, intercepted}
use gracon_user_auth_service.Platform.{
  bad_request, Outcome, Handler, throw, lift, gets, ◌>>=◌, ◌>>◌, Env, Moment,
}
use gracon_user_auth_service.Auth.{
  AuthTokens, LoginDto, LoginResult, login, refresh_tokens, upgrade_session, logout,
  logout_all_devices,
}
use gracon_user_auth_service.Citizen.{CitizenData, Registry, CitizenState, lookup_citizen}
use gracon_user_auth_service.PasswordReset.{
  ResetPasswordDto, request_reset, validate_reset_token, reset_password,
}
use gracon_user_auth_service.Storage.{ImageFile}
use gracon_user_auth_service.Users.Requests.{
  RegisterDto, VerifyEmailDto, ResendVerificationDto, UpdateProfileDto, ChangePasswordDto,
}
use gracon_user_auth_service.Users.Registration.{RegistrationResult, Draw, Registries}
use gracon_user_auth_service.Users.Registration.Register.{register}
use gracon_user_auth_service.Users.EmailVerification.{
  VerifyEmailResult, verify_email, resend_verification_email,
}
use gracon_user_auth_service.Users.Profile.{Profile, get_profile, update_profile, upload_image}
use gracon_user_auth_service.Users.Password.{change_password}
use gracon_user_auth_service.Users.Preferences.{
  UpdateUserPreferencesDto, UserPreferencesResponse, get_preferences, update_preferences,
}
use gracon_user_auth_service.Users.Activity.{UserActivityQuery, UserActivityResponse}
use gracon_user_auth_service.Users.Activity.Feed.{get_activity}
use gracon_user_auth_service.Verification.{
  ChallengeMode, standard, invitation, EnginePayload, EngineResponse, VerificationResult,
  VerificationStatusResult,
}
use gracon_user_auth_service.Verification.Submit.{submit_verification, get_verification_status}
use gracon_user_auth_service.Http.{Request, extract_ip, origin_of}

-- The form of a submission: the files by field, and the other fields.
pub record SubmissionForm : Type 0 where
  pub id_card : List ImageFile
  pub selfie : List ImageFile
  pub id_card_hex : String
  pub selfie_hex : String
  pub folder : String
  pub document_number : String
  pub challenge_mode : Option String

-- `dto.challengeMode === 'INVITATION' ? 'INVITATION' : 'STANDARD'`
unfoldable pub challenge_mode_of : Option String → ChallengeMode
challenge_mode_of none = standard
challenge_mode_of (some s) = if str_eq s "INVITATION" then invitation else standard

-- modules/citizen/citizen.controller.ts
abbrev pub lookup_citizen_route :
    (registry : Registry)
    → String
    → CitizenState registry
    → Outcome CitizenData × CitizenState registry
lookup_citizen_route registry number s = lookup_citizen registry number s

module _ (env : Env) where
  -- The routes of the auth controller that need no access token.
  unfoldable pub login_route : LoginDto → Request → Moment → Handler LoginResult
  login_route dto req at = lift (origin_of req) >>= λ from. login env dto from at

  unfoldable pub refresh_route : String → Request → Moment → Handler AuthTokens
  refresh_route token req at = lift (origin_of req) >>= λ from. refresh_tokens env token from at

  unfoldable pub upgrade_session_route : String → Request → Moment → Handler AuthTokens
  upgrade_session_route token req at =
      lift (origin_of req) >>= λ from. upgrade_session env token from at

  -- modules/auth/password-reset.controller.ts
  abbrev pub request_reset_route : String → Moment → Handler String
  request_reset_route email at = request_reset env email at

  abbrev pub validate_token_route : ℕ → String → Moment → Handler (Bool × String)
  validate_token_route user_id token at = gets (validate_reset_token env user_id token at.now)

  abbrev pub reset_password_route : ResetPasswordDto → Moment → Handler String
  reset_password_route dto at = reset_password env dto at

  -- The routes of modules/users/users.controller.ts that need no access token.
  abbrev pub register_route : Registries → RegisterDto → Draw → Moment → Handler RegistrationResult
  register_route registries dto draw at = register env registries dto draw at

  abbrev pub verify_email_route : VerifyEmailDto → Moment → Handler VerifyEmailResult
  verify_email_route dto at = verify_email env dto at

  abbrev pub resend_verification_route : ResendVerificationDto → Moment → Handler String
  resend_verification_route dto at = resend_verification_email env dto at

  -- The routes behind the guard, for the account of the token.
  abbrev pub logout_route : String → Handler (Unit {0})
  logout_route token = logout env token

  abbrev pub logout_all_route : ℕ → Moment → Handler (Unit {0})
  logout_all_route user_id at = logout_all_devices env user_id at.now

  abbrev pub get_profile_route : ℕ → Moment → Handler Profile
  get_profile_route user_id at = get_profile env user_id at.now

  abbrev pub get_preferences_route : ℕ → Handler UserPreferencesResponse
  get_preferences_route user_id = get_preferences env user_id

  abbrev pub update_preferences_route :
      ℕ → UpdateUserPreferencesDto → Handler UserPreferencesResponse
  update_preferences_route user_id dto = update_preferences env user_id dto

  abbrev pub get_activity_route : ℕ → UserActivityQuery → Handler UserActivityResponse
  get_activity_route user_id query = gets (get_activity env user_id query)

  abbrev pub update_profile_route : ℕ → UpdateProfileDto → Moment → Handler Profile
  update_profile_route user_id dto at = update_profile env user_id dto at

  abbrev pub upload_profile_image_route :
      String → ℕ → ImageFile → String → Moment → Handler (String × ℕ)
  upload_profile_image_route folder user_id file hex at = do
    lift (intercepted profile_upload_config file)
    upload_image env folder user_id file hex at.now

  abbrev pub change_password_route : ℕ → ChangePasswordDto → Moment → Handler String
  change_password_route user_id dto at = change_password env user_id dto at

  module _ (engine : EnginePayload → Option EngineResponse) (hours : ℕ) where
    -- `submitVerification` of the controller.
    unfoldable pub submit_route : SubmissionForm → Request → ℕ → Moment → Handler VerificationResult
    submit_route form req user_id at = elim form.id_card [
      | [] ↦ throw (bad_request "ID card image is required.")
      | id_card ∷ _ ↦ elim form.selfie [
        | [] ↦ throw (bad_request "Selfie image is required.")
        | selfie ∷ _ ↦ lift (extract_ip req) >>= λ ip.
            submit_verification env hours engine user_id form.document_number
              (record {
                id_card = id_card;
                selfie = selfie;
                id_card_hex = form.id_card_hex;
                selfie_hex = form.selfie_hex;
                folder = form.folder;
              })
              ip (challenge_mode_of form.challenge_mode) at
      ]
    ]

    abbrev pub get_status_route : ℕ → Moment → Handler VerificationStatusResult
    get_status_route user_id at = gets (get_verification_status env hours user_id at.now)
