-- ===== src/Verification.antt =====
-- modules/verification/verification.service.ts: the types, the exceptions and the window of attempts, a
-- budget of three in a sliding window.
pub mod Submit
pub mod Window
pub mod Retry
pub mod Effects
pub mod Submission
pub mod Result
pub mod Upgrade
pub mod Budget
use mathlib.Core.Option
use gracon_user_auth_service.Common.{
  ℕ, zero, suc, ◌+◌, ◌-◌, ◌*◌, ◌/◌, ◌%◌, ◌≤◌, ◌<◌, ◌≡◌, ◌≢◌, refl, sym, ap, subst, ◌∙◌, ◌⊎◌, ◌↔◌,
  inl, inr, arith, Bool, true, false, not, ◌&&◌, ◌||◌, Option, none, some, List, [], ◌∷◌, ◌++◌, map,
  String, str_eq, str_eq_iff, ltb, leb, ◌==◌, if◌then◌else◌, truthy, is_some, or_else, substring,
  ◌⁺⁺◌, trim, decimal, Bool-cases, Option-cases, All, length, find, select, update_where, take,
  drop, contains, ==_iff, ==_refl, &&-eq-true,
}
use gracon_user_auth_service.Platform.{
  IdentityType, nid, fin, TokenType, full, limited, User, CitizenIdentity, PlatformId,
  EmailVerificationToken, PasswordResetToken, RefreshToken, IdVerification, SecurityEvent,
  login_success, login_failed, verification_passed, verification_failed, password_reset_requested,
  password_changed, sessions_revoked_by_user, revoked_token_reuse, rate_limit_exceeded,
  SecurityEventLog, Mail, verification_email, welcome_email, password_reset_email, Reply, accepted,
  rejected, Client, World, Exception, http, prisma, crash, bad_request, unauthorized, forbidden,
  not_found, conflict, internal_server_error, Outcome, ok, throws, Handler, pure, throw, gets,
  ◌>>=◌, ◌>>◌, modify, throw_if, insert, Bucket, Env, Moment, JwtPayload,
}
use gracon_user_auth_service.SecurityEvents.{log}
use gracon_user_auth_service.Storage.{ImageFile, upload_verification_image, delete_all}
use gracon_user_auth_service.Users.Access.{identity_of, find_by_id}
use gracon_user_auth_service.Auth.{AuthTokens, Origin, upgrade_token}

pub data ChallengeMode : Type 0 where
  standard invitation : ChallengeMode

-- The payload of `callVerificationEngine`.
pub record EnginePayload : Type 0 where
  pub id_image_key : String
  pub selfie_image_key : String
  pub user_id : ℕ
  pub document_match : Bool

-- `EngineVerificationResponse`, without the two quality marks, which are not used.
pub record EngineResponse : Type 0 where
  pub passed : Bool
  pub face_similarity : ℕ
  pub liveness_confidence : ℕ
  pub document_match : Bool
  pub composite_score : ℕ
  pub fail_reason : Option String

pub record VerificationWindowState : Type 0 where
  pub attempts_used : ℕ
  pub attempts_remaining : ℕ
  pub retry_available_at : Option ℕ
  pub retry_after_seconds : Option ℕ

pub record VerificationLockoutState : Type 0 where
  pub max_attempts : ℕ
  pub attempt_window_hours : ℕ
  pub attempt_limit_enabled : Bool
  pub retry_available_at : Option ℕ
  pub retry_after_seconds : Option ℕ

pub record VerificationIdInfo : Type 0 where
  pub full_name : String
  pub date_of_birth : ℕ
  pub document_number : String

pub record VerificationResult : Type 0 where
  pub passed : Bool
  pub composite_score : ℕ
  pub face_score : ℕ
  pub liveness_score : ℕ
  pub document_match : Bool
  pub message : String
  pub fail_reason : Option String
  pub attempts_used : ℕ
  pub attempts_remaining : ℕ
  pub lockout : VerificationLockoutState
  pub id_info : VerificationIdInfo
  pub upgraded_tokens : Option AuthTokens
  pub challenge_mode : ChallengeMode

pub record VerificationStatusResult : Type 0 where
  pub is_id_verified : Bool
  pub attempts_used : ℕ
  pub attempts_remaining : ℕ
  pub can_attempt : Bool
  pub last_attempt_at : Option ℕ
  pub lockout : VerificationLockoutState

abbrev pub max_attempts : ℕ
max_attempts = 3

-- The exceptions of modules/verification/exceptions/verification.exceptions.ts, by status and message.
abbrev pub already_passed : Exception
already_passed = http 409 "Your identity has already been verified. You can proceed to login."

abbrev pub email_not_verified : Exception
email_not_verified =
    http 403 "Please verify your email address before proceeding with ID verification."

abbrev pub engine_unavailable : Exception
engine_unavailable =
    http 503
      "The verification service is temporarily unavailable. Please try again in a few minutes."

abbrev pub image_upload_failed : Exception
image_upload_failed =
    http 422
      "Failed to process your images. Please ensure the image is clear, well-lit, and under 5MB."

abbrev pub too_many_attempts : ℕ → Exception
too_many_attempts hours = http 429 (
    "Maximum verification attempts reached. Please try again in "
    ⁺⁺ decimal hours
    ⁺⁺ " hour(s) or contact support.")

abbrev pub is_invitation : ChallengeMode → Bool
is_invitation standard = false
is_invitation invitation = true

abbrev pub is_fin : Option CitizenIdentity → Bool
is_fin none = false
is_fin (some c) = elim c.identity_type [ fin ↦ true | nid ↦ false ]

-- `attemptWindowHours * 60 * 60 * 1000`
abbrev pub window_ms : ℕ → ℕ
window_ms hours = hours * 60 * 60 * 1000

-- The attempts of an account since a time.
abbrev pub attempt_since : ℕ → ℕ → IdVerification → Bool
attempt_since user_id start v = v.user_id == user_id && leb start v.created_at

abbrev pub first_time : List IdVerification → Option ℕ
first_time [] = none
first_time (v ∷ vs) = some v.created_at

-- `retryAvailableAt`: when the oldest attempt leaves the window, once the budget is spent.
abbrev pub retry_at : ℕ → List IdVerification → Option ℕ
retry_at hours attempts =
    if leb max_attempts (length attempts)
    then Option.map (λ t. t + window_ms hours) (first_time attempts)
    else none

-- The state from the attempts in the window, the oldest first. `Math.max(0, …)` is the subtraction
-- on ℕ, and `Math.ceil(ms / 1000)` is `(ms + 999) / 1000`.
abbrev pub state_of : ℕ → ℕ → List IdVerification → VerificationWindowState
state_of hours now attempts = record {
  attempts_used = length attempts;
  attempts_remaining = max_attempts - length attempts;
  retry_available_at = retry_at hours attempts;
  retry_after_seconds = Option.map (λ t. (t - now + 999) / 1000) (retry_at hours attempts);
}

module _ (env : Env) (hours : ℕ) where
  open env use {client, find_first, find_many, count, create, update, order_by, decrypt}

  abbrev pub is_attempt_window_enabled : Bool
  is_attempt_window_enabled = ltb 0 hours

  -- The query of `getVerificationWindowState`. `Date.now() - window` is not negative.
  abbrev pub windowed_attempts : ℕ → ℕ → World → List IdVerification
  windowed_attempts user_id now w =
      order_by IdVerification (λ v. v.created_at)
        (find_many IdVerification (attempt_since user_id (now - window_ms hours))
          w.id_verifications)

  unfoldable pub get_verification_window_state : ℕ → ℕ → World → VerificationWindowState
  get_verification_window_state user_id now w =
      if is_attempt_window_enabled
      then state_of hours now (windowed_attempts user_id now w)
      else record {
        attempts_used = 0;
        attempts_remaining = max_attempts;
        retry_available_at = none;
        retry_after_seconds = none;
      }

  unfoldable pub enforce_attempt_limit : ℕ → ℕ → Handler (Unit {0})
  enforce_attempt_limit user_id now w =
      throw_if
        (is_attempt_window_enabled
          && leb max_attempts (get_verification_window_state user_id now w).attempts_used)
        (too_many_attempts hours) w

  abbrev pub lockout_of : VerificationWindowState → VerificationLockoutState
  lockout_of s = record {
    max_attempts = max_attempts;
    attempt_window_hours = hours;
    attempt_limit_enabled = is_attempt_window_enabled;
    retry_available_at = s.retry_available_at;
    retry_after_seconds = s.retry_after_seconds;
  }

  unfoldable pub get_next_attempt_number : ℕ → World → ℕ
  get_next_attempt_number user_id w =
      count IdVerification (λ v. v.user_id == user_id) w.id_verifications + 1
