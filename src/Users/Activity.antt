-- ===== src/Users/Activity.antt =====
-- The tables of the activity feed in modules/users/users.service.ts, with the request and the answer of
-- modules/users/dto/user-activity.dto.ts.
pub mod Feed
pub mod Pages
use gracon_user_auth_service.Common.{
  ℕ, zero, suc, ◌+◌, ◌-◌, ◌*◌, ◌/◌, ◌%◌, ◌≤◌, ◌<◌, ◌≡◌, ◌≢◌, refl, sym, ap, subst, ◌∙◌, ◌⊎◌, ◌↔◌,
  inl, inr, arith, Bool, true, false, not, ◌&&◌, ◌||◌, Option, none, some, List, [], ◌∷◌, ◌++◌, map,
  String, str_eq, str_eq_iff, ltb, leb, ◌==◌, if◌then◌else◌, truthy, is_some, or_else, substring,
  ◌⁺⁺◌, trim, decimal, Bool-cases, Option-cases, All, length, find, select, update_where, take,
  drop, contains, ==_iff, ==_refl, &&-eq-true,
}
use gracon_user_auth_service.Common.{codes, to_lower, starts_with}
use gracon_user_auth_service.Platform.{
  IdentityType, nid, fin, TokenType, full, limited, User, CitizenIdentity, PlatformId,
  InvitePreference, no_verification, email_otp, identity_verification, UserPreference,
  EmailVerificationToken, PasswordResetToken, RefreshToken, IdVerification, SecurityEvent,
  login_success, login_failed, verification_passed, verification_failed, password_reset_requested,
  password_changed, sessions_revoked_by_user, revoked_token_reuse, rate_limit_exceeded,
  SecurityEventLog, Mail, verification_email, welcome_email, password_reset_email, Reply, accepted,
  rejected, and_then, Client, World, Exception, http, prisma, crash, bad_request, unauthorized,
  forbidden, not_found, conflict, internal_server_error, Outcome, ok, throws, Handler, pure, throw,
  gets, ◌>>=◌, ◌>>◌, modify, throw_if, insert, Bucket, Env, Moment, JwtPayload,
}

pub data Category : Type 0 where
  authentication verification account security : Category

pub data Tone : Type 0 where
  success warning danger neutral : Tone

pub data Order : Type 0 where
  newest oldest : Order

-- `UserActivityQueryDto`; no category is `ALL`.
pub record UserActivityQuery : Type 0 where
  pub page : Option ℕ
  pub page_size : Option ℕ
  pub category : Option Category
  pub order : Option Order
  pub search : Option String

pub record UserActivityPresentation : Type 0 where
  pub category : Category
  pub title : String
  pub description : String
  pub tone : Tone

pub record UserActivityItem : Type 0 where
  pub id : ℕ
  pub event_type : SecurityEvent
  pub presentation : UserActivityPresentation
  pub created_at : ℕ
  pub ip_address : Option String

pub record UserActivityResponse : Type 0 where
  pub items : List UserActivityItem
  pub page : ℕ
  pub page_size : ℕ
  pub total_items : ℕ
  pub total_pages : ℕ

-- `USER_ACTIVITY_PRESENTATION`
unfoldable pub user_activity_presentation : SecurityEvent → UserActivityPresentation
user_activity_presentation login_success = record {
  category = authentication;
  title = "Successful sign in";
  description = "Your account was accessed with a valid password and session.";
  tone = success;
}
user_activity_presentation login_failed = record {
  category = authentication;
  title = "Failed sign-in attempt";
  description = "A sign-in attempt for your account was rejected before a session was created.";
  tone = warning;
}
user_activity_presentation verification_passed = record {
  category = verification;
  title = "Identity verification passed";
  description = "Your identity verification challenge was completed successfully.";
  tone = success;
}
user_activity_presentation verification_failed = record {
  category = verification;
  title = "Identity verification failed";
  description = "An identity verification attempt did not pass the required checks.";
  tone = warning;
}
user_activity_presentation password_reset_requested = record {
  category = account;
  title = "Password reset requested";
  description = "A password reset email was requested for your account.";
  tone = neutral;
}
user_activity_presentation password_changed = record {
  category = account;
  title = "Password changed";
  description = "Your password was changed and existing sessions were revoked.";
  tone = success;
}
user_activity_presentation sessions_revoked_by_user = record {
  category = account;
  title = "Sessions revoked";
  description = "Active sessions were revoked from your account security controls.";
  tone = neutral;
}
user_activity_presentation revoked_token_reuse = record {
  category = security;
  title = "Revoked token reuse blocked";
  description = "A reused refresh token was detected and blocked by the auth service.";
  tone = danger;
}
user_activity_presentation rate_limit_exceeded = record {
  category = security;
  title = "Rate limit reached";
  description = "A protected action hit the account protection rate limit.";
  tone = warning;
}

-- `USER_ACTIVITY_EVENTS_BY_CATEGORY`
unfoldable pub user_activity_events_by_category : Category → List SecurityEvent
user_activity_events_by_category authentication = login_success ∷ login_failed ∷ []
user_activity_events_by_category verification = verification_passed ∷ verification_failed ∷ []
user_activity_events_by_category account =
    password_reset_requested ∷ password_changed ∷ sessions_revoked_by_user ∷ []
user_activity_events_by_category security = revoked_token_reuse ∷ rate_limit_exceeded ∷ []

-- `Object.values(SecurityEvent)`
abbrev pub all_events : List SecurityEvent
all_events =
    login_success ∷ login_failed ∷ verification_passed ∷ verification_failed
    ∷ password_reset_requested ∷ password_changed ∷ sessions_revoked_by_user ∷ revoked_token_reuse
    ∷ rate_limit_exceeded ∷ []

-- The codes of the events, and their places in the list.
abbrev pub code_of : SecurityEvent → String
code_of login_success = "LOGIN_SUCCESS"
code_of login_failed = "LOGIN_FAILED"
code_of verification_passed = "VERIFICATION_PASSED"
code_of verification_failed = "VERIFICATION_FAILED"
code_of password_reset_requested = "PASSWORD_RESET_REQUESTED"
code_of password_changed = "PASSWORD_CHANGED"
code_of sessions_revoked_by_user = "SESSIONS_REVOKED_BY_USER"
code_of revoked_token_reuse = "REVOKED_TOKEN_REUSE"
code_of rate_limit_exceeded = "RATE_LIMIT_EXCEEDED"

abbrev pub number_of : SecurityEvent → ℕ
number_of login_success = 0
number_of login_failed = 1
number_of verification_passed = 2
number_of verification_failed = 3
number_of password_reset_requested = 4
number_of password_changed = 5
number_of sessions_revoked_by_user = 6
number_of revoked_token_reuse = 7
number_of rate_limit_exceeded = 8

abbrev pub category_text : Category → String
category_text authentication = "authentication"
category_text verification = "verification"
category_text account = "account"
category_text security = "security"
