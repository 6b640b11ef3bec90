-- ===== src/Platform/Records.antt =====
-- The rows that the services keep, with the columns that the source reads or writes
-- (modules/users/users.service.ts, modules/auth/auth.service.ts,
-- modules/auth/password-reset.service.ts, modules/verification/verification.service.ts,
-- common/security/security-event.service.ts). Times are milliseconds since the epoch; ids and
-- SHA-256 digests are only compared, so they are numbers; the engine's scores are only copied.
use gracon_user_auth_service.Common.{ℕ, String, Bool, Option, List}

pub data IdentityType : Type 0 where
  nid fin : IdentityType

pub data TokenType : Type 0 where
  full limited : TokenType

pub record User : Type 0 where
  pub id : ℕ
  pub email : String
  pub phone_number : Option String
  pub password_hash : String
  pub image_url : Option String
  pub is_verified : Bool
  pub is_active : Bool
  pub is_id_verified : Bool
  pub id_verified_at : Option ℕ
  pub verification_attempts : ℕ
  pub created_at : ℕ

pub record CitizenIdentity : Type 0 where
  pub user_id : ℕ
  pub identity_type : IdentityType
  pub nid_encrypted : Option String
  pub nid_hash : Option ℕ
  pub fin_encrypted : Option String
  pub fin_hash : Option ℕ
  pub sur_name : String
  pub post_names : String
  pub sex : String
  pub date_of_birth : ℕ
  pub country_of_birth : String

pub record PlatformId : Type 0 where
  pub user_id : ℕ
  pub pid_encrypted : String
  pub pid_hash : ℕ

pub record EmailVerificationToken : Type 0 where
  pub id : ℕ
  pub user_id : ℕ
  pub token_hash : ℕ
  pub expires_at : ℕ
  pub used : Bool
  pub created_at : ℕ

pub record PasswordResetToken : Type 0 where
  pub id : ℕ
  pub user_id : ℕ
  pub token_hash : ℕ
  pub expires_at : ℕ
  pub used : Bool

pub record RefreshToken : Type 0 where
  pub id : ℕ
  pub user_id : ℕ
  pub token_hash : ℕ
  pub token_type : TokenType
  pub expires_at : ℕ
  pub revoked : Bool
  pub ip_address : Option String
  pub user_agent : Option String

pub record IdVerification : Type 0 where
  pub user_id : ℕ
  pub attempt_number : ℕ
  pub document_match : Bool
  pub face_score : ℕ
  pub liveness_score : ℕ
  pub composite_score : ℕ
  pub passed : Bool
  pub fail_reason : Option String
  pub ip_address : String
  pub created_at : ℕ

-- `UserInviteVerificationPreference`, and the row of the invitation defaults of an account.
pub data InvitePreference : Type 0 where
  no_verification email_otp identity_verification : InvitePreference

pub record UserPreference : Type 0 where
  pub user_id : ℕ
  pub default_document_invite_verifications : List InvitePreference
  pub default_meeting_invite_verifications : List InvitePreference

-- The members in the order in which the presentation table of users.service.ts lists them.
pub data SecurityEvent : Type 0 where
  login_success login_failed : SecurityEvent
  verification_passed verification_failed : SecurityEvent
  password_reset_requested password_changed sessions_revoked_by_user : SecurityEvent
  revoked_token_reuse rate_limit_exceeded : SecurityEvent

-- A logged event; its free-form metadata is left out.
pub record SecurityEventLog : Type 0 where
  pub id : ℕ
  pub event_type : SecurityEvent
  pub user_id : Option ℕ
  pub ip_address : Option String
  pub created_at : ℕ

-- The messages that common/mailer/mailer.service.ts hands to the mail transport.
pub data Mail : Type 0 where
  verification_email : (to sur_name post_names : String) (user_id : ℕ) (token : String) → Mail
  welcome_email : (to sur_name post_names platform_id : String) → Mail
  password_reset_email : (to sur_name post_names : String) (user_id : ℕ) (token : String) → Mail
