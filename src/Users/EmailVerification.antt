-- ===== src/Users/EmailVerification.antt =====
-- `verifyEmail` and `resendVerificationEmail` of modules/users/users.service.ts. `logger` is left out;
-- the mailer swallows the failures of its transport.
pub mod Links
pub mod Renewal
pub mod Resend
use gracon_user_auth_service.Common.{
  ℕ, zero, suc, ◌+◌, ◌-◌, ◌*◌, ◌/◌, ◌%◌, ◌≤◌, ◌<◌, ◌≡◌, ◌≢◌, refl, sym, ap, subst, ◌∙◌, ◌⊎◌, ◌↔◌,
  inl, inr, arith, Bool, true, false, not, ◌&&◌, ◌||◌, Option, none, some, List, [], ◌∷◌, ◌++◌, map,
  String, str_eq, str_eq_iff, ltb, leb, ◌==◌, if◌then◌else◌, truthy, is_some, or_else, substring,
  ◌⁺⁺◌, trim, decimal, Bool-cases, Option-cases, All, length, find, select, update_where, take,
  drop, contains, ==_iff, ==_refl, &&-eq-true,
}
use gracon_user_auth_service.Platform.{
  IdentityType, nid, fin, TokenType, full, limited, User, CitizenIdentity, PlatformId,
  InvitePreference, no_verification, email_otp, identity_verification, UserPreference,
  EmailVerificationToken, PasswordResetToken, RefreshToken, IdVerification, SecurityEvent,
  login_success, login_failed, verification_passed, verification_failed, password_reset_requested,
  password_changed, sessions_revoked_by_user, revoked_token_reuse, rate_limit_exceeded,
  SecurityEventLog, Mail, verification_email, welcome_email, password_reset_email, Reply, accepted,
  rejected, and_then, Client, World, Exception, http, prisma, crash, bad_request, unauthorized,
  forbidden, not_found, conflict, internal_server_error, Outcome, ok, throws, Handler, pure, throw,
  gets, ◌>>=◌, ◌>>◌, modify, throw_if, insert, Bucket, Env, Moment, JwtPayload,
}
use gracon_user_auth_service.Users.Requests.{VerifyEmailDto, ResendVerificationDto, given}
use gracon_user_auth_service.Users.Access.{
  SafeUserProfile, find_by_id, find_by_email, identity_of, profile_of,
}
use gracon_user_auth_service.Users.Registration.Register.{
  verification_token_row, verification_token_expiry_ms, send_mail,
}
use gracon_user_auth_service.Auth.{AuthTokens, refresh_token_expiry_ms, owner}
use gracon_user_auth_service.PasswordReset.{sur_name_of, post_names_of}

-- The answer to `verifyEmail`; `session` is its `data`.
pub record VerifyEmailResult : Type 0 where
  pub message : String
  pub token_type : Option TokenType
  pub session : Option (AuthTokens × SafeUserProfile)

abbrev pub max_resend_per_hour : ℕ
max_resend_per_hour = 3

abbrev pub resend_response : String
resend_response =
    "If this email is registered and unverified, a new verification email has been sent."

abbrev pub already_verified : VerifyEmailResult
already_verified = record {
  message = "Email already verified. You can log in.";
  token_type = none;
  session = none;
}

-- The answer for an account whose identity is verified.
abbrev pub account_ready : VerifyEmailResult
account_ready = record {
  message = "Email verified successfully. Your account is ready. Please log in.";
  token_type = none;
  session = none;
}

abbrev pub token_of : ℕ → EmailVerificationToken → Bool
token_of user_id t = t.user_id == user_id

-- The tokens of an account since a time.
abbrev pub token_since : ℕ → ℕ → EmailVerificationToken → Bool
token_since user_id start t = t.user_id == user_id && leb start t.created_at

module _ (env : Env) where
  open env use {find_first, create, update, upsert, transaction, count, hash, decrypt, sign}

  -- `platformId?.pidEncrypted` of an account.
  abbrev pub platform_id_of : World → ℕ → Option PlatformId
  platform_id_of w id = find_first PlatformId (λ p. p.user_id == id) w.platform_ids

  abbrev pub decrypted_pid : Option PlatformId → String
  decrypted_pid none = ""
  decrypted_pid (some p) = decrypt p.pid_encrypted

  -- The row of `generatePostEmailVerificationTokens`, which names no address and no agent.
  abbrev pub limited_token : ℕ → Moment → ℕ → RefreshToken
  limited_token user_id at id = record {
    id = id;
    user_id = user_id;
    token_hash = hash at.random;
    token_type = limited;
    expires_at = at.now + refresh_token_expiry_ms;
    revoked = false;
    ip_address = none;
    user_agent = none;
  }

  unfoldable pub generate_post_email_verification_tokens : ℕ → String → Moment → Handler AuthTokens
  generate_post_email_verification_tokens user_id email at = do
    insert (λ w. create RefreshToken (limited_token user_id at) w.refresh_tokens)
        (λ rows w. record w { refresh_tokens = rows })
    pure (record {
      access_token = sign (record { sub = user_id; email = email; token_type = limited }) "2h";
      refresh_token = at.random;
      token_type = limited;
    })

  -- The two writes of the transaction.
  abbrev pub activated : ℕ → EmailVerificationToken → World → World
  activated user_id t w = record w {
    users =
        update User (λ u. u.id == user_id) (λ u. record u { is_verified = true; is_active = true })
          w.users;
    email_tokens =
        update EmailVerificationToken (λ r. r.id == t.id) (λ r. record r { used = true })
          w.email_tokens;
  }

  unfoldable pub activate_account : ℕ → EmailVerificationToken → Handler (Unit {0})
  activate_account user_id t w = elim (transaction World (accepted (activated user_id t w))) [
    | accepted w' ↦ (ok tt, w')
    | rejected code ↦ throw (prisma code) w
  ]

  -- After the activation: the welcome, and a limited session unless the identity is verified.
  unfoldable pub welcome :
      User → Option CitizenIdentity → Option PlatformId → Moment → Handler VerifyEmailResult
  welcome u identity pid at = do
    send_mail env
        (welcome_email u.email (sur_name_of identity) (post_names_of identity) (decrypted_pid pid))
    if u.is_id_verified
        then pure account_ready
        else (generate_post_email_verification_tokens u.id u.email at >>= λ tokens. pure (record {
          message = "Email verified successfully. Continue with identity verification.";
          token_type = some limited;
          session = some (tokens, profile_of env u identity u.image_url);
        }))

  -- The checks of a token of an account that is not verified, and what follows them.
  unfoldable pub use_verification_token :
      VerifyEmailDto
      → EmailVerificationToken
      → User
      → Option CitizenIdentity
      → Option PlatformId
      → Moment
      → Handler VerifyEmailResult
  use_verification_token dto t u identity pid at = do
    throw_if t.used
        (bad_request "This verification link has already been used. Please request a new one.")
    throw_if (ltb t.expires_at at.now)
        (bad_request "This verification link has expired. Please request a new one.")
    throw_if (not (hash dto.token == t.token_hash)) (bad_request "Invalid verification link")
    activate_account dto.user_id t
    welcome u identity pid at

  -- The account that a token's row refers to is included in the query.
  unfoldable pub verify_email : VerifyEmailDto → Moment → Handler VerifyEmailResult
  verify_email dto at w =
      elim (find_first EmailVerificationToken (token_of dto.user_id) w.email_tokens) [
        | none ↦ throw (bad_request "Invalid or expired verification link") w
        | some t ↦
            (owner env t.user_id >>= λ u.
            if u.is_verified
            then pure already_verified
            else use_verification_token dto t u (identity_of env w u.id) (platform_id_of w u.id) at)
              w
      ]

  -- The token of an account is replaced, or created. `createdAt` is reset.
  abbrev pub renew : Moment → EmailVerificationToken → EmailVerificationToken
  renew at t = record t {
    token_hash = hash at.random;
    expires_at = at.now + verification_token_expiry_ms;
    used = false;
    created_at = at.now;
  }

  unfoldable pub upsert_token : ℕ → Moment → Handler (Unit {0})
  upsert_token user_id at w =
      elim (upsert EmailVerificationToken (token_of user_id) (verification_token_row env user_id at)
        (renew at) w.email_tokens) [
          | accepted (_, rows) ↦ (ok tt, record w { email_tokens = rows })
          | rejected code ↦ throw (prisma code) w
        ]

  abbrev pub recent_token_count : ℕ → ℕ → World → ℕ
  recent_token_count user_id now w =
      count EmailVerificationToken (token_since user_id (now - 60 * 60 * 1000)) w.email_tokens

  unfoldable pub resend_to : User → Option CitizenIdentity → Moment → Handler String
  resend_to u identity at = do
    recent ← gets (recent_token_count u.id at.now)
    if leb max_resend_per_hour recent
        then pure resend_response
        else (upsert_token u.id at
            >> send_mail env (
                verification_email u.email (sur_name_of identity) (post_names_of identity) u.id
                  at.random)
            >> pure resend_response)

  -- `userLookup`, and the search by it.
  unfoldable pub lookup : ResendVerificationDto → World → Option User
  lookup dto w = elim dto.user_id [
    | some id ↦ find_by_id env id w
    | none ↦
        if given dto.email
        then find_first User (λ u. str_eq u.email (or_else dto.email "")) w.users
        else none
  ]

  unfoldable pub resend_verification_email : ResendVerificationDto → Moment → Handler String
  resend_verification_email dto at w = elim (lookup dto w) [
    | none ↦ pure resend_response w
    | some u ↦
        if u.is_verified then pure resend_response w else resend_to u (identity_of env w u.id) at w
  ]
