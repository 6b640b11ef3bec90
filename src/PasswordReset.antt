-- ===== src/PasswordReset.antt =====
-- modules/auth/password-reset.service.ts: a reset link is asked for, looked at and used. The bcrypt
-- run of an unknown address only costs time and is left out, as is `logger`.
pub mod Request
pub mod Links
pub mod RoundTrip
use gracon_user_auth_service.Common.{
  ℕ, zero, suc, ◌+◌, ◌-◌, ◌*◌, ◌/◌, ◌%◌, ◌≤◌, ◌<◌, ◌≡◌, ◌≢◌, refl, sym, ap, ◌∙◌, ◌⊎◌, ◌↔◌, inl, inr,
  arith, Bool, true, false, not, ◌&&◌, ◌||◌, Option, none, some, List, [], ◌∷◌, ◌++◌, map, String,
  str_eq, str_eq_iff, ltb, leb, ◌==◌, if◌then◌else◌, truthy, is_some, or_else, substring,
  Bool-cases, Option-cases, All, length, find, select, update_where, take, drop, contains, ==_iff,
  ==_refl, &&-eq-true,
}
use gracon_user_auth_service.Platform.{
  IdentityType, nid, fin, TokenType, full, limited, User, CitizenIdentity, PlatformId,
  EmailVerificationToken, PasswordResetToken, RefreshToken, IdVerification, SecurityEvent,
  login_success, login_failed, verification_passed, verification_failed, password_reset_requested,
  password_changed, sessions_revoked_by_user, revoked_token_reuse, rate_limit_exceeded,
  SecurityEventLog, Mail, verification_email, welcome_email, password_reset_email, Reply, accepted,
  rejected, Client, World, Exception, http, prisma, crash, bad_request, unauthorized, forbidden,
  not_found, conflict, internal_server_error, Outcome, ok, throws, Handler, pure, throw, gets,
  ◌>>=◌, ◌>>◌, modify, throw_if, insert, Bucket, Env, Moment, JwtPayload,
}
use gracon_user_auth_service.SecurityEvents.{log}
use gracon_user_auth_service.Users.Access.{find_by_email}

pub record ResetPasswordDto : Type 0 where
  pub user_id : ℕ
  pub token : String
  pub new_password : String
  pub confirm_password : String

-- The result of `findValidToken`: the record, or the reason.
pub data TokenLookup : Type 0 where
  valid : PasswordResetToken → TokenLookup
  invalid : String → TokenLookup

abbrev pub token_expiry_ms : ℕ
token_expiry_ms = 60 * 60 * 1000

abbrev pub safe_response : String
safe_response = "If an account with this email exists, a password reset link has been sent."

abbrev pub reset_done : String
reset_done = "Your password has been reset successfully. Please log in with your new password."

abbrev pub unused_of : ℕ → PasswordResetToken → Bool
unused_of user_id t = t.user_id == user_id && not t.used

abbrev pub use_token : PasswordResetToken → PasswordResetToken
use_token t = record t { used = true }

abbrev pub sur_name_of : Option CitizenIdentity → String
sur_name_of none = ""
sur_name_of (some c) = c.sur_name

abbrev pub post_names_of : Option CitizenIdentity → String
post_names_of none = ""
post_names_of (some c) = c.post_names

module _ (env : Env) where
  open env use {client, find_first, create, update, update_many, transaction, hash, bcrypt_hash}

  -- The row that `requestReset` creates.
  abbrev pub reset_row : ℕ → Moment → ℕ → PasswordResetToken
  reset_row user_id at id = record {
    id = id;
    user_id = user_id;
    token_hash = hash at.random;
    expires_at = at.now + token_expiry_ms;
    used = false;
  }

  -- The new token; a refused write is reported as an internal error.
  unfoldable pub create_reset_token : ℕ → Moment → Handler (Unit {0})
  create_reset_token user_id at w =
      elim (create PasswordResetToken (reset_row user_id at) w.reset_tokens) [
        | accepted (_, rows) ↦ (ok tt, record w { reset_tokens = rows })
        | rejected _ ↦
            throw (internal_server_error "Failed to process reset request. Please try again.") w
      ]

  -- What `requestReset` does for an active account.
  unfoldable pub send_reset_link : User → Option CitizenIdentity → Moment → Handler String
  send_reset_link u identity at = do
    modify λ w. record w {
      reset_tokens = update_many PasswordResetToken (unused_of u.id) use_token w.reset_tokens;
    }
    create_reset_token u.id at
    modify λ w. record w {
      mails =
          w.mails
          ++ password_reset_email u.email (sur_name_of identity) (post_names_of identity) u.id
              at.random
            ∷ [];
    }
    log client password_reset_requested (some u.id) none at.now
    pure safe_response

  unfoldable pub request_reset : String → Moment → Handler String
  request_reset email at = do
    found ← gets (find_by_email env email)
    elim found [
      | none ↦ pure safe_response
      | some (u, identity) ↦
          if u.is_active then send_reset_link u identity at else pure safe_response
    ]

  unfoldable pub find_valid_token : ℕ → String → ℕ → World → TokenLookup
  find_valid_token user_id token now w =
      elim (find_first PasswordResetToken (λ t. t.user_id == user_id && t.token_hash == hash token)
        w.reset_tokens) [
          | none ↦ invalid "Invalid or expired reset link. Please request a new one."
          | some t ↦
              if t.used
              then invalid "This reset link has already been used. Please request a new one."
              else if ltb t.expires_at now
              then invalid
                  "This reset link has expired. Links are valid for 1 hour. Please request a new one."
              else valid t
        ]

  unfoldable pub validate_reset_token : ℕ → String → ℕ → World → Bool × String
  validate_reset_token user_id token now w = elim (find_valid_token user_id token now w) [
    | valid _ ↦ (true, "Token is valid.")
    | invalid reason ↦ (false, reason)
  ]

  -- The three writes of the transaction.
  abbrev pub reset_state : ℕ → PasswordResetToken → String → World → World
  reset_state user_id t password_hash w = record w {
    users =
        update User (λ u. u.id == user_id) (λ u. record u { password_hash = password_hash })
          w.users;
    reset_tokens = update PasswordResetToken (λ r. r.id == t.id) use_token w.reset_tokens;
    refresh_tokens =
        update_many RefreshToken (λ r. r.user_id == user_id && not r.revoked)
          (λ r. record r { revoked = true }) w.refresh_tokens;
  }

  unfoldable pub commit_reset : ℕ → PasswordResetToken → String → Handler (Unit {0})
  commit_reset user_id t password_hash w =
      elim (transaction World (accepted (reset_state user_id t password_hash w))) [
        | accepted w' ↦ (ok tt, w')
        | rejected code ↦ throw (prisma code) w
      ]

  unfoldable pub reset_password : ResetPasswordDto → Moment → Handler String
  reset_password dto at = do
    throw_if (not (str_eq dto.new_password dto.confirm_password))
        (bad_request "Passwords do not match.")
    lookup ← gets (find_valid_token dto.user_id dto.token at.now)
    elim lookup [
      | invalid reason ↦ throw (bad_request reason)
      | valid t ↦
          commit_reset dto.user_id t (bcrypt_hash at.salt dto.new_password)
          >> log client password_changed (some dto.user_id) none at.now
          >> pure reset_done
    ]
