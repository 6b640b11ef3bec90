-- ===== src/Auth.antt =====
-- modules/auth/auth.service.ts: login, the rotation of refresh tokens, and logout. `Date.now()` is
-- read once for each call, and `logger` and the JWT secret are left out.
pub mod Tokens
pub mod Login
pub mod Rotation
pub mod Sound
pub mod Sessions
pub mod Histories
pub mod SingleFlight
pub mod SharedRefresh
use gracon_user_auth_service.Common.{
  ℕ, ◌+◌, ◌*◌, String, Bool, true, false, not, ◌&&◌, Option, none, some, ◌==◌, substring, ltb,
  if◌then◌else◌,
}
use gracon_user_auth_service.Platform.{
  User, CitizenIdentity, RefreshToken, TokenType, full, limited, login_success, login_failed,
  revoked_token_reuse, sessions_revoked_by_user, World, Handler, pure, throw, throw_if, gets,
  modify, insert, unauthorized, forbidden, crash, Env, Moment, ◌>>=◌, ◌>>◌,
}
use gracon_user_auth_service.SecurityEvents.{log}
use gracon_user_auth_service.Users.Access.{
  SafeUserProfile, find_by_email, find_by_id, resolve_profile_image_access, profile_of,
}

pub record AuthTokens : Type 0 where
  pub access_token : String
  pub refresh_token : String
  pub token_type : TokenType

pub record LoginDto : Type 0 where
  pub email : String
  pub password : String

pub record LoginResult : Type 0 where
  pub message : String
  pub token_type : TokenType
  pub access_token : String
  pub refresh_token : String
  pub user : SafeUserProfile

-- The caller's address and user agent.
pub record Origin : Type 0 where
  pub ip_address : String
  pub user_agent : String

abbrev pub access_token_expiry : TokenType → String
access_token_expiry limited = "2h"
access_token_expiry full = "15m"

abbrev pub refresh_token_expiry_ms : ℕ
refresh_token_expiry_ms = 30 * 24 * 60 * 60 * 1000

abbrev pub is_limited : TokenType → Bool
is_limited limited = true
is_limited full = false

abbrev pub login_token_type : User → TokenType
login_token_type u = if u.is_id_verified then full else limited

abbrev login_message : User → String
login_message u =
    if u.is_id_verified
    then "Login successful"
    else "Please complete your identity verification to continue."

abbrev pub active_of : ℕ → RefreshToken → Bool
active_of user_id t = t.user_id == user_id && not t.revoked

abbrev pub active_limited_of : ℕ → RefreshToken → Bool
active_limited_of user_id t = t.user_id == user_id && (is_limited t.token_type && not t.revoked)

abbrev pub rotated_type : User → TokenType → TokenType
rotated_type u current = if u.is_id_verified && is_limited current then full else current

module _ (env : Env) where
  open env use {client, find_first, create, update, update_many, hash, bcrypt_compare, sign}

  -- The row that `generateTokens` creates.
  abbrev pub issued : ℕ → TokenType → Origin → Moment → ℕ → RefreshToken
  issued user_id token_type from at id = record {
    id = id;
    user_id = user_id;
    token_hash = hash at.random;
    token_type = token_type;
    expires_at = at.now + refresh_token_expiry_ms;
    revoked = false;
    ip_address = some from.ip_address;
    user_agent = some (substring 512 from.user_agent);
  }

  unfoldable pub generate_tokens : ℕ → String → Origin → TokenType → Moment → Handler AuthTokens
  generate_tokens user_id email from token_type at = do
    insert (λ w. create RefreshToken (issued user_id token_type from at) w.refresh_tokens)
        (λ rows w. record w { refresh_tokens = rows })
    pure (record {
      access_token =
          sign (record { sub = user_id; email = email; token_type = token_type })
            (access_token_expiry token_type);
      refresh_token = at.random;
      token_type = token_type;
    })

  unfoldable pub build_safe_profile : User → Option CitizenIdentity → ℕ → Handler SafeUserProfile
  build_safe_profile u identity now = do
    image ← resolve_profile_image_access env u.image_url now
    pure (profile_of env u identity image.url)

  -- Gates 1 and 2. An unknown address is compared with a dummy hash, whose result is not used.
  unfoldable pub authenticate :
      LoginDto
      → Origin
      → ℕ
      → Option (User × Option CitizenIdentity)
      → Handler (User × Option CitizenIdentity)
  authenticate dto from now none = do
    log client login_failed none (some from.ip_address) now
    throw (unauthorized "Invalid email or password")
  authenticate dto from now (some (u, identity)) =
      if bcrypt_compare dto.password u.password_hash then pure (u, identity) else do
        log client login_failed (some u.id) (some from.ip_address) now
        throw (unauthorized "Invalid email or password")

  -- Gate 5 and what follows: the limited and the full branch differ in the token and the message.
  unfoldable pub open_session :
      User → Option CitizenIdentity → Origin → Moment → Handler LoginResult
  open_session u identity from at = do
    tokens ← generate_tokens u.id u.email from (login_token_type u) at
    profile ← build_safe_profile u identity at.now
    pure (record {
      message = login_message u;
      token_type = login_token_type u;
      access_token = tokens.access_token;
      refresh_token = tokens.refresh_token;
      user = profile;
    })

  unfoldable pub login : LoginDto → Origin → Moment → Handler LoginResult
  login dto from at = do
    found ← gets (find_by_email env dto.email)
    account ← authenticate dto from at.now found
    log client login_success (some account.0.id) (some from.ip_address) at.now
    throw_if (not account.0.is_verified) (
        forbidden
          "Please verify your email address before logging in. Check your inbox for the verification link.")
    throw_if (not account.0.is_active)
        (forbidden "Your account is not active. Please contact support.")
    open_session account.0 account.1 from at

  -- `updateMany({ where, data: { revoked: true } })`
  abbrev pub revoke_rows : (RefreshToken → Bool) → World → World
  revoke_rows p w = record w {
    refresh_tokens = update_many RefreshToken p (λ t. record t { revoked = true }) w.refresh_tokens;
  }

  unfoldable pub revoke_all_user_tokens : ℕ → Handler (Unit {0})
  revoke_all_user_tokens user_id = modify (revoke_rows (active_of user_id))

  -- `storedToken`, with the account that it includes.
  abbrev pub stored_token : ℕ → World → Option RefreshToken
  stored_token token_hash w =
      find_first RefreshToken (λ t. t.token_hash == token_hash) w.refresh_tokens

  -- The account of a stored token; the database keeps the reference.
  abbrev pub owner : ℕ → Handler User
  owner id w = elim (find_by_id env id w) [
    | none ↦ throw (crash "Cannot read properties of null") w
    | some u ↦ pure u w
  ]

  unfoldable pub rotate_stored : RefreshToken → Origin → Bool → Moment → Handler AuthTokens
  rotate_stored t from require_full at =
      if t.revoked
      then (revoke_all_user_tokens t.user_id
          >> log client revoked_token_reuse (some t.user_id) (some from.ip_address) at.now
          >> throw (unauthorized "Refresh token has been revoked..."))
      else do
        throw_if (ltb t.expires_at at.now)
            (unauthorized "Refresh token has expired. Please log in again.")
        u ← owner t.user_id
        throw_if (not u.is_active) (unauthorized "Account is not active. Please contact support.")
        throw_if (require_full && not u.is_id_verified)
            (forbidden "Identity verification is required before this session can be upgraded.")
        modify λ w. record w {
          refresh_tokens =
              update RefreshToken (λ r. r.id == t.id) (λ r. record r { revoked = true })
                w.refresh_tokens;
        }
        generate_tokens u.id u.email from (rotated_type u t.token_type) at

  unfoldable pub rotate_refresh_token : ℕ → Origin → Bool → Moment → Handler AuthTokens
  rotate_refresh_token token_hash from require_full at w = elim (stored_token token_hash w) [
    | none ↦ throw (unauthorized "Invalid refresh token") w
    | some t ↦ rotate_stored t from require_full at w
  ]

  -- `refreshTokens`, where no other refresh of the same token is pending.
  unfoldable pub refresh_tokens : String → Origin → Moment → Handler AuthTokens
  refresh_tokens token from at = rotate_refresh_token (hash token) from false at

  unfoldable pub upgrade_session : String → Origin → Moment → Handler AuthTokens
  upgrade_session token from at = do
    tokens ← rotate_refresh_token (hash token) from true at
    throw_if (is_limited tokens.token_type)
        (forbidden "Identity verification is required before this session can be upgraded.")
    pure tokens

  unfoldable pub upgrade_token : ℕ → Origin → Moment → Handler AuthTokens
  upgrade_token user_id from at = do
    modify (revoke_rows (active_limited_of user_id))
    found ← gets (find_by_id env user_id)
    elim found [
      | none ↦ throw (crash "User not found")
      | some u ↦ generate_tokens u.id u.email from full at
    ]

  unfoldable pub logout : String → Handler (Unit {0})
  logout token = modify (revoke_rows (λ t. t.token_hash == hash token && not t.revoked))

  unfoldable pub logout_all_devices : ℕ → ℕ → Handler (Unit {0})
  logout_all_devices user_id now = do
    revoke_all_user_tokens user_id
    log client sessions_revoked_by_user (some user_id) none now
