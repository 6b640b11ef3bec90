-- ===== src/Http.antt =====
-- The edge of the service: what a request carries, its origin (modules/auth/auth.controller.ts and
-- common/guards/throttler.guard.ts), CORS, the documentation's gate, the rate limits and the routes.
pub mod Cors
pub mod Docs
pub mod Uploads
pub mod Throttling
pub mod Handlers
pub mod Routes
use gracon_user_auth_service.Common.{
  ℕ, zero, suc, ◌+◌, ◌-◌, ◌*◌, ◌/◌, ◌%◌, ◌≤◌, ◌<◌, ◌≡◌, ◌≢◌, refl, sym, ap, subst, ◌∙◌, ◌⊎◌, ◌↔◌,
  inl, inr, arith, Bool, true, false, not, ◌&&◌, ◌||◌, Option, none, some, List, [], ◌∷◌, ◌++◌, map,
  String, str_eq, str_eq_iff, ltb, leb, ◌==◌, if◌then◌else◌, truthy, is_some, or_else, substring,
  ◌⁺⁺◌, trim, split, first_part, codes, starts_with, decimal, Bool-cases, Option-cases, All, length,
  find, select, update_where, take, drop, contains, ==_iff, ==_refl, &&-eq-true,
}
use gracon_user_auth_service.Platform.{
  IdentityType, nid, fin, TokenType, full, limited, User, CitizenIdentity, PlatformId,
  InvitePreference, no_verification, email_otp, identity_verification, UserPreference,
  EmailVerificationToken, PasswordResetToken, RefreshToken, IdVerification, SecurityEvent,
  login_success, login_failed, verification_passed, verification_failed, password_reset_requested,
  password_changed, sessions_revoked_by_user, revoked_token_reuse, rate_limit_exceeded,
  SecurityEventLog, Mail, verification_email, welcome_email, password_reset_email, Reply, accepted,
  rejected, and_then, Client, World, Exception, http, prisma, crash, bad_request, unauthorized,
  forbidden, not_found, conflict, internal_server_error, Outcome, ok, throws, Handler, pure, throw,
  gets, ◌>>=◌, ◌>>◌, modify, throw_if, insert, Bucket, Env, Moment, JwtPayload,
}
use gracon_user_auth_service.Auth.{Origin}

-- The header X-Forwarded-For: one text, or several.
pub data Forwarded : Type 0 where
  absent : Forwarded
  one : String → Forwarded
  several : List String → Forwarded

pub record Request : Type 0 where
  pub forwarded : Forwarded
  pub remote_address : Option String
  pub user_agent : Option String
  pub authorization : Option String
  pub origin : Option String
  pub path : String
  pub method : String

-- `req.socket.remoteAddress ?? 'unknown'`
abbrev pub peer : Request → String
peer req = or_else req.remote_address "unknown"

-- `extractIp`
unfoldable pub extract_ip : Request → Outcome String
unfolding split trim
extract_ip req = elim req.forwarded [
  | absent ↦ ok (peer req)
  | one s ↦ ok (trim (first_part (split b',' s)))
  | several _ ↦ throws (crash "split is not a function")
]

-- The address and the user agent that a handler of the auth controller passes on.
unfoldable pub origin_of : Request → Outcome Origin
unfolding extract_ip
origin_of req = elim (extract_ip req) [
  | throws e ↦ throws e
  | ok ip ↦ ok (record { ip_address = ip; user_agent = or_else req.user_agent "unknown" })
]

-- `getTracker`: the address that the rate limits count by.
unfoldable pub get_tracker : Request → Outcome String
unfolding split trim
get_tracker req = elim req.forwarded [
  | absent ↦ ok (peer req)
  | one s ↦ if truthy s then ok (trim (first_part (split b',' s))) else ok (peer req)
  | several [] ↦ throws (crash "Cannot read properties of undefined")
  | several (s ∷ _) ↦ ok (trim s)
]

-- The limiter and the session's origin name the same address whenever the header is missing, or is
-- one text that is not empty.
pub get_tracker-extract_ip :
    (req : Request) (s : String)
    → (req.forwarded ≡ absent) ⊎ ((req.forwarded ≡ one s) × (truthy s ≡ true))
    → get_tracker req ≡ extract_ip req
unfolding get_tracker extract_ip
get_tracker-extract_ip req s (inl e) = rw e refl
get_tracker-extract_ip req s (inr (e, filled)) = ground arith
