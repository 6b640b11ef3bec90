-- ===== src/Platform/Handling.antt =====
-- A request handler: it passes the state on and returns a value or throws. The state comes back
-- after a throw too, since what was written stays written.
use gracon_user_auth_service.Common.{ℕ, String, Bool, List, if◌then◌else◌}
use gracon_user_auth_service.Platform.Records.{
  User, CitizenIdentity, PlatformId, EmailVerificationToken, PasswordResetToken, RefreshToken,
  IdVerification, SecurityEventLog, Mail, UserPreference,
}
use gracon_user_auth_service.Platform.Database.{Reply, accepted, rejected}

-- The database, the messages handed to the mail transport, and the keys of the S3 bucket.
pub record World : Type 0 where
  pub users : List User
  pub citizen_identities : List CitizenIdentity
  pub platform_ids : List PlatformId
  pub email_tokens : List EmailVerificationToken
  pub reset_tokens : List PasswordResetToken
  pub refresh_tokens : List RefreshToken
  pub id_verifications : List IdVerification
  pub security_events : List SecurityEventLog
  pub user_preferences : List UserPreference
  pub mails : List Mail
  pub objects : List String

-- An HttpException with its status and message, an error of the database client with its code, or
-- any other error.
pub data Exception : Type 0 where
  http : ℕ → String → Exception
  prisma : String → Exception
  crash : String → Exception

abbrev pub bad_request : String → Exception
bad_request = http 400

abbrev pub unauthorized : String → Exception
unauthorized = http 401

abbrev pub forbidden : String → Exception
forbidden = http 403

abbrev pub not_found : String → Exception
not_found = http 404

abbrev pub conflict : String → Exception
conflict = http 409

abbrev pub internal_server_error : String → Exception
internal_server_error = http 500

pub data Outcome (A : Type 0) : Type 0 where
  ok : A → Outcome A
  throws : Exception → Outcome A

abbrev pub Handler : Type 0 → Type 0
Handler A = World → Outcome A × World

-- A sequence of writes that stops at the first refusal.
abbrev pub and_then : {A B : Type 0} → Reply A → (A → Reply B) → Reply B
and_then r f = elim r [ accepted a ↦ f a | rejected code ↦ rejected code ]

module _ {A : Type 0} where
  abbrev pub pure : A → Handler A
  pure a w = (ok a, w)

  abbrev pub throw : Exception → Handler A
  throw e w = (throws e, w)

  abbrev pub lift : Outcome A → Handler A
  lift r w = (r, w)

  abbrev pub gets : (World → A) → Handler A
  gets f w = (ok (f w), w)

infixl 5 ◌>>=◌ ◌>>◌
abbrev pub ◌>>=◌ : {A B : Type 0} → Handler A → (A → Handler B) → Handler B
◌>>=◌ m f w = let (r, w') = m w in elim r [ ok a ↦ f a w' | throws e ↦ (throws e, w') ]

abbrev pub ◌>>◌ : {A B : Type 0} → Handler A → Handler B → Handler B
m >> k = m >>= λ _. k

abbrev pub modify : (World → World) → Handler (Unit {0})
modify f w = (ok tt, f w)

-- `if (c) throw e`
abbrev pub throw_if : Bool → Exception → Handler (Unit {0})
throw_if c e w = (if c then throws e else ok tt, w)

-- An awaited write of one row: a refusal is thrown.
abbrev pub insert : {Row S : Type 0} → (World → Reply (Row × S)) → (S → World → World) → Handler Row
insert write put w = elim (write w) [
  | accepted (row, rows) ↦ (ok row, put rows w)
  | rejected code ↦ (throws (prisma code), w)
]
