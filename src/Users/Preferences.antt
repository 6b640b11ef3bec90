-- ===== src/Users/Preferences.antt =====
-- The invitation defaults of modules/users/users.service.ts (`getPreferences`, `updatePreferences`) and
-- modules/users/user-preferences.helper.ts.
pub mod Laws
pub mod Reads
pub mod Saved
use gracon_user_auth_service.Common.{
  ℕ, zero, suc, ◌+◌, ◌-◌, ◌*◌, ◌/◌, ◌%◌, ◌≤◌, ◌<◌, ◌≡◌, ◌≢◌, refl, sym, ap, subst, ◌∙◌, ◌⊎◌, ◌↔◌,
  inl, inr, arith, Bool, true, false, not, ◌&&◌, ◌||◌, Option, none, some, List, [], ◌∷◌, ◌++◌, map,
  String, str_eq, str_eq_iff, ltb, leb, ◌==◌, if◌then◌else◌, truthy, is_some, or_else, substring,
  ◌⁺⁺◌, trim, decimal, Bool-cases, Option-cases, All, length, find, select, update_where, take,
  drop, contains, ==_iff, ==_refl, &&-eq-true,
}
use gracon_user_auth_service.Platform.{
  IdentityType, nid, fin, TokenType, full, limited, User, CitizenIdentity, PlatformId,
  InvitePreference, no_verification, email_otp, identity_verification, UserPreference,
  EmailVerificationToken, PasswordResetToken, RefreshToken, IdVerification, SecurityEvent,
  login_success, login_failed, verification_passed, verification_failed, password_reset_requested,
  password_changed, sessions_revoked_by_user, revoked_token_reuse, rate_limit_exceeded,
  SecurityEventLog, Mail, verification_email, welcome_email, password_reset_email, Reply, accepted,
  rejected, and_then, Client, World, Exception, http, prisma, crash, bad_request, unauthorized,
  forbidden, not_found, conflict, internal_server_error, Outcome, ok, throws, Handler, pure, throw,
  lift, gets, ◌>>=◌, ◌>>◌, modify, throw_if, insert, Bucket, Env, Moment, JwtPayload,
}

-- `UpdateUserPreferencesDto`
pub record UpdateUserPreferencesDto : Type 0 where
  pub default_document_invite_verifications : Option (List InvitePreference)
  pub default_meeting_invite_verifications : Option (List InvitePreference)

-- `UserPreferencesResponseDto`
pub record UserPreferencesResponse : Type 0 where
  pub default_document_invite_verifications : List InvitePreference
  pub default_meeting_invite_verifications : List InvitePreference

abbrev pub place_of : InvitePreference → ℕ
place_of no_verification = 0
place_of email_otp = 1
place_of identity_verification = 2

abbrev pub same_preference : InvitePreference → InvitePreference → Bool
same_preference a b = place_of a == place_of b

-- `values.includes(preference)`
unfoldable pub includes : InvitePreference → List InvitePreference → Bool
includes p [] = false
includes p (x ∷ xs) = same_preference p x || includes p xs

-- `Array.from(new Set(values))`: the first of each, in order.
unfoldable pub distinct : List InvitePreference → List InvitePreference
distinct [] = []
distinct (x ∷ xs) = x ∷ select (λ y. not (same_preference x y)) (distinct xs)

abbrev pub cannot_combine : String → Exception
cannot_combine field_name =
    bad_request
      (field_name ⁺⁺ " cannot combine NO_VERIFICATION with EMAIL_OTP or IDENTITY_VERIFICATION.")

-- `normalizedValues`
unfoldable pub chosen : Option (List InvitePreference) → List InvitePreference
chosen none = no_verification ∷ []
chosen (some []) = no_verification ∷ []
chosen (some (x ∷ xs)) = distinct (x ∷ xs)

unfoldable pub normalized : List InvitePreference → String → Outcome (List InvitePreference)
normalized values field_name =
    let has_no_verification = includes no_verification values in
    if has_no_verification && ltb 1 (length values)
    then throws (cannot_combine field_name)
    else if has_no_verification
    then ok (no_verification ∷ [])
    else ok (select (λ p. includes p values) (email_otp ∷ identity_verification ∷ []))

unfoldable pub normalize_user_invite_verification_preferences :
    Option (List InvitePreference) → String → Outcome (List InvitePreference)
normalize_user_invite_verification_preferences values field_name =
    normalized (chosen values) field_name

abbrev pub document_field : String
document_field = "Document invitation defaults"

abbrev pub meeting_field : String
meeting_field = "Meeting invitation defaults"

-- The values of a row, if there is one.
abbrev pub document_values : Option UserPreference → Option (List InvitePreference)
document_values none = none
document_values (some p) = some p.default_document_invite_verifications

abbrev pub meeting_values : Option UserPreference → Option (List InvitePreference)
meeting_values none = none
meeting_values (some p) = some p.default_meeting_invite_verifications

-- `fromPrismaPreferenceValues` and `toPrismaPreferenceValues` only change the type of the values.
unfoldable pub format_user_preferences : Option UserPreference → Handler UserPreferencesResponse
format_user_preferences preferences = do
  documents ←
      lift (
        normalize_user_invite_verification_preferences (document_values preferences) document_field)
  meetings ←
      lift
        (normalize_user_invite_verification_preferences (meeting_values preferences) meeting_field)
  pure (record {
    default_document_invite_verifications = documents;
    default_meeting_invite_verifications = meetings;
  })

-- `a ?? b`, where `b` is the current value.
abbrev pub or_current :
    Option (List InvitePreference) → List InvitePreference → Option (List InvitePreference)
or_current none current = some current
or_current (some values) current = some values

module _ (env : Env) where
  open env use {find_first, upsert}

  abbrev pub preferences_of : ℕ → UserPreference → Bool
  preferences_of user_id p = p.user_id == user_id

  abbrev pub stored_preferences : ℕ → World → Option UserPreference
  stored_preferences user_id w =
      find_first UserPreference (preferences_of user_id) w.user_preferences

  unfoldable pub get_preferences : ℕ → Handler UserPreferencesResponse
  get_preferences user_id w = format_user_preferences (stored_preferences user_id w) w

  abbrev pub preference_row : ℕ → List InvitePreference → List InvitePreference → UserPreference
  preference_row user_id documents meetings = record {
    user_id = user_id;
    default_document_invite_verifications = documents;
    default_meeting_invite_verifications = meetings;
  }

  abbrev pub set_preferences :
      List InvitePreference → List InvitePreference → UserPreference → UserPreference
  set_preferences documents meetings p = record p {
    default_document_invite_verifications = documents;
    default_meeting_invite_verifications = meetings;
  }

  -- The `upsert`, which yields the row.
  unfoldable pub save_preferences :
      ℕ → List InvitePreference → List InvitePreference → Handler UserPreference
  save_preferences user_id documents meetings w =
      elim (upsert UserPreference (preferences_of user_id)
        (λ _. preference_row user_id documents meetings) (set_preferences documents meetings)
        w.user_preferences) [
          | accepted (saved, rows) ↦ (ok saved, record w { user_preferences = rows })
          | rejected code ↦ throw (prisma code) w
        ]

  unfoldable pub update_preferences : ℕ → UpdateUserPreferencesDto → Handler UserPreferencesResponse
  update_preferences user_id dto = do
    current ← get_preferences user_id
    documents ← lift (
        normalize_user_invite_verification_preferences
          (or_current dto.default_document_invite_verifications
            current.default_document_invite_verifications)
          document_field)
    meetings ← lift (
        normalize_user_invite_verification_preferences
          (or_current dto.default_meeting_invite_verifications
            current.default_meeting_invite_verifications)
          meeting_field)
    saved ← save_preferences user_id documents meetings
    format_user_preferences (some saved)
