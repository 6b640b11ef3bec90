-- ===== src/Tests/ProfileCases.antt =====
-- Passwords, profiles, the activity feed, the defaults, the guard, the cleanup and the filters on the
-- fixture.
use gracon_user_auth_service.Common.{
  ℕ, ◌≡◌, refl, arith, true, false, none, some, [], ◌∷◌, map, String,
}
use gracon_user_auth_service.Platform.{
  nid, limited, User, no_verification, email_otp, identity_verification, RefreshToken,
  SecurityEvent, login_success, login_failed, SecurityEventLog, World, unauthorized, Outcome, ok,
  throws,
}
use gracon_user_auth_service.SecurityEvents.{log_rows}
use gracon_user_auth_service.Storage.{
  ImageFile, validate_file, mime_to_extension, upload_to_s3, build_profile_image_key,
  upload_profile_image, without_object,
}
use gracon_user_auth_service.Auth.{
  Origin, refresh_tokens, rotate_refresh_token, rotate_stored, generate_tokens,
}
use gracon_user_auth_service.Users.Requests.{UpdateProfileDto, ChangePasswordDto}
use gracon_user_auth_service.Users.Access.{
  is_web_url, get_presigned_url, resolve_profile_image_access,
}
use gracon_user_auth_service.Users.EmailVerification.{upsert_token}
use gracon_user_auth_service.Users.Password.{
  commit_change, replace_password, change_password, Changes, change_password_throws, FailsOrLogs,
}
use gracon_user_auth_service.Users.Profile.{
  Profile, get_profile, apply_update, update_account, update_profile, replace_image, upload_image,
}
use gracon_user_auth_service.Users.Profile.Changes.{update_profile-refresh_tokens}
use gracon_user_auth_service.Users.Activity.{UserActivityQuery}
use gracon_user_auth_service.Users.Activity.Feed.{item_of, feed, get_activity}
use gracon_user_auth_service.Users.Activity.Pages.{first_pages, first_pages-feed}
use gracon_user_auth_service.Users.Preferences.{
  UpdateUserPreferencesDto, UserPreferencesResponse, includes, distinct, chosen, normalized,
  normalize_user_invite_verification_preferences, format_user_preferences, get_preferences,
  save_preferences, update_preferences,
}
use gracon_user_auth_service.Users.Preferences.Reads.{Saves}
use gracon_user_auth_service.Users.Preferences.Saved.{update_preferences-Saves}
use gracon_user_auth_service.Guards.{
  Claims, RequestUser, any_token, validate, admit, handle_request, guard,
}
use gracon_user_auth_service.Cleanup.{cleanup_expired_tokens, cleanup_forgets}
use gracon_user_auth_service.Tests.Fixture.{
  test_env, fixture, amani, amani_token, world, moment, later,
}

accounts : Unit {0}
unfolding log_rows validate_file mime_to_extension upload_to_s3 build_profile_image_key
    upload_profile_image without_object refresh_tokens rotate_refresh_token rotate_stored
    generate_tokens is_web_url get_presigned_url resolve_profile_image_access upsert_token
    commit_change replace_password change_password get_profile apply_update update_account
    update_profile replace_image upload_image includes distinct chosen normalized
    normalize_user_invite_verification_preferences format_user_preferences get_preferences
    save_preferences update_preferences validate admit handle_request guard cleanup_expired_tokens
    fixture
accounts = tt

abbrev new_password : ChangePasswordDto
new_password = record {
  current_password = "Secret!7";
  new_password = "Better!8";
  confirm_new_password = "Better!8";
}

abbrev changed : Outcome String × World
changed = change_password test_env 1 new_password moment world

-- The old password, after the change.
wrong_runs :
    change_password test_env 1 new_password moment changed.1
    ≡ (throws (unauthorized "Current password is incorrect"), changed.1)
unfolding accounts
wrong_runs = refl

change_password_throws_example :
    FailsOrLogs test_env 1 new_password moment changed.1
      (unauthorized "Current password is incorrect")
      changed.1
change_password_throws_example =
    change_password_throws test_env 1 new_password moment changed.1 wrong_runs

abbrev new_address : UpdateProfileDto
new_address = record { email = some "keza@example.rw"; phone_number = some "0780000000" }

abbrev updated : Outcome Profile × World
updated = update_profile test_env 1 new_address moment world

abbrev profile : Profile
profile = record {
  id = 1;
  email = "keza@example.rw";
  phone_number = some "0780000000";
  is_verified = false;
  is_active = false;
  is_id_verified = false;
  id_verified_at = none;
  created_at = 1000;
  platform_id = none;
  identity_type = nid;
  fin = none;
  profile_image_url = none;
  profile_image_expires_at = none;
  citizen_identity = none;
}

update_runs : updated ≡ (ok profile, updated.1)
unfolding accounts
update_runs = refl

abbrev keza : User
keza = record amani { id = 2; email = "keza@example.rw" }

abbrev shared : World
shared = record world { users = amani ∷ keza ∷ [] }

abbrev origin : Origin
origin = record { ip_address = "::1"; user_agent = "curl" }

update_profile-refresh_tokens_example :
    refresh_tokens test_env "old" origin later updated.1
    ≡ (throws (unauthorized "Account is not active. Please contact support."), updated.1)
unfolding fixture
update_profile-refresh_tokens_example =
    update_profile-refresh_tokens test_env 1 new_address moment later world amani "old" origin
      amani_token refl refl update_runs refl refl refl (omega arith)

abbrev pictured : World
pictured = record world {
  users = record amani { image_url = some "img/1/aa.png" } ∷ [];
  objects = "img/1/aa.png" ∷ [];
}

abbrev photo : ImageFile
photo = record { has_buffer = true; mimetype = "image/webp"; size = 2000 }

abbrev replaced : Outcome (String × ℕ) × World
replaced = upload_image test_env "img" 1 photo "bb" 5000 pictured

replace_runs : replaced ≡ (ok ("img/1/bb.webp", 3605000), replaced.1)
unfolding accounts
replace_runs = refl

abbrev event : ℕ → SecurityEvent → ℕ → SecurityEventLog
event n kind time = record {
  id = n;
  event_type = kind;
  user_id = some 1;
  ip_address = none;
  created_at = time;
}

abbrev active_world : World
active_world = record world {
  security_events =
      event 0 login_failed 10 ∷ event 1 login_success 20 ∷ event 2 login_success 30 ∷ [];
}

abbrev two_a_page : UserActivityQuery
two_a_page = record {
  page = none;
  page_size = some 2;
  category = none;
  order = none;
  search = none;
}

first_pages-feed_example :
    first_pages test_env 1 two_a_page active_world
      (get_activity test_env 1 two_a_page active_world).total_pages
    ≡ map item_of (feed test_env 1 two_a_page active_world)
first_pages-feed_example = first_pages-feed test_env 1 two_a_page active_world (omega arith)

abbrev gates : UpdateUserPreferencesDto
gates = record {
  default_document_invite_verifications = some (identity_verification ∷ email_otp ∷ email_otp ∷ []);
  default_meeting_invite_verifications = none;
}

abbrev saved_gates : UserPreferencesResponse
saved_gates = record {
  default_document_invite_verifications = email_otp ∷ identity_verification ∷ [];
  default_meeting_invite_verifications = no_verification ∷ [];
}

abbrev saved : Outcome UserPreferencesResponse × World
saved = update_preferences test_env 1 gates world

save_runs : saved ≡ (ok saved_gates, saved.1)
unfolding accounts
save_runs = refl

update_preferences-Saves_example : Saves test_env 1 gates world saved_gates saved.1
update_preferences-Saves_example = update_preferences-Saves test_env 1 gates world save_runs

abbrev claims : Claims
claims = record { sub = 1; token_type = some limited }

abbrev request_user : RequestUser
request_user = record { user_id = 1; email = "amani@example.rw"; token_type = limited }

guard_runs : guard test_env claims (some any_token) world ≡ ok request_user
unfolding accounts
guard_runs = refl

abbrev revoked_token : RefreshToken
revoked_token = record amani_token { revoked = true }

abbrev stale : World
stale = record world { refresh_tokens = revoked_token ∷ [] }

abbrev cleaned : World
cleaned = cleanup_expired_tokens test_env 5000 stale

cleanup_forgets_example :
    refresh_tokens test_env "old" origin later cleaned
    ≡ (throws (unauthorized "Invalid refresh token"), cleaned)
unfolding fixture
cleanup_forgets_example =
    cleanup_forgets test_env 5000 stale "old" revoked_token origin later refl refl
