-- ===== src/Tests/AuthCases.antt =====
-- The session operations on the fixture.
use gracon_user_auth_service.Common.{◌≡◌, refl, none, some, [], find, select}
use gracon_user_auth_service.Platform.{
  limited, User, RefreshToken, World, unauthorized, forbidden, ok, throws,
}
use gracon_user_auth_service.SecurityEvents.{log_rows}
use gracon_user_auth_service.Users.Access.{profile_of, resolve_profile_image_access}
use gracon_user_auth_service.Auth.{
  Origin, AuthTokens, LoginDto, LoginResult, login, authenticate, open_session, active_of,
  generate_tokens, revoke_all_user_tokens, refresh_tokens, build_safe_profile, upgrade_session,
  rotate_refresh_token, rotate_stored, upgrade_token, logout, logout_all_devices,
}
use gracon_user_auth_service.Auth.Login.{IsAdmitted, login-IsAdmitted}
use gracon_user_auth_service.Auth.Rotation.{
  by_hash, Rotates, refresh_tokens-eq-ok, refresh_tokens_once,
}
use gracon_user_auth_service.Tests.Fixture.{
  test_env, test_hash, fixture, amani, amani_token, world, moment, later,
}

auth : Unit {0}
unfolding login authenticate open_session generate_tokens revoke_all_user_tokens refresh_tokens
    upgrade_session rotate_refresh_token rotate_stored upgrade_token logout logout_all_devices
    fixture build_safe_profile log_rows profile_of resolve_profile_image_access
auth = tt

abbrev from : Origin
from = record { ip_address = "10.0.0.1"; user_agent = "test" }

abbrev right : LoginDto
right = record { email = "amani@example.rw"; password = "Secret!7" }

abbrev wrong : LoginDto
wrong = record { email = "amani@example.rw"; password = "guess" }

abbrev after_login : World
after_login = (login test_env right from moment world).1

logged_in : LoginResult
logged_in = record {
  message = "Please complete your identity verification to continue.";
  token_type = limited;
  access_token = "2h";
  refresh_token = "fresh";
  user = profile_of test_env amani none none;
}

login_runs : login test_env right from moment world ≡ (ok logged_in, after_login)
unfolding auth logged_in
login_runs = refl

-- The refusals, the events that they log, and a token that is presented twice.
refusals :
    ((login test_env wrong from moment world).0 ≡ throws (unauthorized "Invalid email or password"))
    × ((refresh_tokens test_env "unknown" from moment world).0
        ≡ throws (unauthorized "Invalid refresh token"))
    × ((upgrade_session test_env "old" from moment world).0
        ≡ throws
            (forbidden "Identity verification is required before this session can be upgraded."))
    × ((refresh_tokens test_env "old" from later
          (refresh_tokens test_env "old" from moment world).1).0
        ≡ throws (unauthorized "Refresh token has been revoked..."))
unfolding auth
refusals = (refl, refl, refl, refl)

refreshed : AuthTokens
refreshed = record { access_token = "2h"; refresh_token = "fresh"; token_type = limited }

abbrev after_refresh : World
after_refresh = (refresh_tokens test_env "old" from moment world).1

refresh_runs : refresh_tokens test_env "old" from moment world ≡ (ok refreshed, after_refresh)
unfolding auth refreshed
refresh_runs = refl

login-IsAdmitted_example : IsAdmitted test_env right from moment world logged_in after_login
login-IsAdmitted_example = login-IsAdmitted test_env right from moment world login_runs

refresh_tokens-eq-ok_example :
    (t : RefreshToken) × (u : User) × (find (by_hash (test_hash "old")) world.refresh_tokens
      ≡ some t)
    × Rotates test_env from moment t u refreshed world after_refresh
refresh_tokens-eq-ok_example = refresh_tokens-eq-ok test_env "old" from moment world refresh_runs

refresh_tokens_once_example :
    let (r, w') = refresh_tokens test_env "old" from later after_refresh in
    (r ≡ throws (unauthorized "Refresh token has been revoked..."))
    × (select (active_of 1) w'.refresh_tokens ≡ [])
unfolding fixture
refresh_tokens_once_example =
    refresh_tokens_once test_env "old" from from moment later world amani_token refl refresh_runs
