-- ===== src/Tests/ResetCases.antt =====
-- A reset link on the fixture: asked for, checked, used, and used again.
use gracon_user_auth_service.Common.{◌≡◌, refl, true, false, some, find}
use gracon_user_auth_service.Platform.{User, World, bad_request, ok, throws}
use gracon_user_auth_service.SecurityEvents.{log_rows}
use gracon_user_auth_service.Auth.Login.{by_email}
use gracon_user_auth_service.PasswordReset.{
  ResetPasswordDto, safe_response, reset_done, create_reset_token, send_reset_link, request_reset,
  find_valid_token, validate_reset_token, commit_reset, reset_password,
}
use gracon_user_auth_service.PasswordReset.Request.{SendsLink, request_reset-SendsLink}
use gracon_user_auth_service.PasswordReset.Links.{
  reset_password_once, validate-reset_password, Agrees,
}
use gracon_user_auth_service.PasswordReset.RoundTrip.{request-validate}
use gracon_user_auth_service.Tests.Fixture.{test_env, fixture, amani, world, moment, later}

reset : Unit {0}
unfolding create_reset_token send_reset_link request_reset find_valid_token validate_reset_token
    commit_reset reset_password log_rows fixture
reset = tt

abbrev after_request : World
after_request = (request_reset test_env "amani@example.rw" moment world).1

request_runs :
    request_reset test_env "amani@example.rw" moment world ≡ (ok safe_response, after_request)
unfolding reset
request_runs = refl

abbrev dto : ResetPasswordDto
dto = record {
  user_id = 1;
  token = "fresh";
  new_password = "Better!8";
  confirm_password = "Better!8";
}

abbrev after_reset : World
after_reset = (reset_password test_env dto later after_request).1

reset_runs : reset_password test_env dto later after_request ≡ (ok reset_done, after_reset)
unfolding reset
reset_runs = refl

unknown :
    (u : User) → find (by_email "nobody@example.rw") world.users ≡ some u → u.is_active ≡ false
unfolding fixture
unknown u e = cc

request_reset-SendsLink_example : SendsLink test_env moment world amani safe_response after_request
unfolding fixture
request_reset-SendsLink_example =
    request_reset-SendsLink test_env "amani@example.rw" moment world amani refl refl request_runs

reset_password_once_example : reset_password test_env dto later after_reset ≡ (
  throws (bad_request "This reset link has already been used. Please request a new one."),
  after_reset,
)
unfolding reset
reset_password_once_example =
    reset_password_once test_env dto dto later later after_request amani refl reset_runs refl refl
      refl

validate-reset_password_example : Agrees test_env dto moment world
unfolding reset
validate-reset_password_example = validate-reset_password test_env dto moment world amani refl refl

request-validate_example : (validate_reset_token test_env 1 "fresh" 3605000 after_request).0 ≡ true
unfolding fixture
request-validate_example =
    request-validate test_env "amani@example.rw" moment 3605000 world amani refl refl refl
      request_runs
