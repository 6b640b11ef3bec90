-- ===== src/Tests/ValidationCases.antt =====
-- Request objects that are let through, and some that are not.
use gracon_user_auth_service.Common.{
  is_some, ◌≡◌, refl, true, false, none, some, truthy, trim, trim_start, trim_end, is_space, codes,
}
use gracon_user_auth_service.Citizen.{size, is_nid}
use gracon_user_auth_service.Users.Requests.{RegisterDto}
use gracon_user_auth_service.Platform.{bad_request, throws}
use gracon_user_auth_service.Users.Registration.{assert_exclusive_identity_input}
use gracon_user_auth_service.Tests.Fixture.{world}
use gracon_user_auth_service.Validation.{
  Texts, looks_ahead, is_mixed, is_password, is_reset_password, is_phone_number, is_fin,
  is_register, normal_register, validate_register, validate_change_password, validate_submission,
}
use gracon_user_auth_service.Validation.Register.{IsAcceptable, validate_register-IsAcceptable}

validators : Unit {0}
unfolding size codes trim trim_start trim_end is_space is_nid looks_ahead is_mixed is_password
    is_reset_password is_phone_number is_fin is_register validate_register validate_change_password
    validate_submission assert_exclusive_identity_input
validators = tt

abbrev texts : Texts
texts = record { is_email = truthy; to_lower_case = λ s. s }

abbrev request : RegisterDto
request = record {
  email = " keza@example.rw ";
  phone_number = some "+250 788 123 456";
  password = "Secret!7";
  document_number = some "1197080012345678 ";
  fin = none;
  identity_input_required = none;
  identity_input_exclusive = none;
}

register_read : validate_register texts request ≡ some (normal_register texts request)
unfolding validators
register_read = refl

validate_register-IsAcceptable_example :
    (normal_register texts request ≡ normal_register texts request)
    × IsAcceptable (normal_register texts request)
validate_register-IsAcceptable_example =
    validate_register-IsAcceptable texts request refl refl register_read

both_numbers : validate_register texts (record request { fin = some "2199170000047067" }) ≡ none
unfolding validators
both_numbers = refl

-- A body that sets the helper field gets both numbers past the validators, to the service's refusal.
abbrev both_sent : RegisterDto
both_sent = record request { fin = some "2199170000047067"; identity_input_exclusive = some "x" }

both_pass :
    (is_some (validate_register texts both_sent) ≡ true)
    × ((assert_exclusive_identity_input (normal_register texts both_sent) world).0
        ≡ throws
            (bad_request "Provide either documentNumber or fin, not both in the same request."))
unfolding validators
both_pass = (refl, refl)

-- A reset accepts a first character that a registration refuses.
spaced_password : (is_password " Secret!7" ≡ false) × (is_reset_password " Secret!7" ≡ true)
unfolding validators
spaced_password = (refl, refl)

-- An empty confirmation passes the validators of a change.
empty_confirmation :
    validate_change_password
      (record { current_password = "old"; new_password = "Secret!7"; confirm_new_password = "" })
    ≡ some
        (record { current_password = "old"; new_password = "Secret!7"; confirm_new_password = "" })
unfolding validators
empty_confirmation = refl

submission_trimmed : validate_submission " 1197080012345678" none ≡ some ("1197080012345678", none)
unfolding validators
submission_trimmed = refl
