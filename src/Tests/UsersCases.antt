-- ===== src/Tests/UsersCases.antt =====
-- Registrations, links, passwords and profiles on the fixture.
use gracon_user_auth_service.Common.{
  ◌≡◌, refl, ◌⊎◌, arith, true, false, none, some, [], ◌∷◌, String, ◌==◌, update_where,
}
use gracon_user_auth_service.Platform.{
  nid, limited, User, World, prisma, conflict, Outcome, ok, throws, Moment,
}
use gracon_user_auth_service.SecurityEvents.{log_rows}
use gracon_user_auth_service.Storage.{
  validate_file, mime_to_extension, upload_to_s3, build_profile_image_key, upload_profile_image,
  without_object,
}
use gracon_user_auth_service.Auth.{
  refresh_tokens, rotate_refresh_token, rotate_stored, generate_tokens,
}
use gracon_user_auth_service.Users.Requests.{RegisterDto, VerifyEmailDto, ResendVerificationDto}
use gracon_user_auth_service.Users.Access.{
  is_web_url, get_presigned_url, resolve_profile_image_access, profile_of,
}
use gracon_user_auth_service.Users.Registration.{
  RegistrationResult, Draw, Registries, generate_random_digits, assert_exclusive_identity_input,
  resolve_citizen_registration_identity, resolve_foreign_registration_identity,
  resolve_registration_identity,
}
use gracon_user_auth_service.Users.Registration.Register.{
  registration_rows, persist, register_identity, register,
}
use gracon_user_auth_service.Users.Registration.Result.{register_throws}
use gracon_user_auth_service.Users.EmailVerification.{
  VerifyEmailResult, resend_response, generate_post_email_verification_tokens, activate_account,
  welcome, use_verification_token, verify_email, upsert_token, resend_to, lookup,
  resend_verification_email,
}
use gracon_user_auth_service.Users.EmailVerification.Links.{activate_user}
use gracon_user_auth_service.Users.EmailVerification.Renewal.{Single, Resends}
use gracon_user_auth_service.Users.EmailVerification.Resend.{resend_unlimited, resend-verify_email}
use gracon_user_auth_service.Users.Password.{commit_change, replace_password, change_password}
use gracon_user_auth_service.Users.Profile.{
  get_profile, apply_update, update_account, update_profile, replace_image, upload_image,
}
use gracon_user_auth_service.Tests.Fixture.{test_env, fixture, world, moment, later}

unfoldable pub users : Unit {0}
unfolding log_rows validate_file mime_to_extension upload_to_s3 build_profile_image_key
    upload_profile_image without_object refresh_tokens rotate_refresh_token rotate_stored
    generate_tokens is_web_url get_presigned_url resolve_profile_image_access profile_of
    generate_random_digits assert_exclusive_identity_input resolve_citizen_registration_identity
    resolve_foreign_registration_identity resolve_registration_identity registration_rows persist
    register_identity register generate_post_email_verification_tokens activate_account welcome
    use_verification_token verify_email upsert_token resend_to lookup resend_verification_email
    commit_change replace_password change_password get_profile apply_update update_account
    update_profile replace_image upload_image fixture
users = tt

abbrev registries : Registries
registries = record {
  lookup_citizen = λ n. ok (record {
    document_type = "NID";
    nid = n;
    sur_name = "Keza";
    post_names = "Ineza";
    sex = "F";
    date_of_birth = 0;
    country_of_birth = "RW";
  });
  get_by_fin = λ n. ok none;
  full_year = λ t. 1970;
}

abbrev pub draw : Draw
draw = record { digits = 4 ∷ 8 ∷ 2 ∷ 9 ∷ 1 ∷ 6 ∷ []; identity_vector = 11; pid_vector = 12 }

abbrev pub ineza : RegisterDto
ineza = record {
  email = "ineza@example.rw";
  phone_number = none;
  password = "Secret!8";
  document_number = some "1197080012345678";
  fin = none;
  identity_input_required = none;
  identity_input_exclusive = none;
}

abbrev registered_ineza : RegistrationResult
registered_ineza = record {
  user_id = 1;
  email = "ineza@example.rw";
  sur_name = "Keza";
  post_names = "Ineza";
  platform_id = "19704829161";
  identity_type = nid;
  fin = none;
}

-- No account but the new one; its row's id is the length of the empty table.
abbrev pub nobody : World
nobody = record world { users = []; refresh_tokens = [] }

abbrev registered_state : World
registered_state = (register test_env registries ineza draw moment nobody).1

abbrev pub first_result : RegistrationResult
first_result = record registered_ineza { user_id = 0 }

-- The same person again.
again_refused :
    register test_env registries ineza draw later registered_state
    ≡ (throws (conflict "An account with this email address already exists"), registered_state)
unfolding users
again_refused = refl

register_throws_example : registered_state ≡ registered_state
register_throws_example =
    register_throws test_env registries ineza draw later registered_state again_refused

abbrev link : VerifyEmailDto
link = record { user_id = 0; token = "fresh" }

abbrev verified_state : World
verified_state = (verify_email test_env link later registered_state).1

abbrev verified_result : VerifyEmailResult
verified_result = record {
  message = "Email verified successfully. Continue with identity verification.";
  token_type = some limited;
  session = some (
    record { access_token = "2h"; refresh_token = "again"; token_type = limited },
    record {
      user_id = 0;
      email = "ineza@example.rw";
      phone_number = none;
      image_url = none;
      sur_name = "Keza";
      post_names = "Ineza";
      sex = "F";
      identity_type = nid;
      fin = none;
      is_id_verified = false;
      id_verified_at = none;
      created_at = 5000;
    },
  );
}

abbrev by_address : String → ResendVerificationDto
by_address email = record { user_id = none; email = some email }

only_verified :
    (u : User)
    → lookup test_env (by_address "amani@example.rw") world ≡ some u
    → u.is_verified ≡ true
unfolding users
only_verified u e = cc

-- The account of the registration, not verified.
abbrev ineza_account : User
ineza_account = record {
  id = 0;
  email = "ineza@example.rw";
  phone_number = none;
  password_hash = "Secret!8";
  image_url = none;
  is_verified = false;
  is_active = false;
  is_id_verified = false;
  id_verified_at = none;
  verification_attempts = 0;
  created_at = 5000;
}

single : Single registered_state
unfolding users
single id = ground arith

abbrev resent : Outcome String × World
resent = resend_verification_email test_env (by_address "ineza@example.rw") later registered_state

resend_unlimited_example : Resends test_env ineza_account later registered_state resent
unfolding users
resend_unlimited_example =
    resend_unlimited test_env (by_address "ineza@example.rw") later registered_state ineza_account
      single refl refl

resend_runs : resent ≡ (ok resend_response, resent.1)
unfolding users
resend_runs = refl

abbrev after_resend : Moment
after_resend = record { now = 86406000; random = "session"; salt = 4 }

resend-verify_email_example :
    ((verify_email test_env (record { user_id = 0; token = "again" }) after_resend resent.1).1.users
      ≡ update_where (λ (a : User). a.id == 0) activate_user registered_state.users)
    ⊎ ((code : String) × (verify_email test_env
            (record { user_id = 0; token = "again" })
            after_resend
            resent.1
          ≡ (throws (prisma code), resent.1)))
unfolding users
resend-verify_email_example =
    resend-verify_email test_env (by_address "ineza@example.rw") later after_resend registered_state
      ineza_account single refl refl refl resend_runs (omega arith)
