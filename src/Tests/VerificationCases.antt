-- ===== src/Tests/VerificationCases.antt =====
-- Submissions on the fixture: the window of attempts, a pass and what it is worth.
use gracon_user_auth_service.Common.{
  inl, inr, ℕ, ◌≤◌, ◌≡◌, refl, arith, true, false, Option, none, some, [], ◌∷◌, length,
}
use gracon_user_auth_service.Platform.{
  nid, full, CitizenIdentity, IdVerification, World, Outcome, ok, throws,
}
use gracon_user_auth_service.SecurityEvents.{log_rows}
use gracon_user_auth_service.Storage.{
  ImageFile, validate_file, mime_to_extension, upload_to_s3, build_temp_image_key,
  upload_verification_image, remaining_objects,
}
use gracon_user_auth_service.Auth.{generate_tokens, upgrade_token}
use gracon_user_auth_service.Auth.Sound.{IsSound}
use gracon_user_auth_service.Auth.Histories.{here, next, submits as submits_identity, Reach-IsSound}
use gracon_user_auth_service.Verification.{
  standard, EnginePayload, EngineResponse, VerificationResult, max_attempts, too_many_attempts,
  get_verification_window_state, enforce_attempt_limit, get_next_attempt_number,
}
use gracon_user_auth_service.Verification.Submit.{
  Images, recorded, cleanup_images, both_keys, upload_images, activate, settle, abandon, challenge,
  with_document, gated, submit_verification, get_verification_status,
}
use gracon_user_auth_service.Verification.Window.{in_window}
use gracon_user_auth_service.Verification.Retry.{retry_after_wait, retry_at_refused}
use gracon_user_auth_service.Verification.Budget.{none_yet, submits, Submissions-budget}
use gracon_user_auth_service.Tests.Fixture.{test_env, test_hash, fixture, world, moment}

verification : Unit {0}
unfolding get_verification_window_state enforce_attempt_limit get_next_attempt_number recorded
    cleanup_images both_keys upload_images activate settle abandon challenge with_document gated
    submit_verification get_verification_status validate_file mime_to_extension upload_to_s3
    build_temp_image_key upload_verification_image remaining_objects generate_tokens upgrade_token
    log_rows fixture
verification = tt

abbrev amani_identity : CitizenIdentity
amani_identity = record {
  user_id = 1;
  identity_type = nid;
  nid_encrypted = some "1199080012345678";
  nid_hash = some (test_hash "1199080012345678");
  fin_encrypted = none;
  fin_hash = none;
  sur_name = "Amani";
  post_names = "Keza";
  sex = "F";
  date_of_birth = 0;
  country_of_birth = "RW";
}

abbrev identified : World
identified = record world { citizen_identities = amani_identity ∷ [] }

-- A failed attempt of the fixture's account.
abbrev attempt_at : ℕ → IdVerification
attempt_at time = record {
  user_id = 1;
  attempt_number = 1;
  document_match = true;
  face_score = 0;
  liveness_score = 0;
  composite_score = 0;
  passed = false;
  fail_reason = none;
  ip_address = "::1";
  created_at = time;
}

abbrev spent : World
spent = record identified {
  id_verifications = attempt_at 3000 ∷ attempt_at 1000 ∷ attempt_at 2000 ∷ [];
}

abbrev photo : ImageFile
photo = record { has_buffer = true; mimetype = "image/png"; size = 1000 }

abbrev images : Images
images = record {
  id_card = photo;
  selfie = photo;
  id_card_hex = "aa";
  selfie_hex = "bb";
  folder = "tmp";
}

-- An engine that passes whoever gives the stored number.
abbrev engine : EnginePayload → Option EngineResponse
engine payload = some (record {
  passed = payload.document_match;
  face_similarity = 97;
  liveness_confidence = 95;
  document_match = payload.document_match;
  composite_score = 96;
  fail_reason = none;
})

abbrev submission : Outcome VerificationResult × World
submission =
    submit_verification test_env 24 engine 1 " 1199080012345678 " images "::1" standard moment
      identified

abbrev result : VerificationResult
result = record {
  passed = true;
  composite_score = 96;
  face_score = 97;
  liveness_score = 95;
  document_match = true;
  message = "Identity verification successful. You can now log in.";
  fail_reason = none;
  attempts_used = 1;
  attempts_remaining = 2;
  lockout = record {
    max_attempts = 3;
    attempt_window_hours = 24;
    attempt_limit_enabled = true;
    retry_available_at = none;
    retry_after_seconds = none;
  };
  id_info = record {
    full_name = "Amani Keza";
    date_of_birth = 0;
    document_number = " 1199080012345678 ";
  };
  upgraded_tokens =
      some (record { access_token = "15m"; refresh_token = "fresh"; token_type = full });
  challenge_mode = standard;
}

images_are_removed : submission.1.objects ≡ []
unfolding verification
images_are_removed = refl

retry_after_wait_example : enforce_attempt_limit test_env 24 1 86401001 spent ≡ (ok tt, spent)
unfolding verification
retry_after_wait_example =
    retry_after_wait test_env 24 1 5000 86401000 86401001 spent (omega arith) refl (omega arith)
      (omega arith)

retry_at_refused_example :
    enforce_attempt_limit test_env 24 1 86401000 spent ≡ (throws (too_many_attempts 24), spent)
unfolding verification
retry_at_refused_example = retry_at_refused test_env 24 1 5000 86401000 spent (omega arith) refl

no_attempts : (id : ℕ) → length (in_window 24 id 5000 identified) ≤ 3
unfolding fixture
no_attempts id = omega arith

Submissions-budget_example : length (in_window 24 1 5000 submission.1) ≤ max_attempts
Submissions-budget_example =
    Submissions-budget test_env 24 (omega arith)
      (submits moment (none_yet 5000 identified) engine 1 " 1199080012345678 " images "::1"
        standard)
      no_attempts 1

identified-IsSound : IsSound identified
unfolding fixture
identified-IsSound = record { keyed = (refl, tt); covered = (inr (inl refl), tt) }

Reach-IsSound_example : IsSound submission.1
Reach-IsSound_example =
    Reach-IsSound test_env
      (next here
        (submits_identity 24 engine 1 " 1199080012345678 " images "::1" standard moment refl))
      identified-IsSound
