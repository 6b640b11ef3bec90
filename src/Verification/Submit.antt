-- ===== src/Verification/Submit.antt =====
-- `submitVerification` and `getVerificationStatus` of modules/verification/verification.service.ts. The
-- engine is a function that may give no answer (an error or the timeout of `ENGINE_TIMEOUT_MS`); `logger`
-- and the engine's address and key are left out.
use gracon_user_auth_service.Common.{
  ℕ, ◌+◌, Bool, true, false, not, ◌&&◌, ◌||◌, Option, none, some, List, [], ◌∷◌, String, str_eq,
  ltb, ◌==◌, if◌then◌else◌, truthy, ◌⁺⁺◌, trim, decimal,
}
use gracon_user_auth_service.Platform.{
  User, CitizenIdentity, IdVerification, verification_passed, verification_failed, accepted,
  rejected, World, Exception, bad_request, internal_server_error, Outcome, ok, throws, Handler,
  pure, throw, gets, ◌>>=◌, ◌>>◌, modify, throw_if, Env, Moment,
}
use gracon_user_auth_service.SecurityEvents.{log}
use gracon_user_auth_service.Storage.{ImageFile, upload_verification_image, delete_all}
use gracon_user_auth_service.Users.Access.{identity_of, find_by_id}
use gracon_user_auth_service.Auth.{AuthTokens, upgrade_token}
use gracon_user_auth_service.Verification.{
  ChallengeMode, EnginePayload, EngineResponse, VerificationWindowState, VerificationResult,
  VerificationStatusResult, already_passed, email_not_verified, engine_unavailable,
  image_upload_failed, is_invitation, is_fin, first_time, is_attempt_window_enabled,
  get_verification_window_state, enforce_attempt_limit, lockout_of, get_next_attempt_number,
}

-- `submitVerification` draws two random parts for the images' names; `folder` is the bucket's folder
-- for temporary images.
pub record Images : Type 0 where
  pub id_card : ImageFile
  pub selfie : ImageFile
  pub id_card_hex : String
  pub selfie_hex : String
  pub folder : String

module _ (env : Env) (hours : ℕ) where
  open env use {client, find_first, find_many, count, create, update, order_by, decrypt}

  -- The table after `recordAttempt`; a write that is refused is swallowed.
  unfoldable pub recorded : IdVerification → List IdVerification → List IdVerification
  recorded attempt rows = elim (create IdVerification (λ _. attempt) rows) [
    | accepted (_, rows') ↦ rows'
    | rejected _ ↦ rows
  ]

  abbrev pub record_attempt : IdVerification → Handler (Unit {0})
  record_attempt attempt =
      modify λ w. record w { id_verifications = recorded attempt w.id_verifications }

  -- `[idCardKey, selfieKey].filter(Boolean)`
  abbrev pub present : String → List String → List String
  present key keys = if truthy key then key ∷ keys else keys

  unfoldable pub cleanup_images : String × String → Handler (Unit {0})
  cleanup_images (id_card, selfie) = delete_all env (present id_card (present selfie []))

  unfoldable pub both_keys : Outcome String → Outcome String → Handler (String × String)
  both_keys (ok k) (ok l) = pure (k, l)
  both_keys (ok k) (throws e) = throw image_upload_failed
  both_keys (throws e) b = throw image_upload_failed

  -- Both uploads are started; the failure of either is the failure of the pair.
  unfoldable pub upload_images : ℕ → Images → Handler (String × String)
  upload_images user_id images w =
      let (a, w1) =
        upload_verification_image env images.folder user_id "id-card" images.id_card
          images.id_card_hex w in
      let (b, w2) =
        upload_verification_image env images.folder user_id "selfie" images.selfie images.selfie_hex
          w1 in
      both_keys a b w2

  -- The audit row of an attempt with the engine's answer.
  abbrev pub attempt_row : ℕ → ℕ → EngineResponse → String → ℕ → IdVerification
  attempt_row user_id number r ip now = record {
    user_id = user_id;
    attempt_number = number;
    document_match = r.document_match;
    face_score = r.face_similarity;
    liveness_score = r.liveness_confidence;
    composite_score = r.composite_score;
    passed = r.passed;
    fail_reason = r.fail_reason;
    ip_address = ip;
    created_at = now;
  }

  -- What is recorded when the engine gives no answer.
  abbrev pub no_answer : Bool → EngineResponse
  no_answer document_match = record {
    passed = false;
    face_similarity = 0;
    liveness_confidence = 0;
    document_match = document_match;
    composite_score = 0;
    fail_reason = some "Verification service temporarily unavailable";
  }

  abbrev pub set_user : ℕ → (User → User) → Handler (Unit {0})
  set_user user_id f = modify λ w. record w { users = update User (λ u. u.id == user_id) f w.users }

  abbrev pub count_attempt : User → User
  count_attempt u = record u { verification_attempts = u.verification_attempts + 1 }

  abbrev pub verify_identity : ℕ → User → User
  verify_identity now u = record u {
    is_id_verified = true;
    id_verified_at = some now;
    verification_attempts = u.verification_attempts + 1;
  }

  -- Step 6.
  unfoldable pub activate : User → EngineResponse → String → Moment → Handler (Option AuthTokens)
  activate u r ip at =
      if r.passed && not u.is_id_verified
      then (set_user u.id (verify_identity at.now)
          >> (upgrade_token env u.id
                (record { ip_address = ip; user_agent = "id-verification-upgrade" }) at
              >>= λ tokens. pure (some tokens)))
      else (set_user u.id count_attempt >> pure none)

  abbrev pub message_of : EngineResponse → ChallengeMode → VerificationWindowState → String
  message_of r mode s =
      if r.passed
      then if is_invitation mode
        then "Identity verification successful. You can return to the invitation."
        else "Identity verification successful. You can now log in."
      else if is_attempt_window_enabled env hours
      then "Verification failed. " ⁺⁺ decimal s.attempts_remaining ⁺⁺ " attempt(s) remaining."
      else "Verification failed. You can try again."

  -- Steps 4 to 7: the engine has answered.
  unfoldable pub settle :
      User
      → CitizenIdentity
      → String
      → String × String
      → EngineResponse
      → String
      → ChallengeMode
      → Moment
      → Handler VerificationResult
  settle u c document_number keys r ip mode at = do
    number ← gets (get_next_attempt_number env hours u.id)
    record_attempt (attempt_row u.id number r ip at.now)
    cleanup_images keys
    tokens ← activate u r ip at
    log client (if r.passed then verification_passed else verification_failed) (some u.id) (some ip)
        at.now
    s ← gets (get_verification_window_state env hours u.id at.now)
    pure (record {
      passed = r.passed;
      composite_score = r.composite_score;
      face_score = r.face_similarity;
      liveness_score = r.liveness_confidence;
      document_match = r.document_match;
      message = message_of r mode s;
      fail_reason = r.fail_reason;
      attempts_used = s.attempts_used;
      attempts_remaining = s.attempts_remaining;
      lockout = lockout_of env hours s;
      id_info = record {
        full_name = trim (c.sur_name ⁺⁺ " " ⁺⁺ c.post_names);
        date_of_birth = c.date_of_birth;
        document_number = document_number;
      };
      upgraded_tokens = tokens;
      challenge_mode = mode;
    })

  -- The engine gives no answer: the images are removed and the attempt counts as failed.
  unfoldable pub abandon : ℕ → Bool → String × String → String → ℕ → Handler VerificationResult
  abandon user_id document_match keys ip now = do
    cleanup_images keys
    number ← gets (get_next_attempt_number env hours user_id)
    record_attempt (attempt_row user_id number (no_answer document_match) ip now)
    throw engine_unavailable

  -- Steps 1 to 3, with the stored national id.
  unfoldable pub challenge :
      (EnginePayload → Option EngineResponse)
      → User
      → CitizenIdentity
      → String
      → String
      → Images
      → String
      → ChallengeMode
      → Moment
      → Handler VerificationResult
  challenge engine u c nid_encrypted document_number images ip mode at = do
    let document_match = str_eq (decrypt nid_encrypted) (trim document_number)
    keys ← upload_images u.id images
    elim (engine (record {
      id_image_key = keys.0;
      selfie_image_key = keys.1;
      user_id = u.id;
      document_match = document_match;
    })) [
      | none ↦ abandon u.id document_match keys ip at.now
      | some r ↦ settle u c document_number keys r ip mode at
    ]

  abbrev pub incomplete : Exception
  incomplete = internal_server_error "Stored National ID data is incomplete for verification."

  unfoldable pub with_document :
      (EnginePayload → Option EngineResponse)
      → User
      → Option CitizenIdentity
      → String
      → Images
      → String
      → ChallengeMode
      → Moment
      → Handler VerificationResult
  with_document engine u none document_number images ip mode at = throw email_not_verified
  with_document engine u (some c) document_number images ip mode at = elim c.nid_encrypted [
    | none ↦ throw incomplete
    | some cipher ↦
        if truthy cipher
        then challenge engine u c cipher document_number images ip mode at
        else throw incomplete
  ]

  -- Gates 3 to 5.
  unfoldable pub gated :
      (EnginePayload → Option EngineResponse)
      → User
      → Option CitizenIdentity
      → String
      → Images
      → String
      → ChallengeMode
      → Moment
      → Handler VerificationResult
  gated engine u identity document_number images ip mode at = do
    throw_if (not u.is_verified || not u.is_active) email_not_verified
    throw_if (is_fin identity)
        (bad_request "Biometric verification is not required for foreign identity users.")
    throw_if (u.is_id_verified && not (is_invitation mode)) already_passed
    enforce_attempt_limit env hours u.id at.now
    with_document engine u identity document_number images ip mode at

  unfoldable pub submit_verification :
      (EnginePayload → Option EngineResponse)
      → ℕ
      → String
      → Images
      → String
      → ChallengeMode
      → Moment
      → Handler VerificationResult
  submit_verification engine user_id document_number images ip mode at w =
      elim (find_by_id env user_id w) [
        | none ↦ throw email_not_verified w
        | some u ↦ gated engine u (identity_of env w u.id) document_number images ip mode at w
      ]

  abbrev pub latest : List IdVerification → Option ℕ
  latest = first_time

  abbrev pub verified_of : Option User → Bool
  verified_of none = false
  verified_of (some u) = u.is_id_verified

  -- `getVerificationStatus`; the relation of a missing account is empty.
  unfoldable pub get_verification_status : ℕ → ℕ → World → VerificationStatusResult
  get_verification_status user_id now w =
      let s = get_verification_window_state env hours user_id now w in
      let found = find_by_id env user_id w in
      record {
        is_id_verified = verified_of found;
        attempts_used = s.attempts_used;
        attempts_remaining = s.attempts_remaining;
        can_attempt = not (verified_of found) && ltb 0 s.attempts_remaining;
        last_attempt_at = elim found [
          | none ↦ none
          | some u ↦ latest (
              env.order_by_desc IdVerification (λ v. v.created_at)
                (find_many IdVerification (λ v. v.user_id == u.id) w.id_verifications))
        ];
        lockout = lockout_of env hours s;
      }
