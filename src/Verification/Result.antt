-- ===== src/Verification/Result.antt =====
-- A submission that returns (`submitVerification` of modules/verification/verification.service.ts): what it
-- rests on and what it does.
use gracon_user_auth_service.Common.{
  ◌+◌, ◌<◌, ◌⊎◌, List, [], ◌∷◌, ◌++◌, length, select, ℕ, ◌≡◌, true, false, not, ◌&&◌, Option, some,
  String, str_eq, ◌==◌, trim, find, update_where,
}
use gracon_user_auth_service.Platform.{
  nid, IdVerification, User, CitizenIdentity, World, Env, Moment,
}
use gracon_user_auth_service.Verification.{
  ChallengeMode, EnginePayload, EngineResponse, VerificationResult, get_verification_window_state,
  is_invitation,
}
use gracon_user_auth_service.Verification.Effects.{Upgrades}

-- The account after an answer: verified since now, exactly if it is a pass and the account was not
-- verified; the attempt is counted in either case.
abbrev pub Marks : ℕ → User → EngineResponse → ℕ → List User → List User → Type 0
Marks user_id account answer now users users' =
    (((answer.passed && not account.is_id_verified) ≡ true)
      × (users'
          ≡ update_where (λ (u : User). u.id == user_id)
              (λ u. record u {
                is_id_verified = true;
                id_verified_at = some now;
                verification_attempts = u.verification_attempts + 1;
              })
              users))
    ⊎ (((answer.passed && not account.is_id_verified) ≡ false)
        × (users'
            ≡ update_where (λ (u : User). u.id == user_id)
                (λ u. record u { verification_attempts = u.verification_attempts + 1 }) users))

-- What a submission that succeeds rests on, and what it does.
pub record Submits (env : Env) (hours : ℕ) (engine : EnginePayload → Option EngineResponse)
    (user_id : ℕ) (document_number : String) (ip : String) (mode : ChallengeMode) (at : Moment)
    (w : World) (res : VerificationResult) (w' : World) : Type 0 where
  pub account : User
  pub found : find (λ u. u.id == user_id) w.users ≡ some account
  pub verified : account.is_verified ≡ true
  pub active : account.is_active ≡ true
  pub repeated : (account.is_id_verified && not (is_invitation mode)) ≡ false
  pub identity : CitizenIdentity
  pub stored : find (λ c. c.user_id == user_id) w.citizen_identities ≡ some identity
  pub national : identity.identity_type ≡ nid
  pub cipher : String
  pub encrypted : identity.nid_encrypted ≡ some cipher
  pub budget :
      (hours ≡ 0) ⊎ ((get_verification_window_state env hours user_id at.now w).attempts_used < 3)
  pub payload : EnginePayload
  pub answer : EngineResponse
  pub answered : engine payload ≡ some answer
  pub sent : payload.document_match ≡ str_eq (env.decrypt cipher) (trim document_number)
  pub whose : payload.user_id ≡ user_id
  pub passed : res.passed ≡ answer.passed
  pub used :
      res.attempts_used ≡ (get_verification_window_state env hours user_id at.now w').attempts_used
  pub tokens : Upgrades env hours account answer at res.upgraded_tokens
  pub users : Marks user_id account answer at.now w.users w'.users
  pub attempt :
      (w'.id_verifications ≡ w.id_verifications)
      ⊎ (w'.id_verifications
          ≡ w.id_verifications
            ++ record {
              user_id = user_id;
              attempt_number =
                  length (select (λ (v : IdVerification). v.user_id == user_id) w.id_verifications)
                  + 1;
              document_match = answer.document_match;
              face_score = answer.face_similarity;
              liveness_score = answer.liveness_confidence;
              composite_score = answer.composite_score;
              passed = answer.passed;
              fail_reason = answer.fail_reason;
              ip_address = ip;
              created_at = at.now;
            }
              ∷ [])
