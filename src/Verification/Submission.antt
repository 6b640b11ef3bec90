-- ===== src/Verification/Submission.antt =====
-- A submission whose engine has answered, and one whose engine has not
-- (modules/verification/verification.service.ts).
use gracon_user_auth_service.Common.{
  ℕ, ◌≡◌, refl, subst, ◌⊎◌, inl, inr, arith, Bool, Option, List, [], ◌∷◌, ◌++◌, String, str_eq,
  ◌==◌, trim, Option-cases,
}
use gracon_user_auth_service.Platform.{
  User, CitizenIdentity, IdVerification, World, ok, throws, Env, Moment,
}
use gracon_user_auth_service.Platform.Laws.{Outcome-cases}
use gracon_user_auth_service.Storage.{remaining_objects}
use gracon_user_auth_service.Verification.{
  ChallengeMode, EnginePayload, EngineResponse, VerificationResult, get_next_attempt_number,
  get_verification_window_state, engine_unavailable,
}
use gracon_user_auth_service.Verification.Submit.{
  Images, recorded, upload_images, cleanup_images, present, activate, settle, abandon, challenge,
  attempt_row, no_answer,
}
use gracon_user_auth_service.Verification.Effects.{
  recorded_lem, upload_images_frame, activate_state, activate-eq-ok, outcome_user, Upgrades,
}

-- The keys that are removed after an attempt.
abbrev pub both : Env → ℕ → String × String → List String
both env hours keys = present env hours keys.0 (present env hours keys.1 [])

module _ (env : Env) (hours : ℕ) where
  -- Whatever its outcome: one attempt is recorded, the images are removed, and the account changes.
  pub settle_state :
      (u : User) (c : CitizenIdentity) (document_number : String) (keys : String × String)
      (r : EngineResponse) (ip : String) (mode : ChallengeMode) (at : Moment) (w : World)
      → let w' = (settle env hours u c document_number keys r ip mode at w).1 in
        w' ≡ record w {
          users = env.update User (λ x. x.id == u.id) (outcome_user env hours u r at.now) w.users;
          refresh_tokens = w'.refresh_tokens;
          security_events = w'.security_events;
          id_verifications =
              recorded env hours
                (attempt_row env hours u.id (get_next_attempt_number env hours u.id w) r ip at.now)
                w.id_verifications;
          objects = remaining_objects env (both env hours keys) w.objects;
        }
  unfolding settle cleanup_images
  settle_state u c document_number keys r ip mode at w =
      let v : World = record w {
        id_verifications =
            recorded env hours
              (attempt_row env hours u.id (get_next_attempt_number env hours u.id w) r ip at.now)
              w.id_verifications;
        objects = remaining_objects env (both env hours keys) w.objects;
      } in
      let same = activate_state env hours u r ip at v in
      elim (Outcome-cases (activate env hours u r ip at v)) [
        | inl (t, v', e) ↦ ground arith
        | inr (x, v', e) ↦ ground arith
      ]

  pub settle-eq-ok :
      (u : User) (c : CitizenIdentity) (document_number : String) (keys : String × String)
      (r : EngineResponse) (ip : String) (mode : ChallengeMode) (at : Moment) (w : World)
      {res : VerificationResult} {w' : World}
      → settle env hours u c document_number keys r ip mode at w ≡ (ok res, w')
      → (res.passed ≡ r.passed)
        × (res.document_match ≡ r.document_match)
        × (res.attempts_used
            ≡ (get_verification_window_state env hours u.id at.now w').attempts_used)
        × Upgrades env hours u r at res.upgraded_tokens
  unfolding settle cleanup_images
  settle-eq-ok u c document_number keys r ip mode at w {res} {w'} h =
      let v : World = record w {
        id_verifications =
            recorded env hours
              (attempt_row env hours u.id (get_next_attempt_number env hours u.id w) r ip at.now)
              w.id_verifications;
        objects = remaining_objects env (both env hours keys) w.objects;
      } in
      elim (Outcome-cases (activate env hours u r ip at v)) [
        | inl (t, v', e) ↦
            let tokens = activate-eq-ok env hours u r ip at v e in
            let same : t ≡ res.upgraded_tokens = ground arith in
            (
              ground arith,
              ground arith,
              ground arith,
              subst (Upgrades env hours u r at) same tokens,
            )
        | inr (x, v', e) ↦ ground arith
      ]

  pub abandon_lem :
      (user_id : ℕ) (document_match : Bool) (keys : String × String) (ip : String) (now : ℕ)
      (w : World)
      → abandon env hours user_id document_match keys ip now w ≡ (
        throws engine_unavailable,
        record w {
          id_verifications =
              recorded env hours
                (attempt_row env hours user_id
                  (get_next_attempt_number env hours user_id w)
                  (no_answer env hours document_match)
                  ip
                  now)
                w.id_verifications;
          objects = remaining_objects env (both env hours keys) w.objects;
        },
      )
  unfolding abandon cleanup_images get_next_attempt_number
  abandon_lem user_id document_match keys ip now w = refl

  -- A submission that records an attempt passed the gates, and records one row.
  abbrev pub Attempts : ℕ → ℕ → World → World → Type 0
  Attempts user_id now w w' =
      (w'.id_verifications ≡ w.id_verifications)
      ⊎ ((row : IdVerification) × (row.user_id ≡ user_id)
          × (row.created_at ≡ now)
          × (w'.id_verifications ≡ w.id_verifications ++ row ∷ []))

  pub challenge-Attempts :
      (engine : EnginePayload → Option EngineResponse) (u : User) (c : CitizenIdentity)
      (cipher document_number : String) (images : Images) (ip : String) (mode : ChallengeMode)
      (at : Moment) (w : World)
      → Attempts u.id at.now w
          (challenge env hours engine u c cipher document_number images ip mode at w).1
  unfolding challenge
  challenge-Attempts engine u c cipher document_number images ip mode at w =
      let frame = upload_images_frame env hours u.id images w in
      elim (Outcome-cases (upload_images env hours u.id images w)) [
        | inr (x, v, e) ↦ inl (ground arith)
        | inl (keys, v, e) ↦
            let matched = str_eq (env.decrypt cipher) (trim document_number) in
            let payload : EnginePayload = record {
              id_image_key = keys.0;
              selfie_image_key = keys.1;
              user_id = u.id;
              document_match = matched;
            } in
            elim (Option-cases (engine payload)) [
              | inl silent ↦
                  let row =
                    attempt_row env hours u.id (get_next_attempt_number env hours u.id v)
                      (no_answer env hours matched) ip at.now in
                  let gone = abandon_lem u.id matched keys ip at.now v in
                  elim (recorded_lem env hours row v.id_verifications) [
                    | inl lost ↦ inl (ground arith)
                    | inr kept ↦ inr (row, refl, refl, ground arith)
                  ]
              | inr (r, answer) ↦
                  let row =
                    attempt_row env hours u.id (get_next_attempt_number env hours u.id v) r ip
                      at.now in
                  let settled = settle_state u c document_number keys r ip mode at v in
                  elim (recorded_lem env hours row v.id_verifications) [
                    | inl lost ↦ inl (ground arith)
                    | inr kept ↦ inr (row, refl, refl, ground arith)
                  ]
            ]
      ]
