-- ===== src/Verification/Effects.antt =====
-- What the steps of a submission do to the state (modules/verification/verification.service.ts).
use gracon_user_auth_service.Common.{
  ℕ, ◌≡◌, refl, ◌⊎◌, inl, inr, arith, true, false, not, ◌&&◌, Option, none, some, List, [], ◌∷◌,
  ◌++◌, String, ◌==◌, if◌then◌else◌, Bool-cases, Option-cases,
}
use gracon_user_auth_service.Platform.{
  full, User, IdVerification, World, Outcome, ok, throws, Env, Moment,
}
use gracon_user_auth_service.Platform.Laws.{Outcome-cases, Reply-cases}
use gracon_user_auth_service.Storage.{
  ImageFile, upload_verification_image, upload_to_s3, validate_file,
}
use gracon_user_auth_service.Auth.{
  AuthTokens, Origin, upgrade_token, generate_tokens, revoke_rows, active_limited_of,
}
use gracon_user_auth_service.Auth.Tokens.{generate_tokens_state, generate_tokens-eq-ok}
use gracon_user_auth_service.Users.Access.{find_by_id}
use gracon_user_auth_service.Verification.{EngineResponse}
use gracon_user_auth_service.Verification.Submit.{
  Images, recorded, both_keys, upload_images, activate, verify_identity, count_attempt, set_user,
}

module _ (env : Env) (hours : ℕ) where
  -- A write that is refused leaves the attempts as they are.
  pub recorded_lem :
      (row : IdVerification) (rows : List IdVerification)
      → (recorded env hours row rows ≡ rows) ⊎ (recorded env hours row rows ≡ rows ++ row ∷ [])
  unfolding recorded
  recorded_lem row rows = elim (Reply-cases (env.create IdVerification (λ _. row) rows)) [
    | inl ((r, rows'), e) ↦
        let (n, p, q) = env.create_lem IdVerification _ rows r rows' e in inr (ground arith)
    | inr (c, e) ↦ inl (ground arith)
  ]

  upload_verification_image_frame :
      (folder : String) (user_id : ℕ) (image_type : String) (file : ImageFile) (hex : String)
      (w : World)
      → let w' = (upload_verification_image env folder user_id image_type file hex w).1 in
        w' ≡ record w { objects = w'.objects }
  unfolding upload_verification_image validate_file upload_to_s3
  upload_verification_image_frame folder user_id image_type file hex w = ground arith

  both_keys_state : (a b : Outcome String) (w : World) → (both_keys env hours a b w).1 ≡ w
  unfolding both_keys
  both_keys_state (ok k) (ok l) w = refl
  both_keys_state (ok k) (throws e) w = refl
  both_keys_state (throws e) b w = refl

  pub upload_images_frame :
      (user_id : ℕ) (images : Images) (w : World)
      → let w' = (upload_images env hours user_id images w).1 in
        w' ≡ record w { objects = w'.objects }
  unfolding upload_images
  upload_images_frame user_id images w =
      let first =
        upload_verification_image_frame images.folder user_id "id-card" images.id_card
          images.id_card_hex w in
      let (a, w1) =
        upload_verification_image env images.folder user_id "id-card" images.id_card
          images.id_card_hex w in
      let second =
        upload_verification_image_frame images.folder user_id "selfie" images.selfie
          images.selfie_hex w1 in
      let (b, w2) =
        upload_verification_image env images.folder user_id "selfie" images.selfie images.selfie_hex
          w1 in
      ground (arith, both_keys_state a b w2)

  -- The limited tokens are revoked, and one full token may be added; the rest is as it was.
  pub upgrade_token_state :
      (id : ℕ) (from : Origin) (at : Moment) (w : World)
      → let w' = (upgrade_token env id from at w).1 in
        w' ≡ record w { refresh_tokens = w'.refresh_tokens }
  unfolding upgrade_token
  upgrade_token_state id from at w =
      let v = revoke_rows env (active_limited_of id) w in
      elim (Option-cases (find_by_id env id v)) [
        | inl e ↦ ground arith
        | inr (u, e) ↦ ground (arith, generate_tokens_state env u.id u.email from full at v)
      ]

  -- The change that step 6 makes to the account.
  abbrev pub outcome_user : User → EngineResponse → ℕ → User → User
  outcome_user u r now =
      if r.passed && not u.is_id_verified
      then verify_identity env hours now
      else count_attempt env hours

  -- Tokens are issued exactly for a pass of an account that is not verified yet: full ones.
  abbrev pub Upgrades : User → EngineResponse → Moment → Option AuthTokens → Type 0
  Upgrades u r at tokens =
      (((r.passed && not u.is_id_verified) ≡ true)
        × ((t : AuthTokens) × (tokens ≡ some t)
            × (t.token_type ≡ full)
            × (t.refresh_token ≡ at.random)))
      ⊎ (((r.passed && not u.is_id_verified) ≡ false) × (tokens ≡ none))

  upgrade_token-eq-ok :
      (id : ℕ) (from : Origin) (at : Moment) (w : World) {t : AuthTokens} {w' : World}
      → upgrade_token env id from at w ≡ (ok t, w')
      → (t.token_type ≡ full) × (t.refresh_token ≡ at.random)
  unfolding upgrade_token
  upgrade_token-eq-ok id from at w {t} {w'} h =
      let v = revoke_rows env (active_limited_of id) w in
      elim (Option-cases (find_by_id env id v)) [
        | inl e ↦ ground arith
        | inr (u, e) ↦
            let issued : generate_tokens env u.id u.email from full at v ≡ (ok t, w') =
              ground arith in
            let (a, b, c, d) = generate_tokens-eq-ok env u.id u.email from full at v issued in
            (a, b)
      ]

  pub activate_state :
      (u : User) (r : EngineResponse) (ip : String) (at : Moment) (w : World)
      → let w' = (activate env hours u r ip at w).1 in
        w' ≡ record w {
          users = env.update User (λ x. x.id == u.id) (outcome_user u r at.now) w.users;
          refresh_tokens = w'.refresh_tokens;
        }
  unfolding activate
  activate_state u r ip at w = elim (Bool-cases (r.passed && not u.is_id_verified)) [
    | inl upgrades ↦
        let from : Origin = record { ip_address = ip; user_agent = "id-verification-upgrade" } in
        let v = (set_user env hours u.id (verify_identity env hours at.now) w).1 in
        let same = upgrade_token_state u.id from at v in
        let reached : (activate env hours u r ip at w).1 ≡ (upgrade_token env u.id from at v).1 =
          ground arith in
        ground arith
    | inr stays ↦ ground arith
  ]

  pub activate-eq-ok :
      (u : User) (r : EngineResponse) (ip : String) (at : Moment) (w : World)
      {tokens : Option AuthTokens} {w' : World}
      → activate env hours u r ip at w ≡ (ok tokens, w')
      → Upgrades u r at tokens
  unfolding activate
  activate-eq-ok u r ip at w h = elim (Bool-cases (r.passed && not u.is_id_verified)) [
    | inl upgrades ↦
        let from : Origin = record { ip_address = ip; user_agent = "id-verification-upgrade" } in
        let v = (set_user env hours u.id (verify_identity env hours at.now) w).1 in
        elim (Outcome-cases (upgrade_token env u.id from at v)) [
          | inl (t, v', e) ↦
              let (a, b) = upgrade_token-eq-ok u.id from at v e in
              inl (upgrades, (t, ground arith, a, b))
          | inr (x, v', e) ↦ ground arith
        ]
    | inr stays ↦ inr (stays, ground arith)
  ]
