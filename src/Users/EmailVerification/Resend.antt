-- ===== src/Users/EmailVerification/Resend.antt =====
-- A verification link that is sent again (`resendVerificationEmail` of modules/users/users.service.ts).
use gracon_user_auth_service.Common.{
  ℕ, ◌+◌, ◌-◌, ◌*◌, ◌≤◌, ◌≡◌, refl, sym, ap, subst, ◌∙◌, ◌⊎◌, inl, inr, arith, true, false, Option,
  some, [], ◌∷◌, ◌++◌, String, ltb, leb, ◌==◌, Option-cases, find, update_where, ==_refl,
}
use gracon_user_auth_service.Common.Tables.{find_sound}
use gracon_user_auth_service.Platform.{
  User, CitizenIdentity, PlatformId, EmailVerificationToken, verification_email, accepted, World,
  prisma, ok, throws, ◌>>◌, Env, Moment,
}
use gracon_user_auth_service.Platform.Laws.{Reply-cases}
use gracon_user_auth_service.Common.Counting.{count_mono}
use gracon_user_auth_service.Users.Requests.{VerifyEmailDto, ResendVerificationDto}
use gracon_user_auth_service.Users.Access.{find_by_id, identity_of}
use gracon_user_auth_service.Users.Registration.Register.{
  verification_token_row, verification_token_expiry_ms,
}
use gracon_user_auth_service.PasswordReset.{sur_name_of, post_names_of}
use gracon_user_auth_service.Users.EmailVerification.{
  resend_response, max_resend_per_hour, token_of, token_since, platform_id_of, renew, upsert_token,
  recent_token_count, resend_to, lookup, resend_verification_email, verify_email,
  use_verification_token, activate_account, activated, welcome,
  generate_post_email_verification_tokens,
}
use gracon_user_auth_service.Users.EmailVerification.Links.{activate_user}
use gracon_user_auth_service.Users.EmailVerification.Renewal.{
  Single, Renews, Resends, upsert_token-Renews, upsert_token-Single,
}

module _ (env : Env) where
  -- For a verified account, and for no account at all, the answer is the same, and nothing is written.
  pub resend_silent :
      (dto : ResendVerificationDto) (at : Moment) (w : World)
      → ((u : User) → lookup env dto w ≡ some u → u.is_verified ≡ true)
      → resend_verification_email env dto at w ≡ (ok resend_response, w)
  unfolding resend_verification_email
  resend_silent dto at w verified = elim (Option-cases (lookup env dto w)) [
    | inl e ↦ ground arith
    | inr (u, e) ↦ let v = verified u e in ground arith
  ]

  -- Few tokens of an account are recent if it has few.
  recent_few :
      (id now : ℕ) (w : World)
      → Single w
      → leb max_resend_per_hour (recent_token_count env id now w) ≡ false
  recent_few id now w single =
      let few =
        count_mono (token_of id) (token_since id (now - 60 * 60 * 1000)) w.email_tokens
          (λ x k. ground arith) in
      ground (
        arith,
        single id,
        env.count_lem EmailVerificationToken (token_since id (now - 60 * 60 * 1000)) w.email_tokens,
      )

  resend_to-Resends :
      (u : User) (i : Option CitizenIdentity) (at : Moment) (w : World)
      → Single w
      → Resends env u at w (resend_to env u i at w)
  unfolding resend_to upsert_token
  resend_to-Resends u i at w single =
      let few = recent_few u.id at.now w single in
      let kept = upsert_token-Single env u.id at w single in
      elim (Reply-cases (
        env.upsert EmailVerificationToken (token_of u.id) (verification_token_row env u.id at)
          (renew env at) w.email_tokens)) [
            | inr (code, e) ↦
                let reached : resend_to env u i at w ≡ (throws (prisma code), w) = ground arith in
                subst (Resends env u at w) (sym reached) (single, inr (code, refl, refl))
            | inl ((stored, rows), e) ↦
                let v : World = record w { email_tokens = rows } in
                let ran : upsert_token env u.id at w ≡ (ok tt, v) = ground arith in
                let mail =
                  verification_email u.email (sur_name_of i) (post_names_of i) u.id at.random in
                let reached : resend_to env u i at w
                    ≡ (ok resend_response, record v { mails = w.mails ++ mail ∷ [] }) =
                  ground arith in
                let renews = upsert_token-Renews env u.id at w ran in
                subst (Resends env u at w) (sym reached) (
                  subst Single (ap (λ z. z.1) ran) kept,
                  inl (
                    refl,
                    (sur_name_of i, post_names_of i, refl),
                    record {
                      token = renews.token;
                      found = renews.found;
                      hashed = renews.hashed;
                      unused = renews.unused;
                      expiry = renews.expiry;
                      frame = refl;
                    },
                  ),
                )
          ]

  -- While no account has more than one token, which every resend keeps, a resend for an unverified
  -- account is never held back, however many came before it: the account's token is replaced by one
  -- of 24 hours and the mail is sent, unless the database refuses the write, and then nothing changes.
  pub resend_unlimited :
      (dto : ResendVerificationDto) (at : Moment) (w : World) (u : User)
      → Single w
      → lookup env dto w ≡ some u
      → u.is_verified ≡ false
      → Resends env u at w (resend_verification_email env dto at w)
  unfolding resend_verification_email
  resend_unlimited dto at w u single found unverified =
      let i = identity_of env w u.id in
      let reached : resend_verification_email env dto at w ≡ resend_to env u i at w =
        ground arith in
      subst (Resends env u at w) (sym reached) (resend_to-Resends u i at w single)

  welcome_users :
      (u : User) (i : Option CitizenIdentity) (pid : Option PlatformId) (at : Moment) (w : World)
      → (welcome env u i pid at w).1.users ≡ w.users
  unfolding welcome generate_post_email_verification_tokens
  welcome_users u i pid at w = ground arith

  verify-renewed :
      (at at' : Moment) (w w' : World) (u : User)
      → find (λ (a : User). a.id == u.id) w.users ≡ some u
      → u.is_verified ≡ false
      → Renews env u.id at w w'
      → at'.now ≤ at.now + verification_token_expiry_ms
      → ((verify_email env (record { user_id = u.id; token = at.random }) at' w').1.users
          ≡ update_where (λ (a : User). a.id == u.id) activate_user w.users)
        ⊎ ((code : String) × (verify_email env (record { user_id = u.id; token = at.random }) at' w'
              ≡ (throws (prisma code), w')))
  unfolding verify_email use_verification_token activate_account
  verify-renewed at at' w w' u account unverified renews current =
      let t = renews.token in
      let dto : VerifyEmailDto = record { user_id = u.id; token = at.random } in
      let same : w'.users ≡ w.users = ap (λ (z : World). z.users) renews.frame in
      let stored =
        env.find_first_lem EmailVerificationToken (token_of u.id) w'.email_tokens ∙ renews.found in
      let whose : t.user_id ≡ u.id =
        ground (arith, find_sound (token_of u.id) w'.email_tokens renews.found) in
      let account' : find_by_id env t.user_id w' ≡ some u =
        ap (λ n. find_by_id env n w') whose
        ∙ env.find_first_lem User (λ a. a.id == u.id) w'.users
        ∙ ap (find (λ (a : User). a.id == u.id)) same
        ∙ account in
      let matches : (env.hash at.random == t.token_hash) ≡ true =
        ap (λ n. env.hash at.random == n) renews.hashed ∙ ==_refl (env.hash at.random) in
      let open_link : ltb t.expires_at at'.now ≡ false = ground (arith, renews.expiry) in
      let i = identity_of env w' u.id in
      let pid = platform_id_of env w' u.id in
      let checked : verify_email env dto at' w'
          ≡ (activate_account env u.id t >> welcome env u i pid at') w' =
        ground arith in
      elim (Reply-cases (env.transaction World (accepted (activated env u.id t w')))) [
        | inr (code, e) ↦ inr (code, ground arith)
        | inl (v, e) ↦
            let done : activated env u.id t w' ≡ v =
              ground (arith, env.transaction_lem World (accepted (activated env u.id t w')) v e) in
            let reached : (verify_email env dto at' w').1 ≡ (welcome env u i pid at' v).1 =
              ground arith in
            inl (
              ap (λ (z : World). z.users) reached
              ∙ welcome_users u i pid at' v
              ∙ ap (λ (z : World). z.users) (sym done)
              ∙ env.update_lem User (λ a. a.id == u.id) activate_user w'.users u
                  (ap (find (λ (a : User). a.id == u.id)) same ∙ account)
              ∙ ap (update_where (λ (a : User). a.id == u.id) activate_user) same)
      ]

  -- The link of a resend verifies and activates the account up to the last millisecond of its 24
  -- hours, unless the database refuses the transaction, and then nothing changes.
  pub resend-verify_email :
      (dto : ResendVerificationDto) (at at' : Moment) (w : World) (u : User) {m : String}
      {w' : World}
      → Single w
      → lookup env dto w ≡ some u
      → find (λ (a : User). a.id == u.id) w.users ≡ some u
      → u.is_verified ≡ false
      → resend_verification_email env dto at w ≡ (ok m, w')
      → at'.now ≤ at.now + verification_token_expiry_ms
      → ((verify_email env (record { user_id = u.id; token = at.random }) at' w').1.users
          ≡ update_where (λ (a : User). a.id == u.id) activate_user w.users)
        ⊎ ((code : String) × (verify_email env (record { user_id = u.id; token = at.random }) at' w'
              ≡ (throws (prisma code), w')))
  unfolding verify_email use_verification_token
  resend-verify_email dto at at' w u {m} {w'} single found account unverified h current =
      let facts : Resends env u at w (ok m, w') =
        subst (Resends env u at w) h (resend_unlimited dto at w u single found unverified) in
      elim facts.1 [
        | inr (code, failed, same) ↦ ground arith
        | inl (sent, mailed, renews) ↦
            verify-renewed at at' w w' u account unverified renews current
      ]
