-- ===== src/PasswordReset/RoundTrip.antt =====
-- From the request of a reset link to its use.
use gracon_user_auth_service.Common.{
  ℕ, ◌+◌, ◌≡◌, refl, ap, ◌∙◌, arith, true, none, some, [], ◌∷◌, String, leb, find, update_where,
}
use gracon_user_auth_service.Common.Tables.{find-append_none, find_missing-update_where}
use gracon_user_auth_service.Platform.{User, PasswordResetToken, World, ok, Env, Moment}
use gracon_user_auth_service.Auth.Login.{by_email}
use gracon_user_auth_service.PasswordReset.{
  token_expiry_ms, unused_of, use_token, reset_row, request_reset, find_valid_token,
  validate_reset_token,
}
use gracon_user_auth_service.PasswordReset.Request.{request_reset-SendsLink}
use gracon_user_auth_service.PasswordReset.Links.{by_link}

module _ (env : Env) where
  -- A link that was mailed to an active account is valid for one hour, the last millisecond included,
  -- and called expired from then on, if its random text had not been drawn for the account before.
  pub request-validate :
      (email : String) (at : Moment) (now : ℕ) (w : World) (u : User) {m : String} {w' : World}
      → find (by_email email) w.users ≡ some u
      → u.is_active ≡ true
      → find (by_link u.id (env.hash at.random)) w.reset_tokens ≡ none
      → request_reset env email at w ≡ (ok m, w')
      → (validate_reset_token env u.id at.random now w').0 ≡ leb now (at.now + token_expiry_ms)
  unfolding validate_reset_token find_valid_token find
  request-validate email at now w u {m} {w'} found active unseen h =
      let link = request_reset-SendsLink env email at w u found active h in
      let row = link.row in
      let rows = link.tokens in
      let q = by_link u.id (env.hash at.random) in
      let old =
        find_missing-update_where (unused_of u.id) q use_token w.reset_tokens (λ a. refl) unseen in
      let new =
        find-append_none q (update_where (unused_of u.id) use_token w.reset_tokens)
          (reset_row env u.id at row ∷ []) old in
      let stored : env.find_first PasswordResetToken q w'.reset_tokens
          ≡ some (reset_row env u.id at row) =
        env.find_first_lem PasswordResetToken q w'.reset_tokens
        ∙ ap (find q) rows
        ∙ new
        ∙ ground arith in
      ground arith
