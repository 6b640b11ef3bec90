-- ===== src/PasswordReset/Request.antt =====
-- What asking for a reset link answers and does.
use gracon_user_auth_service.Common.{
  ℕ, ◌≡◌, ◌∙◌, inl, inr, arith, true, false, some, [], ◌∷◌, ◌++◌, String, ◌==◌, Option-cases, find,
  select, update_where,
}
use gracon_user_auth_service.Common.Tables.{select-update_where_none, select-append_one}
use gracon_user_auth_service.Platform.{
  User, CitizenIdentity, PasswordResetToken, password_reset_email, World, ok, Env, Moment,
}
use gracon_user_auth_service.Platform.Laws.{Outcome-cases, Reply-cases}
use gracon_user_auth_service.Auth.Login.{by_email}
use gracon_user_auth_service.PasswordReset.{
  safe_response, unused_of, use_token, sur_name_of, post_names_of, reset_row, create_reset_token,
  send_reset_link, request_reset,
}

-- What a request for the active account `u` does: `row` is the id of the new token.
pub record SendsLink (env : Env) (at : Moment) (w : World) (u : User) (m : String) (w' : World)
    : Type 0 where
  pub row : ℕ
  pub sur_name : String
  pub post_names : String
  pub answer : m ≡ safe_response
  pub tokens :
      w'.reset_tokens
      ≡ update_where (unused_of u.id) use_token w.reset_tokens ++ reset_row env u.id at row ∷ []
  pub single : select (unused_of u.id) w'.reset_tokens ≡ reset_row env u.id at row ∷ []
  pub mailed :
      w'.mails ≡ w.mails ++ password_reset_email u.email sur_name post_names u.id at.random ∷ []
  pub accounts : w'.users ≡ w.users

module _ (env : Env) where
  create_reset_token-eq-ok :
      (id : ℕ) (at : Moment) (w : World) {u : Unit {0}} {w' : World}
      → create_reset_token env id at w ≡ (ok u, w')
      → (row : ℕ) × (w'
          ≡ record w { reset_tokens = w.reset_tokens ++ reset_row env id at row ∷ [] })
  unfolding create_reset_token
  create_reset_token-eq-ok id at w h =
      elim (Reply-cases (env.create PasswordResetToken (reset_row env id at) w.reset_tokens)) [
        | inl ((row, rows), e) ↦
            let (n, p, q) =
              env.create_lem PasswordResetToken (reset_row env id at) w.reset_tokens row rows e in
            (n, ground arith)
        | inr (c, e) ↦ ground arith
      ]

  -- An address that is unknown, or whose account is not active, gets the same answer as any other,
  -- and nothing is written.
  pub request_reset_silent :
      (email : String) (at : Moment) (w : World)
      → ((u : User) → find (by_email email) w.users ≡ some u → u.is_active ≡ false)
      → request_reset env email at w ≡ (ok safe_response, w)
  unfolding request_reset
  request_reset_silent email at w inactive =
      elim (Option-cases (env.find_first User (by_email email) w.users)) [
        | inl e ↦ ground arith
        | inr (u, e) ↦
            let off =
              inactive u (ground (arith, env.find_first_lem User (by_email email) w.users)) in
            ground arith
      ]

  -- A request for an active account that is answered leaves it exactly one unused token, the new one,
  -- which expires after an hour, and mails its text to the account's address.
  pub request_reset-SendsLink :
      (email : String) (at : Moment) (w : World) (u : User) {m : String} {w' : World}
      → find (by_email email) w.users ≡ some u
      → u.is_active ≡ true
      → request_reset env email at w ≡ (ok m, w')
      → SendsLink env at w u m w'
  unfolding request_reset send_reset_link
  request_reset-SendsLink email at w u {m} {w'} found active h =
      let stored : env.find_first User (by_email email) w.users ≡ some u =
        env.find_first_lem User (by_email email) w.users ∙ found in
      let identity = env.find_first CitizenIdentity (λ c. c.user_id == u.id) w.citizen_identities in
      let v : World = record w {
        reset_tokens = env.update_many PasswordResetToken (unused_of u.id) use_token w.reset_tokens;
      } in
      elim (Outcome-cases (create_reset_token env u.id at v)) [
        | inl (x, v', e) ↦
            let (row, added) = create_reset_token-eq-ok u.id at v e in
            let rows : w'.reset_tokens
                ≡ update_where (unused_of u.id) use_token w.reset_tokens
                  ++ reset_row env u.id at row ∷ [] =
              ground (
                arith,
                env.update_many_lem PasswordResetToken (unused_of u.id) use_token w.reset_tokens,
              ) in
            let none_left =
              select-update_where_none (unused_of u.id) use_token w.reset_tokens
                (λ t. ground arith) in
            record {
              row = row;
              sur_name = sur_name_of identity;
              post_names = post_names_of identity;
              answer = ground arith;
              tokens = rows;
              single = rw rows (
                  select-append_one (unused_of u.id) _ (reset_row env u.id at row) none_left
                    (ground arith));
              mailed = ground arith;
              accounts = ground arith;
            }
        | inr (x, v', e) ↦ ground arith
      ]
