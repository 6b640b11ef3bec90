-- ===== src/Users/EmailVerification/Links.antt =====
-- What the use of a verification link rests on and does (`verifyEmail` of
-- modules/users/users.service.ts).
use gracon_user_auth_service.Common.{
  ℕ, ◌≤◌, ◌≡◌, ◌⊎◌, inl, inr, arith, true, false, some, List, [], ◌∷◌, ◌++◌, ◌==◌, find,
  update_where,
}
use gracon_user_auth_service.Platform.{
  limited, User, EmailVerificationToken, RefreshToken, accepted, World, ok, Env, Moment,
}
use gracon_user_auth_service.Platform.Laws.{Reply-cases}
use gracon_user_auth_service.Users.Requests.{VerifyEmailDto}
use gracon_user_auth_service.Users.EmailVerification.{
  VerifyEmailResult, account_ready, token_of, limited_token, activated, activate_account,
}

abbrev pub use_token : EmailVerificationToken → EmailVerificationToken
use_token t = record t { used = true }

abbrev pub activate_user : User → User
activate_user u = record u { is_verified = true; is_active = true }

-- What follows an activation: the answer and the sessions, by whether the identity is verified.
abbrev pub Welcomes :
    Env → User → Moment → List RefreshToken → VerifyEmailResult → List RefreshToken → Type 0
Welcomes env u at rows res rows' =
    ((u.is_id_verified ≡ true) × (res ≡ account_ready) × (rows' ≡ rows))
    ⊎ ((u.is_id_verified ≡ false)
        × (res.token_type ≡ some limited)
        × ((id : ℕ) × (rows' ≡ rows ++ limited_token env u.id at id ∷ [])))

-- What a verification that activates an account rests on and does.
pub record Activates (env : Env) (dto : VerifyEmailDto) (at : Moment) (w : World)
    (res : VerifyEmailResult) (w' : World) : Type 0 where
  pub token : EmailVerificationToken
  pub found : find (token_of dto.user_id) w.email_tokens ≡ some token
  pub account : User
  pub owned : find (λ u. u.id == dto.user_id) w.users ≡ some account
  pub unverified : account.is_verified ≡ false
  pub fresh : token.used ≡ false
  pub current : at.now ≤ token.expires_at
  pub matches : env.hash dto.token ≡ token.token_hash
  pub users : w'.users ≡ update_where (λ (u : User). u.id == dto.user_id) activate_user w.users
  pub tokens :
      w'.email_tokens
      ≡ update_where (λ (r : EmailVerificationToken). r.id == token.id) use_token w.email_tokens
  pub session : Welcomes env account at w.refresh_tokens res w'.refresh_tokens

module _ (env : Env) where
  pub activate_account-eq-ok :
      (id : ℕ) (t : EmailVerificationToken) (w : World) {x : Unit {0}} {w' : World}
      → activate_account env id t w ≡ (ok x, w')
      → w' ≡ activated env id t w
  unfolding activate_account
  activate_account-eq-ok id t w {x} {w'} h =
      elim (Reply-cases (env.transaction World (accepted (activated env id t w)))) [
        | inl (v, e) ↦
            let done = env.transaction_lem World (accepted (activated env id t w)) v e in
            ground arith
        | inr (c, e) ↦ ground arith
      ]
