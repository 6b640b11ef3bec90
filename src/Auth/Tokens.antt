-- ===== src/Auth/Tokens.antt =====
-- What issuing and revoking tokens does to the table of refresh tokens.
use gracon_user_auth_service.Common.{
  ℕ, ◌⊎◌, ◌≡◌, List, [], ◌∷◌, ◌++◌, inl, inr, arith, String, select,
}
use gracon_user_auth_service.Common.Tables.{select-update_where_none, select-update_where_other}
use gracon_user_auth_service.Platform.{
  World, ok, throws, Exception, Env, Moment, TokenType, RefreshToken,
}
use gracon_user_auth_service.Platform.Laws.{Reply-cases}
use gracon_user_auth_service.Auth.{
  generate_tokens, issued, AuthTokens, Origin, active_of, revoke_all_user_tokens,
}

-- The row with the given columns that `generateTokens` has added.
abbrev pub Issues :
    Env → ℕ → TokenType → Origin → Moment → List RefreshToken → List RefreshToken → Type 0
Issues env user_id ty from at rows rows' =
    (row : ℕ) × (rows' ≡ rows ++ issued env user_id ty from at row ∷ [])

-- The rows are as they were, or one row with the given columns has been added.
abbrev pub MayIssue :
    Env → ℕ → TokenType → Origin → Moment → List RefreshToken → List RefreshToken → Type 0
MayIssue env user_id ty from at rows rows' =
    (rows' ≡ rows) ⊎ Issues env user_id ty from at rows rows'

module _ (env : Env) where
  -- What `generateTokens` does to the state, whatever its outcome.
  pub generate_tokens_state :
      (id : ℕ) (email : String) (from : Origin) (ty : TokenType) (at : Moment) (w : World)
      → let w' = (generate_tokens env id email from ty at w).1 in
        (w' ≡ record w { refresh_tokens = w'.refresh_tokens })
        × MayIssue env id ty from at w.refresh_tokens w'.refresh_tokens
  unfolding generate_tokens
  generate_tokens_state id email from ty at w =
      elim (Reply-cases (env.create RefreshToken (issued env id ty from at) w.refresh_tokens)) [
        | inl ((row, rows), e) ↦
            let (n, p, q) = env.create_lem RefreshToken _ w.refresh_tokens row rows e in
            (ground arith, inr (n, ground arith))
        | inr (c, e) ↦ (ground arith, inl (ground arith))
      ]

  pub generate_tokens-eq-ok :
      (id : ℕ) (email : String) (from : Origin) (ty : TokenType) (at : Moment) (w : World)
      {t : AuthTokens} {w' : World}
      → generate_tokens env id email from ty at w ≡ (ok t, w')
      → (t.token_type ≡ ty)
        × (t.refresh_token ≡ at.random)
        × (w' ≡ record w { refresh_tokens = w'.refresh_tokens })
        × Issues env id ty from at w.refresh_tokens w'.refresh_tokens
  unfolding generate_tokens
  generate_tokens-eq-ok id email from ty at w h =
      elim (Reply-cases (env.create RefreshToken (issued env id ty from at) w.refresh_tokens)) [
        | inl ((row, rows), e) ↦
            let (n, p, q) = env.create_lem RefreshToken _ w.refresh_tokens row rows e in
            (ground arith, ground arith, ground arith, (n, ground arith))
        | inr (c, e) ↦ ground arith
      ]

  -- A handler that fails to issue tokens changes nothing.
  pub generate_tokens-throws :
      (id : ℕ) (email : String) (from : Origin) (ty : TokenType) (at : Moment) (w : World)
      {e : Exception} {w' : World}
      → generate_tokens env id email from ty at w ≡ (throws e, w')
      → w' ≡ w
  unfolding generate_tokens
  generate_tokens-throws id email from ty at w h = ground arith

  -- No active token of the account remains.
  pub revoke_all-none :
      (id : ℕ) (w : World)
      → select (active_of id) (revoke_all_user_tokens env id w).1.refresh_tokens ≡ []
  unfolding revoke_all_user_tokens
  revoke_all-none id w =
      rw env.update_many_lem
        (select-update_where_none (active_of id) _ w.refresh_tokens (λ t. ground arith))

  -- The active tokens of other accounts stay.
  pub revoke_all-other :
      (id other : ℕ) (w : World)
      → (id ≡ other → ⊥)
      → select (active_of other) (revoke_all_user_tokens env id w).1.refresh_tokens
        ≡ select (active_of other) w.refresh_tokens
  unfolding revoke_all_user_tokens
  revoke_all-other id other w ne = rw env.update_many_lem (
      select-update_where_other (active_of id) (active_of other) _ w.refresh_tokens
        (λ t h. ground arith) (λ t h. ground arith))
