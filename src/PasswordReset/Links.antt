-- ===== src/PasswordReset/Links.antt =====
-- What a reset link is good for: the password changes once, under a valid link, and every session
-- of the account is closed.
use gracon_user_auth_service.Common.{
  ℕ, ◌<◌, ◌≡◌, refl, ap, ◌∙◌, ◌⊎◌, inl, inr, arith, Bool, true, false, ◌&&◌, some, [], String,
  str_eq, ◌==◌, Option-cases, find, none, sym, Bool-cases, select, update_where, ==_refl,
}
use gracon_user_auth_service.Common.Tables.{find_other, find-update_where, select-update_where_none}
use gracon_user_auth_service.Platform.{
  User, PasswordResetToken, RefreshToken, accepted, World, prisma, bad_request, ok, throws, Env,
  Moment,
}
use gracon_user_auth_service.Platform.Laws.{Outcome-cases, Reply-cases}
use gracon_user_auth_service.Auth.{active_of}
use gracon_user_auth_service.PasswordReset.{
  ResetPasswordDto, TokenLookup, valid, invalid, reset_done, use_token, find_valid_token,
  validate_reset_token, reset_state, commit_reset, reset_password,
}

-- The search of `findValidToken`.
abbrev pub by_link : ℕ → ℕ → PasswordResetToken → Bool
by_link user_id h t = t.user_id == user_id && t.token_hash == h

-- What a password reset that succeeds rests on and does.
pub record Resets (env : Env) (dto : ResetPasswordDto) (at : Moment) (w w' : World) : Type 0 where
  pub token : PasswordResetToken
  pub confirmed : str_eq dto.new_password dto.confirm_password ≡ true
  pub found : find (by_link dto.user_id (env.hash dto.token)) w.reset_tokens ≡ some token
  pub fresh : token.used ≡ false
  pub current : token.expires_at < at.now → ⊥
  pub users :
      w'.users
      ≡ update_where
          (λ (u : User). u.id == dto.user_id)
          (λ u. record u { password_hash = env.bcrypt_hash at.salt dto.new_password })
          w.users
  pub tokens :
      w'.reset_tokens
      ≡ update_where (λ (r : PasswordResetToken). r.id == token.id) use_token w.reset_tokens
  pub closed : select (active_of dto.user_id) w'.refresh_tokens ≡ []
  pub frame : w' ≡ record w {
    users = w'.users;
    reset_tokens = w'.reset_tokens;
    refresh_tokens = w'.refresh_tokens;
    security_events = w'.security_events;
  }

TokenLookup-cases :
    (r : TokenLookup)
    → ((t : PasswordResetToken) × (r ≡ valid t)) ⊎ ((m : String) × (r ≡ invalid m))
TokenLookup-cases (valid t) = inl (t, refl)
TokenLookup-cases (invalid m) = inr (m, refl)

module _ (env : Env) where
  -- The look-up finds a valid token exactly if it is unused and has not expired.
  find_valid_token-eq-valid :
      (id : ℕ) (token : String) (now : ℕ) (w : World) {t : PasswordResetToken}
      → find_valid_token env id token now w ≡ valid t
      → (find (by_link id (env.hash token)) w.reset_tokens ≡ some t)
        × (t.used ≡ false)
        × (t.expires_at < now → ⊥)
  unfolding find_valid_token
  find_valid_token-eq-valid id token now w {t} h =
      elim (Option-cases
        (env.find_first PasswordResetToken (by_link id (env.hash token)) w.reset_tokens)) [
          | inl e ↦ ground arith
          | inr (s, e) ↦ (
            ground (
              arith,
              env.find_first_lem PasswordResetToken (by_link id (env.hash token)) w.reset_tokens,
            ),
            ground arith,
            λ k. ground arith,
          )
        ]

  commit_reset-eq-ok :
      (id : ℕ) (t : PasswordResetToken) (hash : String) (w : World) {x : Unit {0}} {w' : World}
      → commit_reset env id t hash w ≡ (ok x, w')
      → w' ≡ reset_state env id t hash w
  unfolding commit_reset
  commit_reset-eq-ok id t hash w {x} {w'} h =
      elim (Reply-cases (env.transaction World (accepted (reset_state env id t hash w)))) [
        | inl (v, e) ↦
            let done = env.transaction_lem World (accepted (reset_state env id t hash w)) v e in
            ground arith
        | inr (c, e) ↦ ground arith
      ]

  pub reset_password-Resets :
      (dto : ResetPasswordDto) (at : Moment) (w : World) (u : User) {m : String} {w' : World}
      → find (λ (a : User). a.id == dto.user_id) w.users ≡ some u
      → reset_password env dto at w ≡ (ok m, w')
      → Resets env dto at w w'
  unfolding reset_password
  reset_password-Resets dto at w u {m} {w'} account h =
      elim (TokenLookup-cases (find_valid_token env dto.user_id dto.token at.now w)) [
        | inl (t, e) ↦
            let (found, fresh, current) =
              find_valid_token-eq-valid dto.user_id dto.token at.now w e in
            elim (Outcome-cases
              (commit_reset env dto.user_id t (env.bcrypt_hash at.salt dto.new_password) w)) [
                | inl (x, v, c) ↦
                    let state =
                      commit_reset-eq-ok dto.user_id t (env.bcrypt_hash at.salt dto.new_password) w
                        c in
                    let (s, there) =
                      find_other (by_link dto.user_id (env.hash dto.token)) (λ r. r.id == t.id)
                        w.reset_tokens found (==_refl t.id) in
                    let sessions : w'.refresh_tokens
                        ≡ env.update_many RefreshToken (active_of dto.user_id)
                            (λ r. record r { revoked = true }) w.refresh_tokens =
                      ground arith in
                    record {
                      token = t;
                      confirmed = ground arith;
                      found = found;
                      fresh = fresh;
                      current = current;
                      users = ground (
                        arith,
                        env.update_lem User (λ a. a.id == dto.user_id)
                            (λ a. record a {
                              password_hash = env.bcrypt_hash at.salt dto.new_password;
                            })
                            w.users u account,
                      );
                      tokens = ground (
                        arith,
                        env.update_lem PasswordResetToken (λ r. r.id == t.id) use_token
                            w.reset_tokens s there,
                      );
                      closed =
                          rw
                            (sessions
                              ∙ env.update_many_lem RefreshToken (active_of dto.user_id)
                                  (λ r. record r { revoked = true }) w.refresh_tokens)
                            (select-update_where_none (active_of dto.user_id) _ w.refresh_tokens
                              (λ r. ground arith));
                      frame = ground arith;
                    }
                | inr (x, v, c) ↦ ground arith
              ]
        | inr (reason, e) ↦ ground arith
      ]

  -- A link serves once: after a reset, every further reset with the same link is refused, whatever
  -- the new password and the time, and changes nothing.
  pub reset_password_once :
      (dto dto' : ResetPasswordDto) (at at' : Moment) (w : World) (u : User) {m : String}
      {w' : World}
      → find (λ (a : User). a.id == dto.user_id) w.users ≡ some u
      → reset_password env dto at w ≡ (ok m, w')
      → dto'.user_id ≡ dto.user_id
      → dto'.token ≡ dto.token
      → str_eq dto'.new_password dto'.confirm_password ≡ true
      → reset_password env dto' at' w' ≡ (
        throws (bad_request "This reset link has already been used. Please request a new one."),
        w',
      )
  unfolding reset_password find_valid_token
  reset_password_once dto dto' at at' w u {m} {w'} account h same_user same_token confirmed =
      let r = reset_password-Resets dto at w u account h in
      let p = λ (x : PasswordResetToken). x.id == r.token.id in
      let q = by_link dto.user_id (env.hash dto.token) in
      let kept : find q (update_where p use_token w.reset_tokens) ≡ some (use_token r.token) =
        find-update_where p q use_token w.reset_tokens (λ a. refl) r.found ∙ ground arith in
      let stored : env.find_first PasswordResetToken (by_link dto'.user_id (env.hash dto'.token))
            w'.reset_tokens
          ≡ some (use_token r.token) =
        rw (same_user, same_token)
          (env.find_first_lem PasswordResetToken q w'.reset_tokens ∙ ap (find q) r.tokens ∙ kept) in
      ground arith

  -- What makes a link invalid: it is not known, it has been used, or it has expired.
  abbrev pub IsRefused : ResetPasswordDto → ℕ → World → Type 0
  IsRefused dto now w =
      (find (by_link dto.user_id (env.hash dto.token)) w.reset_tokens ≡ none)
      ⊎ ((t : PasswordResetToken) × (find (by_link dto.user_id (env.hash dto.token)) w.reset_tokens
            ≡ some t)
          × ((t.used ≡ true) ⊎ (t.expires_at < now)))

  -- What the check of a link and its use at the same time come to.
  abbrev pub Agrees : ResetPasswordDto → Moment → World → Type 0
  Agrees dto at w =
      let (is_valid, message) = validate_reset_token env dto.user_id dto.token at.now w in
      let (result, w') = reset_password env dto at w in
      ((is_valid ≡ false)
        × IsRefused dto at.now w
        × (result ≡ throws (bad_request message))
        × (w' ≡ w))
      ⊎ ((is_valid ≡ true)
          × (((result ≡ ok reset_done) × Resets env dto at w w')
              ⊎ ((code : String) × (result ≡ throws (prisma code)) × (w' ≡ w))))

  find_valid_token-IsRefused :
      (dto : ResetPasswordDto) (now : ℕ) (w : World) {reason : String}
      → find_valid_token env dto.user_id dto.token now w ≡ invalid reason
      → IsRefused dto now w
  unfolding find_valid_token
  find_valid_token-IsRefused dto now w h =
      let p = by_link dto.user_id (env.hash dto.token) in
      let same = env.find_first_lem PasswordResetToken p w.reset_tokens in
      elim (Option-cases (env.find_first PasswordResetToken p w.reset_tokens)) [
        | inl e ↦ inl (sym same ∙ e)
        | inr (t, e) ↦ elim (Bool-cases t.used) [
          | inl used ↦ inr (t, sym same ∙ e, inl used)
          | inr unused ↦ inr (t, sym same ∙ e, inr (ground arith))
        ]
      ]

  -- The check of a link of an account agrees with its use at the same time. What the check calls
  -- invalid is not known, has been used or has expired, and is refused with the same reason and no
  -- change. What it calls valid resets the password, as a reset that succeeds does, unless the database
  -- refuses the transaction, and then nothing changes.
  pub validate-reset_password :
      (dto : ResetPasswordDto) (at : Moment) (w : World) (u : User)
      → find (λ (a : User). a.id == dto.user_id) w.users ≡ some u
      → str_eq dto.new_password dto.confirm_password ≡ true
      → Agrees dto at w
  unfolding validate_reset_token reset_password commit_reset
  validate-reset_password dto at w u account confirmed =
      elim (TokenLookup-cases (find_valid_token env dto.user_id dto.token at.now w)) [
        | inl (t, e) ↦
            elim (Reply-cases (
              env.transaction World (
                accepted
                  (reset_state env dto.user_id t (env.bcrypt_hash at.salt dto.new_password) w)))) [
                    | inl (v, c) ↦
                        let done : (reset_password env dto at w).0 ≡ ok reset_done = ground arith in
                        inr (
                          ground arith,
                          inl (
                            done,
                            reset_password-Resets dto at w u account
                                (ap (λ r. (r, (reset_password env dto at w).1)) done),
                          ),
                        )
                    | inr (code, c) ↦ inr (ground arith, inr (code, ground arith, ground arith))
                  ]
        | inr (reason, e) ↦
            inl
              (ground arith, find_valid_token-IsRefused dto at.now w e, ground arith, ground arith)
      ]
