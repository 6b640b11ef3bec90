-- ===== src/Auth/Rotation.antt =====
-- The rotation of refresh tokens: each token serves once, and a reused one closes every session.
use gracon_user_auth_service.Common.{
  ℕ, ◌<◌, ◌≡◌, refl, ap, ◌∙◌, inl, inr, arith, Bool, true, false, not, ◌&&◌, some, [], String, ◌==◌,
  Option-cases, find, select, update_where, ==_refl,
}
use gracon_user_auth_service.Common.Tables.{find_other, find-update_where, find-append}
use gracon_user_auth_service.Platform.{
  full, User, RefreshToken, World, unauthorized, ok, throws, Env, Moment,
}
use gracon_user_auth_service.Platform.Laws.{Outcome-cases}
use gracon_user_auth_service.Auth.{
  Origin, AuthTokens, active_of, rotated_type, generate_tokens, revoke_all_user_tokens,
  refresh_tokens, upgrade_session, rotate_refresh_token, rotate_stored,
}
use gracon_user_auth_service.Auth.Tokens.{Issues, generate_tokens-eq-ok, revoke_all-none}

-- The search for a token by its digest.
abbrev pub by_hash : ℕ → RefreshToken → Bool
by_hash h t = t.token_hash == h

abbrev pub revoke : RefreshToken → RefreshToken
revoke t = record t { revoked = true }

-- What a rotation of the stored token `t` rests on and does: `t` is active and has not expired, its
-- account `u` is active, `t` is revoked, and one new token is added.
pub record Rotates (env : Env) (from : Origin) (at : Moment) (t : RefreshToken) (u : User)
    (r : AuthTokens) (w w' : World) : Type 0 where
  pub active : t.revoked ≡ false
  pub current : t.expires_at < at.now → ⊥
  pub account : find (λ (a : User). a.id == t.user_id) w.users ≡ some u
  pub account_active : u.is_active ≡ true
  pub type : r.token_type ≡ rotated_type u t.token_type
  pub token : r.refresh_token ≡ at.random
  pub frame : w' ≡ record w { refresh_tokens = w'.refresh_tokens }
  pub rows :
      Issues env u.id r.token_type from at
        (update_where (λ (x : RefreshToken). x.id == t.id) revoke w.refresh_tokens)
        w'.refresh_tokens

module _ (env : Env) where
  rotate_stored-Rotates :
      (t : RefreshToken) (from : Origin) (require_full : Bool) (at : Moment) (w : World)
      (s : RefreshToken) {r : AuthTokens} {w' : World}
      → find (λ (x : RefreshToken). x.id == t.id) w.refresh_tokens ≡ some s
      → rotate_stored env t from require_full at w ≡ (ok r, w')
      → (u : User) × Rotates env from at t u r w w'
        × ((require_full && not u.is_id_verified) ≡ false)
  unfolding rotate_stored
  rotate_stored-Rotates t from require_full at w s {r} {w'} there h =
      elim (Option-cases (env.find_first User (λ a. a.id == t.user_id) w.users)) [
        | inl e ↦ ground arith
        | inr (u, e) ↦
            let rows = update_where (λ (x : RefreshToken). x.id == t.id) revoke w.refresh_tokens in
            let v : World = record w {
              refresh_tokens = env.update RefreshToken (λ x. x.id == t.id) revoke w.refresh_tokens;
            } in
            let issued : generate_tokens env u.id u.email from (rotated_type u t.token_type) at v
                ≡ (ok r, w') =
              ground arith in
            let (p, q, same, i) =
              generate_tokens-eq-ok env u.id u.email from (rotated_type u t.token_type) at v
                issued in
            let updated =
              env.update_lem RefreshToken (λ x. x.id == t.id) revoke w.refresh_tokens s there in
            (
              u,
              record {
                active = ground arith;
                current = λ k. ground arith;
                account = ground (arith, env.find_first_lem User (λ a. a.id == t.user_id) w.users);
                account_active = ground arith;
                type = p;
                token = q;
                frame = ground arith;
                rows = (i.0, ground arith);
              },
              ground arith,
            )
      ]

  rotate-Rotates :
      (h : ℕ) (from : Origin) (require_full : Bool) (at : Moment) (w : World) {r : AuthTokens}
      {w' : World}
      → rotate_refresh_token env h from require_full at w ≡ (ok r, w')
      → (t : RefreshToken) × (u : User) × (find (by_hash h) w.refresh_tokens ≡ some t)
        × Rotates env from at t u r w w'
        × ((require_full && not u.is_id_verified) ≡ false)
  unfolding rotate_refresh_token
  rotate-Rotates h from require_full at w {r} {w'} e =
      elim (Option-cases (env.find_first RefreshToken (by_hash h) w.refresh_tokens)) [
        | inl none_found ↦ ground arith
        | inr (t, stored) ↦
            let found : find (by_hash h) w.refresh_tokens ≡ some t =
              ground (arith, env.find_first_lem RefreshToken (by_hash h) w.refresh_tokens) in
            let rotated : rotate_stored env t from require_full at w ≡ (ok r, w') = ground arith in
            let (s, there) =
              find_other (by_hash h) (λ x. x.id == t.id) w.refresh_tokens found (==_refl t.id) in
            let (u, moved, checked) =
              rotate_stored-Rotates t from require_full at w s there rotated in
            (t, u, found, moved, checked)
      ]

  -- A refresh that succeeds rotates the stored token of that digest.
  pub refresh_tokens-eq-ok :
      (token : String) (from : Origin) (at : Moment) (w : World) {r : AuthTokens} {w' : World}
      → refresh_tokens env token from at w ≡ (ok r, w')
      → (t : RefreshToken) × (u : User) × (find (by_hash (env.hash token)) w.refresh_tokens
          ≡ some t)
        × Rotates env from at t u r w w'
  unfolding refresh_tokens
  refresh_tokens-eq-ok token from at w h =
      let (t, u, found, rotated, _) = rotate-Rotates (env.hash token) from false at w h in
      (t, u, found, rotated)

  -- An upgrade that succeeds yields a full token of an account whose identity is verified.
  pub upgrade_session-eq-ok :
      (token : String) (from : Origin) (at : Moment) (w : World) {r : AuthTokens} {w' : World}
      → upgrade_session env token from at w ≡ (ok r, w')
      → (t : RefreshToken) × (u : User) × (find (by_hash (env.hash token)) w.refresh_tokens
          ≡ some t)
        × Rotates env from at t u r w w'
        × (u.is_id_verified ≡ true)
        × (r.token_type ≡ full)
  unfolding upgrade_session
  upgrade_session-eq-ok token from at w {r} {w'} h =
      elim (Outcome-cases (rotate_refresh_token env (env.hash token) from true at w)) [
        | inl (a, v, e) ↦
            let (t, u, found, rotated, checked) =
              rotate-Rotates (env.hash token) from true at w e in
            let same : v ≡ w' = ground arith in
            let value : a ≡ r = ground arith in
            (t, u, found, rw (← same, ← value) rotated, ground arith, ground arith)
        | inr (x, v, e) ↦ ground arith
      ]

  -- A token that was revoked is refused, and no session of its account stays active.
  pub refresh_tokens_reuse :
      (token : String) (from : Origin) (at : Moment) (w : World) (t : RefreshToken)
      → find (by_hash (env.hash token)) w.refresh_tokens ≡ some t
      → t.revoked ≡ true
      → let (r, w') = refresh_tokens env token from at w in
        (r ≡ throws (unauthorized "Refresh token has been revoked..."))
        × (select (active_of t.user_id) w'.refresh_tokens ≡ [])
        × (w'.users ≡ w.users)
  unfolding refresh_tokens rotate_refresh_token rotate_stored revoke_all_user_tokens
  refresh_tokens_reuse token from at w t found revoked =
      let stored : env.find_first RefreshToken (by_hash (env.hash token)) w.refresh_tokens
          ≡ some t =
        env.find_first_lem RefreshToken (by_hash (env.hash token)) w.refresh_tokens ∙ found in
      (ground arith, ground (arith, revoke_all-none env t.user_id w), ground arith)

  -- A refresh token serves once: presented again, whatever the origin and the time, it is refused, and
  -- then no session of its account stays active.
  pub refresh_tokens_once :
      (token : String) (from from' : Origin) (at at' : Moment) (w : World) (t : RefreshToken)
      {r : AuthTokens} {w' : World}
      → find (by_hash (env.hash token)) w.refresh_tokens ≡ some t
      → refresh_tokens env token from at w ≡ (ok r, w')
      → let (r', w'') = refresh_tokens env token from' at' w' in
        (r' ≡ throws (unauthorized "Refresh token has been revoked..."))
        × (select (active_of t.user_id) w''.refresh_tokens ≡ [])
  refresh_tokens_once token from from' at at' w t {r} {w'} here h =
      let (s, u, found, moved) = refresh_tokens-eq-ok token from at w h in
      let one : s ≡ t = ground arith in
      let p = λ (x : RefreshToken). x.id == s.id in
      let q = by_hash (env.hash token) in
      let kept : find q (update_where p revoke w.refresh_tokens) ≡ some (revoke s) =
        find-update_where p q revoke w.refresh_tokens (λ a. refl) found ∙ ground arith in
      let again : find q w'.refresh_tokens ≡ some (revoke s) =
        ap (find q) moved.rows.1 ∙ find-append q (update_where p revoke w.refresh_tokens) _ kept in
      let (refused, closed, _) = refresh_tokens_reuse token from' at' w' (revoke s) again refl in
      (refused, rw (← one) closed)
