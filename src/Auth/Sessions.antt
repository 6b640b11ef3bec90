-- ===== src/Auth/Sessions.antt =====
-- The session invariant: an active full refresh token belongs to an account whose identity is
-- verified. Every operation of the service keeps it, on every branch.
use gracon_user_auth_service.Common.{
  ℕ, ◌≡◌, refl, ap, ◌∙◌, ◌⊎◌, inl, inr, arith, Bool, true, false, not, ◌&&◌, some, List, String,
  ltb, ◌==◌, Bool-cases, Option-cases, All, find, ==_refl,
}
use gracon_user_auth_service.Common.Tables.{All-find, find_other}
use gracon_user_auth_service.Platform.{full, limited, User, RefreshToken, World, Env, Moment}
use gracon_user_auth_service.Auth.{
  Origin, LoginDto, login, login_token_type, active_of, active_limited_of, rotated_type,
  generate_tokens, revoke_all_user_tokens, refresh_tokens, upgrade_session, rotate_refresh_token,
  rotate_stored, upgrade_token, logout, logout_all_devices,
}
use gracon_user_auth_service.Auth.Login.{login_state}
use gracon_user_auth_service.Auth.Tokens.{generate_tokens_state}
use gracon_user_auth_service.Auth.Rotation.{revoke, by_hash}
use gracon_user_auth_service.Auth.Sound.{
  HasVerifiedOwner, Covered, IsSound, Keeps, Keeps-IsSound, update-Covered, MayIssue-Covered,
  owner_of_find, login_type-Covered,
}

module _ (env : Env) where
  revoke_rows-Keeps :
      (p : RefreshToken → Bool) (w : World)
      → All (Covered w.users) w.refresh_tokens
      → All (Covered w.users) (env.update_many RefreshToken p revoke w.refresh_tokens)
  revoke_rows-Keeps p w a = rw env.update_many_lem (update-Covered w.users p w.refresh_tokens a)

  pub logout-IsSound : (token : String) (w : World) → IsSound w → IsSound (logout env token w).1
  unfolding logout
  logout-IsSound token w s = Keeps-IsSound w _ s (refl, revoke_rows-Keeps _ w s.covered)

  pub logout_all_devices-IsSound :
      (id now : ℕ) (w : World) → IsSound w → IsSound (logout_all_devices env id now w).1
  unfolding logout_all_devices revoke_all_user_tokens
  logout_all_devices-IsSound id now w s =
      Keeps-IsSound w _ s (refl, revoke_rows-Keeps _ w s.covered)

  pub login-IsSound :
      (dto : LoginDto) (from : Origin) (at : Moment) (w : World)
      → IsSound w
      → IsSound (login env dto from at w).1
  login-IsSound dto from at w s =
      let (frame, tokens) = login_state env dto from at w in
      Keeps-IsSound w _ s (
        ap (λ (v : World). v.users) frame,
        elim tokens [
          | inl same ↦ rw same s.covered
          | inr (u, found, added) ↦
              MayIssue-Covered env w.users u.id (login_token_type u) from at s.covered
                (login_type-Covered w.users u (owner_of_find w.users _ u s.keyed found)) added
        ],
      )

  rotated_type-Covered :
      (users : List User) (u : User) (t : RefreshToken)
      → find (λ (a : User). a.id == t.user_id) users ≡ some u
      → find (λ (a : User). a.id == u.id) users ≡ some u
      → t.revoked ≡ false
      → Covered users t
      → (rotated_type u t.token_type ≡ limited) ⊎ HasVerifiedOwner users u.id
  rotated_type-Covered users u t e own active (inl r) = cc
  rotated_type-Covered users u t e own active (inr (inl lim)) = elim (Bool-cases u.is_id_verified) [
    | inl verified ↦ inr (u, own, verified)
    | inr not_verified ↦ inl (rw (not_verified, lim))
  ]
  rotated_type-Covered users u t e own active (inr (inr (v, same, verified))) =
      let one : u ≡ v = ground arith in inr (u, own, rw one verified)

  -- A rotation changes the tokens and the security log, and keeps every token covered.
  rotate_stored-Keeps :
      (t s : RefreshToken) (from : Origin) (require_full : Bool) (at : Moment) (w : World)
      → IsSound w
      → Covered w.users t
      → find (λ (x : RefreshToken). x.id == t.id) w.refresh_tokens ≡ some s
      → Keeps w (rotate_stored env t from require_full at w).1
  unfolding rotate_stored revoke_all_user_tokens
  rotate_stored-Keeps t s from require_full at w sound c there = elim (Bool-cases t.revoked) [
    | inl reused ↦
        let rows : (rotate_stored env t from require_full at w).1.refresh_tokens
            ≡ env.update_many RefreshToken (active_of t.user_id) revoke w.refresh_tokens =
          ground arith in
        (ground arith, rw rows (revoke_rows-Keeps (active_of t.user_id) w sound.covered))
    | inr active ↦ elim (Option-cases (env.find_first User (λ a. a.id == t.user_id) w.users)) [
      | inl e ↦
          let rows : (rotate_stored env t from require_full at w).1.refresh_tokens
              ≡ w.refresh_tokens =
            ground arith in
          (ground arith, rw rows sound.covered)
      | inr (u, e) ↦
          let found : find (λ (a : User). a.id == t.user_id) w.users ≡ some u =
            ground (arith, env.find_first_lem User (λ a. a.id == t.user_id) w.users) in
          let own = owner_of_find w.users _ u sound.keyed found in
          let v : World = record w {
            refresh_tokens = env.update RefreshToken (λ x. x.id == t.id) revoke w.refresh_tokens;
          } in
          let covered : All (Covered w.users) v.refresh_tokens =
            rw (env.update_lem RefreshToken (λ x. x.id == t.id) revoke w.refresh_tokens s there)
              (update-Covered w.users (λ x. x.id == t.id) w.refresh_tokens sound.covered) in
          let (frame, tokens) =
            generate_tokens_state env u.id u.email from (rotated_type u t.token_type) at v in
          let issued =
            MayIssue-Covered env w.users u.id (rotated_type u t.token_type) from at covered
              (rotated_type-Covered w.users u t found own active c) tokens in
          elim (Bool-cases (
            not (ltb t.expires_at at.now)
            && (u.is_active && not (require_full && not u.is_id_verified)))) [
              | inl passed ↦
                  let reached : (rotate_stored env t from require_full at w).1
                      ≡ (generate_tokens env u.id u.email from (rotated_type u t.token_type) at
                          v).1 =
                    ground arith in
                  (ground arith, rw (ap (λ (x : World). x.refresh_tokens) reached) issued)
              | inr refused ↦
                  let rows : (rotate_stored env t from require_full at w).1.refresh_tokens
                      ≡ w.refresh_tokens =
                    ground arith in
                  (ground arith, rw rows sound.covered)
            ]
    ]
  ]

  rotate_refresh_token-IsSound :
      (h : ℕ) (from : Origin) (require_full : Bool) (at : Moment) (w : World)
      → IsSound w
      → IsSound (rotate_refresh_token env h from require_full at w).1
  unfolding rotate_refresh_token
  rotate_refresh_token-IsSound h from require_full at w s =
      elim (Option-cases (env.find_first RefreshToken (by_hash h) w.refresh_tokens)) [
        | inl e ↦ rw (e, rotate_refresh_token) s
        | inr (t, e) ↦
            let found : find (by_hash h) w.refresh_tokens ≡ some t =
              ground (arith, env.find_first_lem RefreshToken (by_hash h) w.refresh_tokens) in
            let (x, there) =
              find_other (by_hash h) (λ x. x.id == t.id) w.refresh_tokens found (==_refl t.id) in
            let kept =
              rotate_stored-Keeps t x from require_full at w s
                (All-find (Covered w.users) (by_hash h) w.refresh_tokens s.covered found) there in
            rw (e, rotate_refresh_token) (Keeps-IsSound w _ s kept)
      ]

  pub refresh_tokens-IsSound :
      (token : String) (from : Origin) (at : Moment) (w : World)
      → IsSound w
      → IsSound (refresh_tokens env token from at w).1
  unfolding refresh_tokens
  refresh_tokens-IsSound token from at w s =
      rotate_refresh_token-IsSound (env.hash token) from false at w s

  pub upgrade_session-IsSound :
      (token : String) (from : Origin) (at : Moment) (w : World)
      → IsSound w
      → IsSound (upgrade_session env token from at w).1
  unfolding upgrade_session
  upgrade_session-IsSound token from at w s =
      let same : (upgrade_session env token from at w).1
          ≡ (rotate_refresh_token env (env.hash token) from true at w).1 =
        ground arith in
      rw same (rotate_refresh_token-IsSound (env.hash token) from true at w s)

  -- `upgradeToken` keeps the invariant where the account's identity has been verified.
  pub upgrade_token-IsSound :
      (id : ℕ) (from : Origin) (at : Moment) (w : World)
      → HasVerifiedOwner w.users id
      → IsSound w
      → IsSound (upgrade_token env id from at w).1
  unfolding upgrade_token
  upgrade_token-IsSound id from at w (u, found, verified) s =
      let stored : env.find_first User (λ a. a.id == id) w.users ≡ some u =
        env.find_first_lem User (λ a. a.id == id) w.users ∙ found in
      let v : World = record w {
        refresh_tokens =
            env.update_many RefreshToken (active_limited_of id) revoke w.refresh_tokens;
      } in
      let (frame, tokens) = generate_tokens_state env u.id u.email from full at v in
      let reached : (upgrade_token env id from at w).1
          ≡ (generate_tokens env u.id u.email from full at v).1 =
        ground arith in
      let issued =
        MayIssue-Covered env w.users u.id full from at
          (revoke_rows-Keeps (active_limited_of id) w s.covered)
          (inr (u, owner_of_find w.users _ u s.keyed found, verified)) tokens in
      rw reached (Keeps-IsSound w _ s (ground arith, issued))
