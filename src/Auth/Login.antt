-- ===== src/Auth/Login.antt =====
-- The login of an account: what a session rests on, and what a refused attempt shows.
use gracon_user_auth_service.Common.{
  ℕ, ◌≡◌, ap, ◌∙◌, ◌⊎◌, inl, inr, arith, Bool, true, false, ◌&&◌, Option, some, String, str_eq,
  ◌==◌, if◌then◌else◌, Bool-cases, Option-cases, find,
}
use gracon_user_auth_service.Platform.{
  full, limited, User, CitizenIdentity, login_success, World, unauthorized, forbidden, ok, throws,
  Env, Moment,
}
use gracon_user_auth_service.Platform.Laws.{Outcome-cases}
use gracon_user_auth_service.SecurityEvents.{log_rows}
use gracon_user_auth_service.Users.Access.{find_by_email, resolve_profile_image_access}
use gracon_user_auth_service.Auth.{
  login, login_token_type, LoginDto, LoginResult, Origin, authenticate, generate_tokens,
  build_safe_profile, open_session,
}
use gracon_user_auth_service.Auth.Tokens.{
  Issues, MayIssue, generate_tokens-eq-ok, generate_tokens_state,
}

-- The search for an account by its address.
abbrev pub by_email : String → User → Bool
by_email email u = str_eq u.email email

-- What a login that succeeds rests on and does.
pub record IsAdmitted (env : Env) (dto : LoginDto) (from : Origin) (at : Moment) (w : World)
    (r : LoginResult) (w' : World) : Type 0 where
  pub account : User
  pub found : find (by_email dto.email) w.users ≡ some account
  pub valid : env.bcrypt_compare dto.password account.password_hash ≡ true
  pub verified : account.is_verified ≡ true
  pub active : account.is_active ≡ true
  pub type : r.token_type ≡ (if account.is_id_verified then full else limited)
  pub token : r.refresh_token ≡ at.random
  pub frame :
      w' ≡ record w { refresh_tokens = w'.refresh_tokens; security_events = w'.security_events }
  pub rows : Issues env account.id r.token_type from at w.refresh_tokens w'.refresh_tokens

module _ (env : Env) where
  build_safe_profile_same :
      (u : User) (i : Option CitizenIdentity) (now : ℕ) (w : World)
      → (build_safe_profile env u i now w).1 ≡ w
  unfolding build_safe_profile resolve_profile_image_access
  build_safe_profile_same u i now w = ground arith

  authenticate-eq-ok :
      (dto : LoginDto) (from : Origin) (now : ℕ) (found : Option (User × Option CitizenIdentity))
      (w : World) {a : User × Option CitizenIdentity} {v : World}
      → authenticate env dto from now found w ≡ (ok a, v)
      → (found ≡ some a) × (v ≡ w) × (env.bcrypt_compare dto.password a.0.password_hash ≡ true)
  unfolding authenticate
  authenticate-eq-ok dto from now found w h = ground arith

  open_session-eq-ok :
      (u : User) (i : Option CitizenIdentity) (from : Origin) (at : Moment) (w : World)
      {r : LoginResult} {w' : World}
      → open_session env u i from at w ≡ (ok r, w')
      → (r.token_type ≡ login_token_type u)
        × (r.refresh_token ≡ at.random)
        × (w' ≡ record w { refresh_tokens = w'.refresh_tokens })
        × Issues env u.id (login_token_type u) from at w.refresh_tokens w'.refresh_tokens
  unfolding open_session
  open_session-eq-ok u i from at w h =
      elim (Outcome-cases (generate_tokens env u.id u.email from (login_token_type u) at w)) [
        | inl (t, v, e) ↦
            let (p, q, s, (row, added)) =
              generate_tokens-eq-ok env u.id u.email from (login_token_type u) at w e in
            let same = build_safe_profile_same u i at.now v in
            (ground arith, ground arith, ground arith, (row, ground arith))
        | inr (x, v, e) ↦ ground arith
      ]

  -- Whatever its outcome, the state after `open_session` is that after `generate_tokens`.
  open_session_state :
      (u : User) (i : Option CitizenIdentity) (from : Origin) (at : Moment) (w : World)
      → (open_session env u i from at w).1
        ≡ (generate_tokens env u.id u.email from (login_token_type u) at w).1
  unfolding open_session
  open_session_state u i from at w =
      elim (Outcome-cases (generate_tokens env u.id u.email from (login_token_type u) at w)) [
        | inl (t, v, e) ↦ ground (arith, build_safe_profile_same u i at.now v)
        | inr (x, v, e) ↦ ground arith
      ]

  -- A login that succeeds is one of a known account with the right password, whose email is verified
  -- and which is active. It yields a full session exactly if the identity is verified, else a limited
  -- one, and all that it writes besides the security log is one new refresh token of that type.
  pub login-IsAdmitted :
      (dto : LoginDto) (from : Origin) (at : Moment) (w : World) {r : LoginResult} {w' : World}
      → login env dto from at w ≡ (ok r, w')
      → IsAdmitted env dto from at w r w'
  unfolding login
  login-IsAdmitted dto from at w {r} {w'} h =
      elim (Outcome-cases (authenticate env dto from at.now (find_by_email env dto.email w) w)) [
        | inl ((u, identity), v, e) ↦
            let (found, same, valid) =
              authenticate-eq-ok dto from at.now (find_by_email env dto.email w) w e in
            let v1 : World = record v {
              security_events =
                  log_rows env.client login_success (some u.id) (some from.ip_address) at.now
                    v.security_events;
            } in
            let opened : open_session env u identity from at v1 ≡ (ok r, w') = ground arith in
            let (p, q, s, (row, added)) = open_session-eq-ok u identity from at v1 opened in
            record {
              account = u;
              found = ground (arith, env.find_first_lem User (by_email dto.email) w.users);
              valid = valid;
              verified = ground arith;
              active = ground arith;
              type = p;
              token = q;
              frame = ground arith;
              rows = (row, ground arith);
            }
        | inr (x, v, e) ↦ ground arith
      ]

  -- An unknown address and a wrong password are refused alike: the same exception, and no change but
  -- in the security log.
  pub login_refused :
      (dto : LoginDto) (from : Origin) (at : Moment) (w : World)
      → ((u : User)
          → find (by_email dto.email) w.users ≡ some u
          → env.bcrypt_compare dto.password u.password_hash ≡ false)
      → let (r, w') = login env dto from at w in
        (r ≡ throws (unauthorized "Invalid email or password"))
        × (w' ≡ record w { security_events = w'.security_events })
  unfolding login authenticate
  login_refused dto from at w wrong =
      elim (Option-cases (env.find_first User (by_email dto.email) w.users)) [
        | inl e ↦ ground arith
        | inr (u, e) ↦
            let valid =
              wrong u (ground (arith, env.find_first_lem User (by_email dto.email) w.users)) in
            ground arith
      ]

  -- With the right password an account that is not verified, or not active, gets no session: the
  -- login is refused, and yet the security log is written as for a successful login.
  pub login_gated :
      (dto : LoginDto) (from : Origin) (at : Moment) (w : World) (u : User)
      → find (by_email dto.email) w.users ≡ some u
      → env.bcrypt_compare dto.password u.password_hash ≡ true
      → (u.is_verified && u.is_active) ≡ false
      → ((login env dto from at w).0
          ≡ throws (
              forbidden (
                if u.is_verified
                then "Your account is not active. Please contact support."
                else "Please verify your email address before logging in. Check your inbox for the verification link.")))
        × ((login env dto from at w).1 ≡ record w {
          security_events =
              log_rows env.client login_success
                (some u.id)
                (some from.ip_address)
                at.now
                w.security_events;
        })
  unfolding login authenticate
  login_gated dto from at w u e valid closed =
      let found : env.find_first User (by_email dto.email) w.users ≡ some u =
        env.find_first_lem User (by_email dto.email) w.users ∙ e in
      ground arith

  -- What a login does to the state, whatever its outcome.
  pub login_state :
      (dto : LoginDto) (from : Origin) (at : Moment) (w : World)
      → let w' = (login env dto from at w).1 in
        (w' ≡ record w { refresh_tokens = w'.refresh_tokens; security_events = w'.security_events })
        × ((w'.refresh_tokens ≡ w.refresh_tokens)
            ⊎ ((u : User) × (find (by_email dto.email) w.users ≡ some u)
                × MayIssue env u.id
                    (login_token_type u)
                    from
                    at
                    w.refresh_tokens
                    w'.refresh_tokens))
  unfolding login authenticate
  login_state dto from at w =
      elim (Option-cases (env.find_first User (by_email dto.email) w.users)) [
        | inl e ↦ (ground arith, inl (ground arith))
        | inr (u, e) ↦
            let v : World = record w {
              security_events =
                  log_rows env.client login_success (some u.id) (some from.ip_address) at.now
                    w.security_events;
            } in
            let (frame, tokens) =
              generate_tokens_state env u.id u.email from (login_token_type u) at v in
            let identity =
              env.find_first CitizenIdentity (λ c. c.user_id == u.id) w.citizen_identities in
            let opened = open_session_state u identity from at v in
            let found : find (by_email dto.email) w.users ≡ some u =
              ground (arith, env.find_first_lem User (by_email dto.email) w.users) in
            elim (Bool-cases
              (env.bcrypt_compare dto.password u.password_hash && (u.is_verified && u.is_active))) [
                | inl passed ↦
                    let reached : (login env dto from at w).1
                        ≡ (generate_tokens env u.id u.email from (login_token_type u) at v).1 =
                      ground arith in
                    (
                      ground arith,
                      inr (u, found, rw (ap (λ (x : World). x.refresh_tokens) reached) tokens),
                    )
                | inr closed ↦ (ground arith, inl (ground arith))
              ]
      ]
