-- ===== src/Users/Profile/Changes.antt =====
-- What an update of the profile does (`updateProfile` of modules/users/users.service.ts).
use gracon_user_auth_service.Common.{
  none, truthy, ℕ, ◌≤◌, ◌≡◌, sym, ap, ◌∙◌, ◌⊎◌, inl, inr, arith, Bool, true, false, Option, some,
  [], ◌∷◌, ◌++◌, String, str_eq, ◌==◌, or_else, Bool-cases, Option-cases, find, update_where,
}
use gracon_user_auth_service.Common.Tables.{find_sound, find-update_where}
use gracon_user_auth_service.Platform.{
  User, CitizenIdentity, RefreshToken, verification_email, World, unauthorized, ok, throws, Env,
  Moment,
}
use gracon_user_auth_service.Platform.Laws.{Outcome-cases}
use gracon_user_auth_service.Users.Requests.{UpdateProfileDto}
use gracon_user_auth_service.Users.Access.{find_by_id, identity_of, resolve_profile_image_access}
use gracon_user_auth_service.PasswordReset.{sur_name_of, post_names_of}
use gracon_user_auth_service.Users.EmailVerification.{upsert_token, token_of}
use gracon_user_auth_service.Users.EmailVerification.Renewal.{
  Renews, upsert_token-Renews, upsert_token_mails,
}
use gracon_user_auth_service.Auth.{Origin, refresh_tokens, rotate_refresh_token, rotate_stored}
use gracon_user_auth_service.Users.Profile.{
  Profile, email_taken, is_email_changing, is_other, update_data, get_profile, apply_update,
  update_account, update_profile,
}

-- What an update that succeeds writes, for the account as it was, in the service's own terms.
pub record Writes (env : Env) (user_id : ℕ) (dto : UpdateProfileDto) (at : Moment) (w w' : World)
    : Type 0 where
  pub account : User
  pub found : find (λ u. u.id == user_id) w.users ≡ some account
  pub users :
      w'.users
      ≡ update_where
          (λ u. u.id == user_id)
          (update_data dto (is_email_changing dto account))
          w.users
  pub address :
      ((is_email_changing dto account ≡ false) × (w' ≡ record w { users = w'.users }))
      ⊎ ((is_email_changing dto account ≡ true)
          × (is_other user_id (find (λ u. str_eq u.email (or_else dto.email "")) w.users) ≡ false)
          × Renews env user_id at (record w { users = w'.users }) w'
          × ((sur_name post_names : String) × (w'.mails
                ≡ w.mails
                  ++ verification_email (or_else dto.email "") sur_name post_names user_id at.random
                    ∷ [])))

-- A phone number that is given takes the place of the other.
abbrev pub number_of : Option String → Option String → Option String
number_of none old = old
number_of (some n) old = some n

-- No address is given, or an empty one, or the account's own.
abbrev pub KeepsAddress : UpdateProfileDto → User → Type 0
KeepsAddress dto u =
    (dto.email ≡ none)
    ⊎ ((email : String) × (dto.email ≡ some email)
        × ((truthy email ≡ false) ⊎ (str_eq email u.email ≡ true)))

-- What an update that succeeds does to the account and, for a new address, beyond it.
pub record Updates (env : Env) (user_id : ℕ) (dto : UpdateProfileDto) (at : Moment) (w w' : World)
    : Type 0 where
  pub account : User
  pub found : find (λ u. u.id == user_id) w.users ≡ some account
  pub effect :
      (KeepsAddress dto account
        × (w'.users
            ≡ update_where
                (λ (u : User). u.id == user_id)
                (λ u. record u { phone_number = number_of dto.phone_number u.phone_number })
                w.users)
        × (w' ≡ record w { users = w'.users }))
      ⊎ ((email sur_name post_names : String) × (dto.email ≡ some email)
          × (str_eq email account.email ≡ false)
          × (is_other user_id (find (λ u. str_eq u.email email) w.users) ≡ false)
          × (w'.users
              ≡ update_where
                  (λ (u : User). u.id == user_id)
                  (λ u. record u {
                    email = email;
                    phone_number = number_of dto.phone_number u.phone_number;
                    is_verified = false;
                    is_active = false;
                  })
                  w.users)
          × Renews env user_id at (record w { users = w'.users }) w'
          × (w'.mails
              ≡ w.mails ++ verification_email email sur_name post_names user_id at.random ∷ []))

module _ (env : Env) where
  get_profile_same : (id now : ℕ) (w : World) → (get_profile env id now w).1 ≡ w
  unfolding get_profile resolve_profile_image_access
  get_profile_same id now w = ground arith

  apply_update-eq-ok :
      (id : ℕ) (dto : UpdateProfileDto) (b : Bool) (i : Option CitizenIdentity) (at : Moment)
      (w : World) {x : Unit {0}} {w' : World}
      → apply_update env id dto b i at w ≡ (ok x, w')
      → (w'.users ≡ env.update User (λ u. u.id == id) (update_data dto b) w.users)
        × (((b ≡ false) × (w' ≡ record w { users = w'.users }))
            ⊎ ((b ≡ true)
                × Renews env id at (record w { users = w'.users }) w'
                × (w'.mails
                    ≡ w.mails
                      ++ verification_email
                          (or_else dto.email "")
                          (sur_name_of i)
                          (post_names_of i)
                          id
                          at.random
                        ∷ [])))
  unfolding apply_update
  apply_update-eq-ok id dto b i at w {x} {w'} h =
      let v : World = record w {
        users = env.update User (λ u. u.id == id) (update_data dto b) w.users;
      } in
      elim (Bool-cases b) [
        | inr stays ↦ (ground arith, inl (stays, ground arith))
        | inl changing ↦ elim (Outcome-cases (upsert_token env id at v)) [
          | inr (e, v', r) ↦ ground arith
          | inl (y, v', r) ↦
              let renews = upsert_token-Renews env id at v r in
              let sent : w' ≡ record v' {
                mails =
                    v'.mails
                    ++ verification_email (or_else dto.email "") (sur_name_of i) (post_names_of i)
                        id at.random
                      ∷ [];
              } =
                ground arith in
              let quiet : v'.mails ≡ w.mails = ground (arith, upsert_token_mails env id at v) in
              let kept = renews.frame in
              let tokens : w'.email_tokens ≡ v'.email_tokens =
                ap (λ (z : World). z.email_tokens) sent in
              let users' : w'.users
                  ≡ env.update User (λ u. u.id == id) (update_data dto b) w.users =
                ap (λ (z : World). z.users) sent ∙ ap (λ (z : World). z.users) kept in
              (
                users',
                inr (
                  changing,
                  record {
                    token = renews.token;
                    found = ap (find (token_of id)) tokens ∙ renews.found;
                    hashed = renews.hashed;
                    unused = renews.unused;
                    expiry = renews.expiry;
                    frame = ground arith;
                  },
                  ground arith,
                ),
              )
        ]
      ]

  pub update_profile-Writes :
      (user_id : ℕ) (dto : UpdateProfileDto) (at : Moment) (w : World) {p : Profile} {w' : World}
      → update_profile env user_id dto at w ≡ (ok p, w')
      → Writes env user_id dto at w w'
  unfolding update_profile update_account
  update_profile-Writes user_id dto at w {p} {w'} h =
      elim (Option-cases (find_by_id env user_id w)) [
        | inl e ↦ ground arith
        | inr (u, e) ↦
            let found = sym (env.find_first_lem User (λ a. a.id == user_id) w.users) ∙ e in
            let b = is_email_changing dto u in
            let i = identity_of env w u.id in
            let others =
              env.find_first_lem User (λ a. str_eq a.email (or_else dto.email "")) w.users in
            elim (Outcome-cases (apply_update env user_id dto b i at w)) [
              | inr (x, v, r) ↦ ground arith
              | inl (x, v, r) ↦
                  let same : v ≡ w' = ground (arith, get_profile_same user_id at.now v) in
                  let (users', address) =
                    apply_update-eq-ok user_id dto b i at w (r ∙ ap (λ z. (ok x, z)) same) in
                  record {
                    account = u;
                    found = found;
                    users =
                        users'
                        ∙ env.update_lem User (λ a. a.id == user_id) (update_data dto b) w.users u
                            found;
                    address = elim address [
                      | inl (stays, frame) ↦ inl (stays, frame)
                      | inr (changing, renews, mailed) ↦
                          inr (
                            changing,
                            ground arith,
                            renews,
                            (sur_name_of i, post_names_of i, mailed),
                          )
                    ];
                  }
            ]
      ]

  -- An address that another account has is refused, and nothing is written.
  pub update_profile_taken :
      (user_id : ℕ) (dto : UpdateProfileDto) (at : Moment) (w : World) (u other : User)
      → find (λ (a : User). a.id == user_id) w.users ≡ some u
      → is_email_changing dto u ≡ true
      → find (λ (a : User). str_eq a.email (or_else dto.email "")) w.users ≡ some other
      → (other.id == user_id) ≡ false
      → update_profile env user_id dto at w ≡ (throws email_taken, w)
  unfolding update_profile update_account
  update_profile_taken user_id dto at w u other found changing theirs differs =
      let account = env.find_first_lem User (λ a. a.id == user_id) w.users ∙ found in
      let holder =
        env.find_first_lem User (λ a. str_eq a.email (or_else dto.email "")) w.users ∙ theirs in
      ground arith

  -- After a change of the address no session of the account can be refreshed before the new address
  -- is verified: an active, unexpired refresh token of it is refused, and nothing is written.
  pub update_profile-refresh_tokens :
      (user_id : ℕ) (dto : UpdateProfileDto) (at at' : Moment) (w : World) (u : User)
      (token : String) (from : Origin) (t : RefreshToken) {p : Profile} {w' : World}
      → find (λ (a : User). a.id == user_id) w.users ≡ some u
      → is_email_changing dto u ≡ true
      → update_profile env user_id dto at w ≡ (ok p, w')
      → find (λ (r : RefreshToken). r.token_hash == env.hash token) w.refresh_tokens ≡ some t
      → t.user_id ≡ user_id
      → t.revoked ≡ false
      → at'.now ≤ t.expires_at
      → refresh_tokens env token from at' w'
        ≡ (throws (unauthorized "Account is not active. Please contact support."), w')
  unfolding refresh_tokens rotate_refresh_token rotate_stored
  update_profile-refresh_tokens user_id dto at at' w u token from t {p} {w'} found changing h stored
        whose unrevoked current =
      let r = update_profile-Writes user_id dto at w h in
      let acc : some r.account ≡ some u = sym r.found ∙ found in
      let sessions : w'.refresh_tokens ≡ w.refresh_tokens = elim r.address [
        | inl (stays, frame) ↦ ap (λ (z : World). z.refresh_tokens) frame
        | inr (moves, free, renews, mailed) ↦ ap (λ (z : World). z.refresh_tokens) renews.frame
      ] in
      let f = update_data dto (is_email_changing dto r.account) in
      let by_id = λ (a : User). a.id == user_id in
      let locked : find by_id w'.users ≡ some (f u) =
        ap (find by_id) r.users
        ∙ find-update_where by_id by_id f w.users (λ a. ground arith) found
        ∙ ground (arith, find_sound by_id w.users found) in
      let inactive : (f u).is_active ≡ false = ground arith in
      let token' : env.find_first RefreshToken (λ x. x.token_hash == env.hash token)
            w'.refresh_tokens
          ≡ some t =
        env.find_first_lem RefreshToken (λ x. x.token_hash == env.hash token) w'.refresh_tokens
        ∙ ap (find (λ (x : RefreshToken). x.token_hash == env.hash token)) sessions
        ∙ stored in
      let owner' : find_by_id env t.user_id w' ≡ some (f u) =
        ap (λ n. find_by_id env n w') whose ∙ env.find_first_lem User by_id w'.users ∙ locked in
      ground arith
