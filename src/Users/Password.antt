-- ===== src/Users/Password.antt =====
-- `changePassword` of modules/users/users.service.ts. `logger` is left out.
use gracon_user_auth_service.Common.{
  ℕ, ◌≡◌, sym, ◌∙◌, ◌⊎◌, inl, inr, arith, true, false, not, ◌&&◌, none, some, [], String, str_eq,
  ◌==◌, Bool-cases, Option-cases, find, select, update_where,
}
use gracon_user_auth_service.Platform.{
  User, RefreshToken, password_changed, accepted, rejected, World, Exception, prisma, bad_request,
  unauthorized, not_found, ok, throws, Handler, pure, throw, gets, ◌>>=◌, ◌>>◌, throw_if, Env,
  Moment,
}
use gracon_user_auth_service.Platform.Laws.{Reply-cases}
use gracon_user_auth_service.SecurityEvents.{log, log_rows}
use gracon_user_auth_service.Users.Requests.{ChangePasswordDto}
use gracon_user_auth_service.Users.Access.{find_by_id}
use gracon_user_auth_service.Auth.{active_of}

abbrev pub password_changed_response : String
password_changed_response =
    "Password changed successfully. You have been signed out of all other devices."

module _ (env : Env) where
  open env use {client, update, update_many, transaction, bcrypt_hash, bcrypt_compare}

  -- The two writes of the transaction.
  abbrev pub changed_state : ℕ → String → World → World
  changed_state user_id password_hash w = record w {
    users =
        update User (λ u. u.id == user_id) (λ u. record u { password_hash = password_hash })
          w.users;
    refresh_tokens =
        update_many RefreshToken (active_of user_id) (λ t. record t { revoked = true })
          w.refresh_tokens;
  }

  unfoldable pub commit_change : ℕ → String → Handler (Unit {0})
  commit_change user_id password_hash w =
      elim (transaction World (accepted (changed_state user_id password_hash w))) [
        | accepted w' ↦ (ok tt, w')
        | rejected code ↦ throw (prisma code) w
      ]

  -- The event is logged before the transaction.
  unfoldable pub replace_password : ℕ → ChangePasswordDto → User → Moment → Handler String
  replace_password user_id dto u at = do
    throw_if (not (bcrypt_compare dto.current_password u.password_hash))
        (unauthorized "Current password is incorrect")
    throw_if (bcrypt_compare dto.new_password u.password_hash)
        (bad_request "New password must be different from the current password")
    log client password_changed (some user_id) none at.now
    commit_change user_id (bcrypt_hash at.salt dto.new_password)
    pure password_changed_response

  unfoldable pub change_password : ℕ → ChangePasswordDto → Moment → Handler String
  change_password user_id dto at = do
    throw_if (not (str_eq dto.new_password dto.confirm_new_password))
        (bad_request "New password and confirmation do not match")
    found ← gets (find_by_id env user_id)
    elim found [
      | none ↦ throw (not_found "User not found")
      | some u ↦ replace_password user_id dto u at
    ]

  -- What a change that succeeds rests on and does.
  pub record Changes (user_id : ℕ) (dto : ChangePasswordDto) (at : Moment) (w w' : World)
      : Type 0 where
    pub account : User
    pub found : find (λ u. u.id == user_id) w.users ≡ some account
    pub confirmed : str_eq dto.new_password dto.confirm_new_password ≡ true
    pub known : bcrypt_compare dto.current_password account.password_hash ≡ true
    pub new : bcrypt_compare dto.new_password account.password_hash ≡ false
    pub users :
        w'.users
        ≡ update_where
            (λ (u : User). u.id == user_id)
            (λ u. record u { password_hash = bcrypt_hash at.salt dto.new_password })
            w.users
    pub closed : select (active_of user_id) w'.refresh_tokens ≡ []
    pub frame : w' ≡ record w {
      users = w'.users;
      refresh_tokens = w'.refresh_tokens;
      security_events = w'.security_events;
    }

  -- Nothing is written, or the passwords were right and the transaction was refused.
  abbrev pub FailsOrLogs : ℕ → ChangePasswordDto → Moment → World → Exception → World → Type 0
  FailsOrLogs user_id dto at w e w' =
      (w' ≡ w)
      ⊎ ((u : User) × (code : String) × (find (λ (a : User). a.id == user_id) w.users ≡ some u)
          × (str_eq dto.new_password dto.confirm_new_password ≡ true)
          × (bcrypt_compare dto.current_password u.password_hash ≡ true)
          × (bcrypt_compare dto.new_password u.password_hash ≡ false)
          × (e ≡ prisma code)
          × (w' ≡ record w {
            security_events =
                log_rows client password_changed (some user_id) none at.now w.security_events;
          }))

  -- A change that fails writes nothing; or the account's password was given and differs from the new
  -- one, which was given twice, and the database refuses the transaction: then the log says that the
  -- password was changed, though it was not, and nothing else is written.
  pub change_password_throws :
      (user_id : ℕ) (dto : ChangePasswordDto) (at : Moment) (w : World) {e : Exception} {w' : World}
      → change_password user_id dto at w ≡ (throws e, w')
      → FailsOrLogs user_id dto at w e w'
  unfolding change_password replace_password commit_change
  change_password_throws user_id dto at w {e} {w'} h =
      elim (Option-cases (find_by_id env user_id w)) [
        | inl none_found ↦ inl (ground arith)
        | inr (u, e') ↦
            let found = sym (env.find_first_lem User (λ a. a.id == user_id) w.users) ∙ e' in
            let v : World = record w {
              security_events =
                  log_rows client password_changed (some user_id) none at.now w.security_events;
            } in
            elim (Reply-cases (
              transaction World
                (accepted (changed_state user_id (bcrypt_hash at.salt dto.new_password) v)))) [
                  | inl (v', c) ↦ inl (ground arith)
                  | inr (code, c) ↦
                      elim (Bool-cases (
                        str_eq dto.new_password dto.confirm_new_password
                        && (bcrypt_compare dto.current_password u.password_hash
                            && not (bcrypt_compare dto.new_password u.password_hash)))) [
                              | inl right ↦ inr (
                                u,
                                code,
                                found,
                                ground arith,
                                ground arith,
                                ground arith,
                                ground arith,
                                ground arith,
                              )
                              | inr wrong ↦ inl (ground arith)
                            ]
                ]
      ]
