-- ===== src/Guards.antt =====
-- modules/auth/strategies/jwt.strategy.ts and common/guards/jwt-auth.guard.ts: from the payload of a
-- verified access token to the user of a request. The check of the token's signature and expiry is
-- passport's.
use gracon_user_auth_service.Common.{
  ℕ, ◌≡◌, refl, sym, ap, subst, ◌∙◌, ◌⊎◌, inl, inr, arith, true, Option, none, some, String, ◌==◌,
  if◌then◌else◌, or_else, Bool-cases, Option-cases, find,
}
use gracon_user_auth_service.Platform.{
  TokenType, full, limited, User, World, Exception, unauthorized, forbidden, Outcome, ok, throws,
  Env,
}
use gracon_user_auth_service.Users.Access.{find_by_id}

-- The claims that `validate` reads; tokens of an earlier version have no type.
pub record Claims : Type 0 where
  pub sub : ℕ
  pub token_type : Option TokenType

pub record RequestUser : Type 0 where
  pub user_id : ℕ
  pub email : String
  pub token_type : TokenType

-- The types that the decorator of a route can require.
pub data RequiredType : Type 0 where
  full_only any_token : RequiredType

abbrev pub login_required : Exception
login_required = unauthorized "Authentication required. Please log in to continue."

abbrev pub identity_required : Exception
identity_required =
    forbidden "Please complete your identity verification before accessing this feature."

module _ (env : Env) where
  unfoldable pub validate : Claims → World → Outcome RequestUser
  validate payload w = elim (find_by_id env payload.sub w) [
    | none ↦ throws (unauthorized "Account not found.")
    | some u ↦
        if u.is_active
        then ok (record {
          user_id = u.id;
          email = u.email;
          token_type = or_else payload.token_type full;
        })
        else throws (unauthorized "Your account has been deactivated. Please contact support.")
  ]

  -- `payload.tokenType === 'limited'`
  abbrev pub checked : RequestUser → TokenType → Outcome RequestUser
  checked user limited = throws identity_required
  checked user full = ok user

  -- `handleRequest` for a user, by the type that the route requires; `full` is the default.
  unfoldable pub admit : RequestUser → Option RequiredType → Outcome RequestUser
  admit user none = checked user user.token_type
  admit user (some full_only) = checked user user.token_type
  admit user (some any_token) = ok user

  -- An error, or no user, asks for a login.
  unfoldable pub handle_request : Outcome RequestUser → Option RequiredType → Outcome RequestUser
  handle_request (throws e) required = throws login_required
  handle_request (ok user) required = admit user required

  -- A request with a token whose signature and expiry have been checked.
  unfoldable pub guard : Claims → Option RequiredType → World → Outcome RequestUser
  guard payload required w = handle_request (validate payload w) required

  -- What a request that is let through rests on.
  pub record Admits (payload : Claims) (required : Option RequiredType) (w : World)
      (user : RequestUser) : Type 0 where
    pub account : User
    pub found : find (λ u. u.id == payload.sub) w.users ≡ some account
    pub active : account.is_active ≡ true
    pub who : user.user_id ≡ account.id
    pub type : user.token_type ≡ or_else payload.token_type full
    pub allowed : (required ≡ some any_token) ⊎ (user.token_type ≡ full)

  checked-eq-ok :
      (u : RequestUser) (t : TokenType) {r : RequestUser}
      → u.token_type ≡ t
      → checked u t ≡ ok r
      → (u ≡ r) × (u.token_type ≡ full)
  checked-eq-ok u limited e k = ground arith
  checked-eq-ok u full e k = (ground arith, e)

  admit-eq-ok :
      (user : RequestUser) (required : Option RequiredType) {r : RequestUser}
      → admit user required ≡ ok r
      → (user ≡ r) × ((required ≡ some any_token) ⊎ (user.token_type ≡ full))
  unfolding admit
  admit-eq-ok user (some any_token) h = (ground arith, inl refl)
  admit-eq-ok user none h =
      let (same, is_full) = checked-eq-ok user user.token_type refl h in (same, inr is_full)
  admit-eq-ok user (some full_only) h =
      let (same, is_full) = checked-eq-ok user user.token_type refl h in (same, inr is_full)

  -- A request that is let through is of an active account, the one that its token names; a limited
  -- token opens only the routes that accept any token.
  pub guard-Admits :
      (payload : Claims) (required : Option RequiredType) (w : World) {user : RequestUser}
      → guard payload required w ≡ ok user
      → Admits payload required w user
  unfolding guard validate handle_request
  guard-Admits payload required w {user} h = elim (Option-cases (find_by_id env payload.sub w)) [
    | inl e ↦ ground arith
    | inr (u, e) ↦
        let by_id = λ (a : User). a.id == payload.sub in
        let seen : RequestUser = record {
          user_id = u.id;
          email = u.email;
          token_type = or_else payload.token_type full;
        } in
        elim (Bool-cases u.is_active) [
          | inr off ↦ ground arith
          | inl active ↦
              let admitted : admit seen required ≡ ok user = ground arith in
              let (same, allowed) = admit-eq-ok seen required admitted in
              record {
                account = u;
                found = sym (env.find_first_lem User by_id w.users) ∙ e;
                active = active;
                who = ap (λ (z : RequestUser). z.user_id) (sym same);
                type = ap (λ (z : RequestUser). z.token_type) (sym same);
                allowed =
                    subst (λ (z : RequestUser). (required ≡ some any_token) ⊎ (z.token_type ≡ full))
                      same allowed;
              }
        ]
  ]
