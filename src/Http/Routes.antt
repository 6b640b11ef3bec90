-- ===== src/Http/Routes.antt =====
-- The controllers (modules/auth/auth.controller.ts, modules/users/users.controller.ts and
-- modules/verification/verification.controller.ts): the routes behind the JWT guard, and the calls of
-- the auth controller that pass on the request's origin. The documentation of the routes is left out.
use gracon_user_auth_service.Common.{
  ℕ, ◌≡◌, refl, sym, subst, ◌⊎◌, inl, inr, arith, Option, none, some, String, Bool-cases,
  Option-cases,
}
use gracon_user_auth_service.Platform.{
  limited, World, Exception, ok, throws, Handler, pure, throw, ◌>>=◌, Env, Moment,
}
use gracon_user_auth_service.Guards.{
  Claims, RequestUser, RequiredType, any_token, guard, validate, handle_request, admit,
  login_required, identity_required, Admits, guard-Admits,
}
use gracon_user_auth_service.Storage.{ImageFile}
use gracon_user_auth_service.Users.Access.{find_by_id}
use gracon_user_auth_service.Users.Requests.{UpdateProfileDto, ChangePasswordDto}
use gracon_user_auth_service.Users.Profile.{Profile}
use gracon_user_auth_service.Users.Preferences.{UpdateUserPreferencesDto, UserPreferencesResponse}
use gracon_user_auth_service.Users.Activity.{UserActivityQuery, UserActivityResponse}
use gracon_user_auth_service.Verification.{
  EnginePayload, EngineResponse, EngineResponse, VerificationResult, VerificationStatusResult,
}
use gracon_user_auth_service.Http.{Request}
use gracon_user_auth_service.Http.Handlers.{
  SubmissionForm, submit_route, logout_route, logout_all_route, get_profile_route,
  get_preferences_route, update_preferences_route, get_activity_route, update_profile_route,
  upload_profile_image_route, change_password_route, get_status_route,
}
use gracon_user_auth_service.Platform.Laws.{Result-cases}

-- A request to a route behind the guard, its body read. The folder and the random part of an image's
-- name are what the service will use.
pub data Call : Type 0 where
  logout_call : String → Call
  logout_all_call : Call
  get_profile_call : Call
  get_preferences_call : Call
  update_preferences_call : UpdateUserPreferencesDto → Call
  get_activity_call : UserActivityQuery → Call
  update_profile_call : UpdateProfileDto → Call
  upload_profile_image_call : String → ImageFile → String → Call
  change_password_call : ChangePasswordDto → Call
  submit_verification_call : SubmissionForm → Call
  get_status_call : Call

pub data CallResult : Type 0 where
  done : CallResult
  told : String → CallResult
  profile : Profile → CallResult
  preferences : UserPreferencesResponse → CallResult
  activity : UserActivityResponse → CallResult
  image : String × ℕ → CallResult
  submission : VerificationResult → CallResult
  status : VerificationStatusResult → CallResult

-- `@RequireTokenType('any')` stands on the verification controller alone.
unfoldable pub required_type : Call → Option RequiredType
required_type (submit_verification_call _) = some any_token
required_type get_status_call = some any_token
required_type _ = none

abbrev pub answer_with : {A : Type 0} → (A → CallResult) → Handler A → Handler CallResult
answer_with f m = m >>= λ a. pure (f a)

module _ (env : Env) where
  module _ (engine : EnginePayload → Option EngineResponse) (hours : ℕ) where
    -- The handler of a route, for the account of the token.
    unfoldable pub handle : Call → Request → ℕ → Moment → Handler CallResult
    unfolding submit_route
    handle (logout_call token) req user_id at = answer_with (λ _. done) (logout_route env token)
    handle logout_all_call req user_id at =
        answer_with (λ _. done) (logout_all_route env user_id at)
    handle get_profile_call req user_id at = answer_with profile (get_profile_route env user_id at)
    handle get_preferences_call req user_id at =
        answer_with preferences (get_preferences_route env user_id)
    handle (update_preferences_call dto) req user_id at =
        answer_with preferences (update_preferences_route env user_id dto)
    handle (get_activity_call query) req user_id at =
        answer_with activity (get_activity_route env user_id query)
    handle (update_profile_call dto) req user_id at =
        answer_with profile (update_profile_route env user_id dto at)
    handle (upload_profile_image_call folder file hex) req user_id at =
        answer_with image (upload_profile_image_route env folder user_id file hex at)
    handle (change_password_call dto) req user_id at =
        answer_with told (change_password_route env user_id dto at)
    handle (submit_verification_call form) req user_id at =
        answer_with submission (submit_route env engine hours form req user_id at)
    handle get_status_call req user_id at =
        answer_with status (get_status_route env engine hours user_id at)

    -- `JwtAuthGuard`, then the handler. Without a token that passport accepts there are no claims.
    unfoldable pub serve : Option Claims → Call → Request → Moment → Handler CallResult
    serve none c req at w = throw login_required w
    serve (some payload) c req at w = elim (guard env payload (required_type c) w) [
      | throws e ↦ throw e w
      | ok user ↦ handle c req user.user_id at w
    ]

    -- A call that is answered is of the active account that the token names, with a token of the type
    -- that the route requires, and is what the handler answers for this account.
    pub serve-Admits :
        (payload : Claims) (c : Call) (req : Request) (at : Moment) (w : World) {r : CallResult}
        {w' : World}
        → serve (some payload) c req at w ≡ (ok r, w')
        → (user : RequestUser) × Admits env payload (required_type c) w user
          × (handle c req user.user_id at w ≡ (ok r, w'))
    unfolding serve
    serve-Admits payload c req at w h =
        elim (Result-cases (guard env payload (required_type c) w)) [
          | inr (e, denied) ↦ ground arith
          | inl (user, admitted) ↦
              (user, guard-Admits env payload (required_type c) w admitted, ground arith)
        ]

    guard_limited :
        (payload : Claims) (w : World)
        → payload.token_type ≡ some limited
        → (e : Exception) × (guard env payload none w ≡ throws e)
          × ((e ≡ login_required) ⊎ (e ≡ identity_required))
    unfolding guard validate handle_request admit
    guard_limited payload w h = elim (Option-cases (find_by_id env payload.sub w)) [
      | inl gone ↦ (login_required, ground arith, inl refl)
      | inr (u, found) ↦ elim (Bool-cases u.is_active) [
        | inr off ↦ (login_required, ground arith, inl refl)
        | inl active ↦ (identity_required, ground arith, inr refl)
      ]
    ]

    -- With a limited token every route but the two of the verification is refused, with 401 or 403,
    -- and nothing is written.
    pub serve_limited :
        (payload : Claims) (c : Call) (req : Request) (at : Moment) (w : World)
        → payload.token_type ≡ some limited
        → required_type c ≡ none
        → (e : Exception) × (serve (some payload) c req at w ≡ (throws e, w))
          × ((e ≡ login_required) ⊎ (e ≡ identity_required))
    unfolding serve
    serve_limited payload c req at w h open_to =
        let (e, denied, which) = guard_limited payload w h in
        let refused : guard env payload (required_type c) w ≡ throws e =
          subst (λ z. guard env payload z w ≡ throws e) (sym open_to) denied in
        (e, ground arith, which)
