-- ===== src/Http/Throttling.antt =====
-- common/guards/throttler.guard.ts, common/filters/throttler-exception.filter.ts, the decorators of
-- common/decorators/throttle.decorator.ts and the limits of app.module.ts. The counting is the package's.
use gracon_user_auth_service.Common.{
  ℕ, ◌≡◌, ◌≢◌, refl, ◌∙◌, arith, Bool, true, false, none, some, List, [], ◌∷◌, String, str_eq,
  str_eq_iff, if◌then◌else◌, All, contains,
}
use gracon_user_auth_service.Platform.{
  rate_limit_exceeded, Client, World, Exception, http, Outcome, ok, throws, Handler, throw, ◌>>◌,
  modify,
}
use gracon_user_auth_service.SecurityEvents.{log_rows}
use gracon_user_auth_service.Http.{Request, peer, get_tracker}

pub record Limit : Type 0 where
  pub name : String
  pub ttl : ℕ
  pub limit : ℕ

-- `ThrottlerModule.forRoot`
abbrev pub configured : List Limit
configured =
    record { name = "general"; ttl = 60_000; limit = 60 }
    ∷ record { name = "auth"; ttl = 60_000; limit = 5 }
    ∷ record { name = "strict"; ttl = 600_000; limit = 3 }
    ∷ []

-- `ThrottleAuth`, `ThrottleStrict` and `ThrottleGeneral`
abbrev pub throttle_auth : Limit
throttle_auth = record { name = "auth"; ttl = 60_000; limit = 5 }

abbrev pub throttle_strict : Limit
throttle_strict = record { name = "strict"; ttl = 600_000; limit = 3 }

abbrev pub throttle_general : Limit
throttle_general = record { name = "general"; ttl = 60_000; limit = 60 }

-- The package's guard: whether the configured limits, with those that a route sets in place of the
-- ones of the same name, leave room for one more request of a tracker, and the request counted.
-- Trackers are counted apart.
pub record Throttler : Type 1 where
  pub Store : Type 0
  pub empty : Store
  pub allows : List Limit → List Limit → String → ℕ → Store → Bool
  pub counted : String → ℕ → Store → Store
  pub allows_empty :
      (overrides : List Limit) (tracker : String) (now : ℕ)
      → allows configured overrides tracker now empty ≡ true
  pub allows_other :
      (overrides : List Limit) (tracker other : String) (now now' : ℕ) (store : Store)
      → tracker ≢ other
      → allows configured overrides tracker now (counted other now' store)
        ≡ allows configured overrides tracker now store

abbrev pub too_many_requests : Exception
too_many_requests =
    http 429
      "{\"statusCode\":429,\"error\":\"Too Many Requests\",\"message\":\"You have made too many requests. Please wait before trying again.\"}"

-- The answer of `ThrottlerExceptionFilter`.
pub record TooManyRequests : Type 0 where
  pub status_code : ℕ
  pub retry_after_header : String
  pub error : String
  pub message : String
  pub retry_after : ℕ

abbrev pub catch_throttler : TooManyRequests
catch_throttler = record {
  status_code = 429;
  retry_after_header = "60";
  error = "Too Many Requests";
  message = "You have made too many requests. Please wait before trying again.";
  retry_after = 60;
}

module _ (client : Client) (throttler : Throttler) where
  open throttler use {Store, allows, counted}

  -- `throwThrottlingException`
  unfoldable pub throw_throttling_exception : Request → ℕ → Handler Bool
  throw_throttling_exception req now = do
    modify λ w. record w {
      security_events =
          log_rows client rate_limit_exceeded none (some (peer req)) now w.security_events;
    }
    throw too_many_requests

  -- `super.canActivate`
  unfoldable pub throttled :
      List Limit → String → Request → ℕ → Store → World → Outcome Bool × Store × World
  unfolding throw_throttling_exception
  throttled overrides tracker req now store w =
      if allows configured overrides tracker now store
      then (ok true, counted tracker now store, w)
      else let (r, w') = throw_throttling_exception req now w in (r, counted tracker now store, w')

  -- `canActivate`
  unfoldable pub can_activate :
      String → List Limit → Request → ℕ → Store → World → Outcome Bool × Store × World
  unfolding throttled get_tracker
  can_activate app_env overrides req now store w =
      if str_eq app_env "development" then (ok true, store, w) else elim (get_tracker req) [
        | throws e ↦ (throws e, store, w)
        | ok tracker ↦ throttled overrides tracker req now store w
      ]

  -- Requests to a route, one after the other: what each comes to.
  unfoldable pub flood : List Limit → List Request → ℕ → Store → World → List (Outcome Bool)
  flood overrides [] now store w = []
  flood overrides (req ∷ reqs) now store w =
      let (r, store', w') = can_activate "production" overrides req now store w in
      r ∷ flood overrides reqs now store' w'

  -- Requests that are counted by trackers of their own, none of which is in a list of others.
  abbrev pub Apart : List Request → List String → Type 0
  Apart [] seen = Unit
  Apart (req ∷ reqs) seen =
      (tracker : String) × (get_tracker req ≡ ok tracker)
      × (contains tracker seen ≡ false)
      × Apart reqs (tracker ∷ seen)

  -- A store in which only these trackers have been counted.
  Only : List Limit → List String → ℕ → Store → Type 0
  Only overrides seen now store =
      (tracker : String)
      → contains tracker seen ≡ false
      → allows configured overrides tracker now store ≡ true

  Only-counted :
      (overrides : List Limit) (seen : List String) (now : ℕ) (store : Store) (tracker : String)
      → Only overrides seen now store
      → Only overrides (tracker ∷ seen) now (counted tracker now store)
  unfolding Only
  Only-counted overrides seen now store tracker only t fresh =
      let other : t ≢ tracker = λ e. absurd (ground (arith, str_eq_iff t tracker)) in
      throttler.allows_other overrides t tracker now now store other ∙ only t (ground arith)

  flood_passes :
      (overrides : List Limit) (reqs : List Request) (seen : List String) (now : ℕ) (store : Store)
      (w : World)
      → Only overrides seen now store
      → Apart reqs seen
      → All (λ r. r ≡ ok true) (flood overrides reqs now store w)
  unfolding flood can_activate throttled Only
  flood_passes overrides [] seen now store w only apart = tt
  flood_passes overrides (req ∷ reqs) seen now store w only (tracker, known, fresh, apart) =
      let room = only tracker fresh in
      let rest =
        flood_passes overrides reqs (tracker ∷ seen) now (counted tracker now store) w
          (Only-counted overrides seen now store tracker only) apart in
      rw (known, room) (refl, rest)

  -- Requests that name a different client each in their header are let through, however many there
  -- are at a time and whatever the limits of the route, although one peer may have sent them all.
  pub flood_unlimited :
      (overrides : List Limit) (reqs : List Request) (now : ℕ) (w : World)
      → Apart reqs []
      → All (λ r. r ≡ ok true) (flood overrides reqs now throttler.empty w)
  unfolding Only
  flood_unlimited overrides reqs now w apart =
      flood_passes overrides reqs [] now throttler.empty w
        (λ t fresh. throttler.allows_empty overrides t now) apart
