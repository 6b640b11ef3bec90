-- ===== src/Tests/HttpCases.antt =====
-- Requests at the edge of the service, and its configuration.
use gracon_user_auth_service.Common.{
  Bool, str_eq, ◌⊎◌, ◌≡◌, ◌≢◌, refl, ◌↔◌, arith, true, false, Option, none, some, String, str_eq,
  if◌then◌else◌, trim, split, codes, starts_with,
}
use gracon_user_auth_service.Platform.{limited, ok, throws}
use gracon_user_auth_service.SecurityEvents.{log_rows}
use gracon_user_auth_service.Guards.{
  Claims, RequestUser, guard, validate, admit, handle_request, Admits, identity_required,
}
use gracon_user_auth_service.Verification.{VerificationStatusResult, get_verification_window_state}
use gracon_user_auth_service.Verification.Submit.{get_verification_status}
use gracon_user_auth_service.Citizen.{size}
use gracon_user_auth_service.Configuration.{
  natural, valid, raw, check_text, check_size, check_int, check_texts, problems, environment,
  validate_env,
}
use gracon_user_auth_service.Configuration.Checks.{IsConfigured, validate_env-IsConfigured}
use gracon_user_auth_service.Http.{Request, one, extract_ip, get_tracker}
use gracon_user_auth_service.Http.Cors.{parse_allowed_origins, build_cors_config, allows_origin}
use gracon_user_auth_service.Http.Docs.{
  DocsConfig, passed, thrown, begins_with_basic, slice_from, compare_credentials, use_docs_auth,
  Presents, docs_gate, docs_gate-Presents, length_error,
}
use gracon_user_auth_service.Http.Routes.{
  status, get_status_call, get_profile_call, required_type, handle, serve, serve-Admits,
}
use gracon_user_auth_service.Tests.Fixture.{test_env, fixture, world, moment}

edge : Unit {0}
unfolding extract_ip get_tracker parse_allowed_origins build_cors_config allows_origin
    begins_with_basic slice_from compare_credentials use_docs_auth docs_gate required_type handle
    serve guard validate admit handle_request get_verification_window_state get_verification_status
    size raw check_text check_size check_int check_texts problems validate_env split trim codes
    starts_with log_rows fixture
edge = tt

abbrev request : Request
request = record {
  forwarded = one "203.0.113.7, 10.0.0.1";
  remote_address = some "10.0.0.1";
  user_agent = none;
  authorization = some "Basic docs:secret";
  origin = none;
  path = "/docs";
  method = "GET";
}

first_client : (extract_ip request ≡ ok "203.0.113.7") × (get_tracker request ≡ ok "203.0.113.7")
unfolding edge
first_client = (refl, refl)

-- An empty header is an address for the session, and none for the limiter.
empty_header :
    (extract_ip (record request { forwarded = one "" }) ≡ ok "")
    × (get_tracker (record request { forwarded = one "" }) ≡ ok "10.0.0.1")
unfolding edge
empty_header = (refl, refl)

abbrev front : Option String
front = some "https://admin.rw, https://docs.rw"

origins :
    (allows_origin (build_cors_config "https://app.rw" front) (some "https://docs.rw") ≡ true)
    × ((allows_origin (build_cors_config "https://app.rw" front) (some "https://evil.rw") ≡ false)
        × (allows_origin (build_cors_config "https://app.rw" front) none ≡ true))
unfolding edge
origins = (refl, (refl, refl))

abbrev docs : DocsConfig
docs = record { user = some "docs"; pass = some "secret"; decode = λ s. s; byte_length = size }

docs_pass : use_docs_auth docs request ≡ passed
unfolding edge
docs_pass = refl

-- Credentials of another length end in an error, not in a refusal.
docs_length :
    use_docs_auth docs (record request { authorization = some "Basic docs:no" })
    ≡ thrown length_error
unfolding edge
docs_length = refl

-- A stand-in for the test of the framework.
abbrev mounted : String → String → Bool
mounted mount path = str_eq mount path

docs_gate-Presents_example :
    (docs_gate docs mounted true request ≡ passed)
    ↔ ((true ≡ false) ⊎ ((true ≡ false) ⊎ Presents docs request))
unfolding edge
docs_gate-Presents_example = docs_gate-Presents docs mounted true request

abbrev claims : Claims
claims = record { sub = 1; token_type = some limited }

abbrev seen : VerificationStatusResult
seen = get_verification_status test_env 24 1 5000 world

status_runs :
    serve test_env (λ p. none) 24 (some claims) get_status_call request moment world
    ≡ (ok (status seen), world)
unfolding edge
status_runs = refl

serve-Admits_example :
    (user : RequestUser) × Admits test_env claims (required_type get_status_call) world user
    × (handle test_env (λ p. none) 24 get_status_call request user.user_id moment world
        ≡ (ok (status seen), world))
serve-Admits_example =
    serve-Admits test_env (λ p. none) 24 claims get_status_call request moment world status_runs

limited_profile :
    serve test_env (λ p. none) 24 (some claims) get_profile_call request moment world
    ≡ (throws identity_required, world)
unfolding edge
limited_profile = refl

-- Every variable has the same text of 32 characters, or is APP_ENV.
abbrev thirty_two : String
thirty_two = "0123456789abcdef0123456789abcdef"

abbrev variables : String → Option String
variables name = if str_eq name "APP_ENV" then some "production" else some thirty_two

validated :
    validate_env (λ s. natural 4000) variables ≡ valid (environment (λ s. natural 4000) variables)
unfolding edge
validated = refl

validate_env-IsConfigured_example :
    (validate_env (λ s. natural 4000) variables ≡ valid (environment (λ s. natural 4000) variables))
    ↔ IsConfigured (λ s. natural 4000) variables
validate_env-IsConfigured_example = validate_env-IsConfigured (λ s. natural 4000) variables

-- With an empty environment every required variable is named.
all_missing :
    validate_env (λ s. natural 1) (λ name. none)
    ≢ valid (environment (λ s. natural 1) (λ name. none))
unfolding edge
all_missing e = absurd (ground arith)
