-- ===== src/Citizen.antt =====
-- modules/citizen/citizen.service.ts with citizen-api.exception.ts: the lookup of a citizen by the
-- national identity number, its cache and its errors. The log lines and the Basic header are left out.
pub mod Cache
pub mod Hits
pub mod Errors
use Prim.Native.String
use gracon_user_auth_service.Common.{
  ℕ, zero, suc, ◌+◌, ◌-◌, ◌*◌, ◌/◌, ◌%◌, ◌≤◌, ◌<◌, ◌≡◌, ◌≢◌, refl, sym, ap, subst, ◌∙◌, ◌⊎◌, ◌↔◌,
  inl, inr, arith, Bool, true, false, not, ◌&&◌, ◌||◌, Option, none, some, List, [], ◌∷◌, ◌++◌, map,
  String, str_eq, str_eq_iff, ltb, leb, ◌==◌, if◌then◌else◌, truthy, is_some, or_else, substring,
  codes, ◌⁺⁺◌, trim, split, decimal, Bool-cases, Option-cases, All, length, find, select,
  update_where, take, drop, contains, ==_iff, ==_refl, &&-eq-true,
}
use gracon_user_auth_service.Platform.{
  IdentityType, nid, fin, TokenType, full, limited, User, CitizenIdentity, PlatformId,
  InvitePreference, no_verification, email_otp, identity_verification, UserPreference,
  EmailVerificationToken, PasswordResetToken, RefreshToken, IdVerification, SecurityEvent,
  login_success, login_failed, verification_passed, verification_failed, password_reset_requested,
  password_changed, sessions_revoked_by_user, revoked_token_reuse, rate_limit_exceeded,
  SecurityEventLog, Mail, verification_email, welcome_email, password_reset_email, Reply, accepted,
  rejected, and_then, Client, World, Exception, http, prisma, crash, bad_request, unauthorized,
  forbidden, not_found, conflict, internal_server_error, Outcome, ok, throws, Handler, pure, throw,
  gets, ◌>>=◌, ◌>>◌, modify, throw_if, insert, Bucket, Env, Moment, JwtPayload,
}

-- `CitizenApiRawData`; the date may be missing in an answer.
pub record CitizenApiRawData : Type 0 where
  pub document_type : String
  pub nid : String
  pub sur_name : String
  pub post_names : String
  pub sex : String
  pub date_of_birth : Option String
  pub country_of_birth : String

-- `CitizenApiRawResponse`
pub record CitizenApiRawResponse : Type 0 where
  pub status : String
  pub data_of : Option CitizenApiRawData

-- `CitizenData`
pub record CitizenData : Type 0 where
  pub document_type : String
  pub nid : String
  pub sur_name : String
  pub post_names : String
  pub sex : String
  pub date_of_birth : ℕ
  pub country_of_birth : String

-- What the block around the call of the registry can catch.
pub data ApiError : Type 0 where
  timed_out : ApiError
  axios : Option ℕ → ApiError
  coded : String → ApiError
  own : Exception → ApiError
  unexpected : ApiError

-- What the registry's HTTP endpoint comes back with: a body, an error of the HTTP client with the
-- status of the answer if there was one, or another error with its code if it has one.
pub data ApiAnswer : Type 0 where
  response : Option CitizenApiRawResponse → ApiAnswer
  axios_error : Option ℕ → ApiAnswer
  other_error : Option String → ApiAnswer

abbrev pub request_timeout_ms : ℕ
request_timeout_ms = 10_000

abbrev pub cache_ttl_ms : ℕ
cache_ttl_ms = 5 * 60 * 1000

-- The number of a text's characters.
unfoldable pub size : String → ℕ
size String.[] = 0
size (String.◌∷◌ _ s) = suc (size s)

-- The text without its first characters.
unfoldable pub skip : ℕ → String → String
skip zero s = s
skip (suc n) String.[] = String.[]
skip (suc n) (String.◌∷◌ _ s) = skip n s

-- `slice(-4)`
unfoldable pub last_four : String → String
unfolding size skip
last_four s = skip (size s - 4) s

unfoldable pub citizen_not_found : String → Exception
unfolding last_four
citizen_not_found document_number =
    not_found ("No citizen found for document ending in ..." ⁺⁺ last_four document_number)

abbrev pub api_unavailable : Exception
api_unavailable =
    http 503 "National ID verification service is temporarily unavailable. Please try again later."

abbrev pub api_timeout : Exception
api_timeout = http 504 "National ID verification service timed out. Please try again."

abbrev pub invalid_document : Exception
invalid_document = bad_request "The provided National ID number is invalid."

abbrev pub all_digits : List ℕ → Bool
all_digits [] = true
all_digits (c ∷ cs) = (leb b'0' c && leb c b'9') && all_digits cs

-- `NID_REGEX.test`
unfoldable pub is_nid : String → Bool
unfolding codes
is_nid s = length (codes s) == 16 && all_digits (codes s)

-- `validateDocumentNumber`, as the test that it makes.
unfoldable pub is_document_number : String → Bool
unfolding is_nid trim
is_document_number document_number = truthy document_number && is_nid (trim document_number)

-- `handleApiError`: what is thrown for what was caught.
unfoldable pub handle_api_error : ApiError → String → Exception
handle_api_error timed_out document_number = api_timeout
handle_api_error (axios (some status)) document_number =
    if status == 404 || status == 400
    then citizen_not_found document_number
    else if status == 401 || status == 403
    then api_unavailable
    else api_unavailable
handle_api_error (axios none) document_number = api_unavailable
handle_api_error (coded c) document_number =
    if str_eq c "ECONNREFUSED" || str_eq c "ENOTFOUND" then api_unavailable else api_unavailable
handle_api_error (own e) document_number = e
handle_api_error unexpected document_number = api_unavailable

-- The cache manager: `get` at a time, and `set` with a time to live at a time. What is found was set
-- before, and no longer ago than it lives; an entry may be gone earlier.
pub record CacheManager : Type 1 where
  pub Store : Type 0
  pub empty : Store
  pub get : String → ℕ → Store → Option CitizenData
  pub set : String → CitizenData → ℕ → ℕ → Store → Store
  pub get_empty : (key : String) (t : ℕ) → get key t empty ≡ none
  pub get_set :
      (key key' : String) (x v : CitizenData) (ttl now t : ℕ) (store : Store)
      → get key t (set key' v ttl now store) ≡ some x
      → ((key ≡ key') × ((x ≡ v) × (t ≤ now + ttl))) ⊎ (get key t store ≡ some x)

-- What the service stands on: the cache, SHA-256 in hexadecimal, what `new Date` makes of the texts
-- of a year, a month and a day, and the registry: its answer to a number sent at a time, and the time
-- that the answer takes.
pub record Registry : Type 1 where
  pub cache_manager : CacheManager
  pub sha256_hex : String → String
  pub new_date : String → String → String → Option ℕ
  pub post : String → ℕ → ApiAnswer
  pub latency : String → ℕ → ℕ

-- What `extractCitizenData` and the checks before it return or throw.
pub data Extracted : Type 0 where
  extracted : CitizenData → Extracted
  failed : ApiError → Extracted

module _ (registry : Registry) where
  open registry use {cache_manager, sha256_hex, new_date, post, latency}
  open cache_manager use {Store, get, set}

  -- The clock, the cache, and the numbers that have been sent to the registry.
  pub record CitizenState : Type 0 where
    pub clock : ℕ
    pub cache : Store
    pub requests : List String

  unfoldable pub build_cache_key : String → String
  build_cache_key document_number = "citizen:" ⁺⁺ sha256_hex document_number

  -- `parseDateOfBirth`: a part that is missing is no number, and makes the date invalid.
  unfoldable pub parse_date_of_birth : String → Option ℕ
  unfolding split
  parse_date_of_birth s = elim (split b'/' s) [
    | [] ↦ none
    | day ∷ [] ↦ none
    | day ∷ month ∷ [] ↦ none
    | day ∷ month ∷ year ∷ _ ↦ new_date year month day
  ]

  abbrev pub clean : CitizenApiRawData → ℕ → CitizenData
  clean raw date = record {
    document_type = raw.document_type;
    nid = raw.nid;
    sur_name = raw.sur_name;
    post_names = raw.post_names;
    sex = raw.sex;
    date_of_birth = date;
    country_of_birth = raw.country_of_birth;
  }

  -- `extractCitizenData`; a missing date is no text to split.
  unfoldable pub extract_citizen_data : CitizenApiRawData → Extracted
  unfolding parse_date_of_birth
  extract_citizen_data raw = elim raw.date_of_birth [
    | none ↦ failed unexpected
    | some s ↦ elim (parse_date_of_birth s) [
      | none ↦ failed (own invalid_document)
      | some date ↦ extracted (clean raw date)
    ]
  ]

  -- What the answer in time comes to, in the `try` block.
  unfoldable pub received : ApiAnswer → String → Extracted
  unfolding extract_citizen_data citizen_not_found
  received (axios_error status) document_number = failed (axios status)
  received (other_error (some c)) document_number = failed (coded c)
  received (other_error none) document_number = failed unexpected
  received (response none) document_number = failed (own (citizen_not_found document_number))
  received (response (some answer)) document_number =
      if str_eq answer.status "ok"
      then (elim answer.data_of [
        | none ↦ failed (own (citizen_not_found document_number))
        | some raw ↦ extract_citizen_data raw
      ])
      else failed (own (citizen_not_found document_number))

  -- What the call comes to when it is sent at a time; an answer that takes longer is given up.
  unfoldable pub fetched : String → ℕ → Outcome CitizenData
  unfolding received handle_api_error trim
  fetched document_number sent =
      let number = trim document_number in
      let seen = received (post number sent) document_number in
      elim (if ltb request_timeout_ms (latency number sent) then failed timed_out else seen) [
        | extracted citizen ↦ ok citizen
        | failed e ↦ throws (handle_api_error e document_number)
      ]

  -- How long the call takes.
  unfoldable pub call_duration : String → ℕ → ℕ
  unfolding trim
  call_duration document_number sent =
      let taken = latency (trim document_number) sent in
      if ltb request_timeout_ms taken then request_timeout_ms else taken

  -- `callCitizenApi`
  unfoldable pub call_citizen_api : String → CitizenState → Outcome CitizenData × CitizenState
  unfolding fetched call_duration trim
  call_citizen_api document_number s = (
    fetched document_number s.clock,
    record s {
      clock = s.clock + call_duration document_number s.clock;
      requests = s.requests ++ trim document_number ∷ [];
    },
  )

  -- The cache miss of `lookupCitizen`.
  unfoldable pub lookup_missed : String → CitizenState → Outcome CitizenData × CitizenState
  unfolding call_citizen_api build_cache_key
  lookup_missed document_number s =
      let (answer, called) = call_citizen_api document_number s in
      elim answer [
        | throws e ↦ (throws e, called)
        | ok citizen ↦ (
          ok citizen,
          record called {
            cache = set (build_cache_key document_number) citizen cache_ttl_ms called.clock s.cache;
          },
        )
      ]

  unfoldable pub lookup_citizen : String → CitizenState → Outcome CitizenData × CitizenState
  unfolding is_document_number build_cache_key lookup_missed
  lookup_citizen document_number s =
      if not (is_document_number document_number)
      then (throws invalid_document, s)
      else elim (get (build_cache_key document_number) s.clock s.cache) [
        | some citizen ↦ (ok citizen, s)
        | none ↦ lookup_missed document_number s
      ]
