-- ===== src/ForeignIdentity.antt =====
-- modules/foreign-identity/foreign-identity.client.ts: the lookup of a foreign identity by its number.
-- The Basic header is left out; the HTTP client is a function of the address that is asked.
use Prim.Native.Char.{code}
use gracon_user_auth_service.Common.{
  ℕ, Bool, false, not, ◌||◌, Option, none, some, String, ◌==◌, if◌then◌else◌, truthy, or_else, ◌⁺⁺◌,
}
use gracon_user_auth_service.Platform.{Exception, crash, internal_server_error, Outcome, ok, throws}

-- `ForeignIdentityProfile`. The date of birth is what `new Date` makes of its text, if anything.
pub record ForeignIdentityProfile : Type 0 where
  pub fin : String
  pub is_active : Bool
  pub first_name : String
  pub last_name : String
  pub gender : String
  pub date_of_birth : Option ℕ
  pub country_of_origin : String

-- What the HTTP client comes back with: a body, which may be missing, an error of its own with the
-- status of the answer if there was one, or another error.
pub data ForeignAnswer : Type 0 where
  body : Option ForeignIdentityProfile → ForeignAnswer
  axios_error : Option ℕ → ForeignAnswer
  crashed : ForeignAnswer

abbrev pub lookup_failed : Exception
lookup_failed = internal_server_error "Foreign identity lookup failed. Please retry."

abbrev default_url : String
default_url = "http://localhost:3006/api/v1"

-- `.replace(/\/+$/, '')`: the text without the slashes at its end.
unfoldable pub without_slashes : String → String
without_slashes String.[] = String.[]
without_slashes (String.◌∷◌ c s) =
    let rest = without_slashes s in
    if truthy rest
    then String.◌∷◌ c rest
    else if code c == b'/'
    then String.[]
    else String.◌∷◌ c String.[]

-- What the client is configured with, `encodeURIComponent`, and the HTTP client.
pub record ForeignService : Type 0 where
  pub service_url : Option String
  pub username : Option String
  pub password : Option String
  pub encode : String → String
  pub http_get : String → ForeignAnswer

unfoldable pub base_url : Option String → String
unfolding without_slashes
base_url url = without_slashes (or_else url default_url)

abbrev present : Option String → Bool
present none = false
present (some s) = truthy s

-- The constructor: the base address, or an error.
unfoldable pub construct : ForeignService → Outcome String
unfolding base_url
construct service =
    if not (present service.username) || not (present service.password)
    then throws (
        crash
          "FOREIGN_IDENTITY_SERVICE_USERNAME and FOREIGN_IDENTITY_SERVICE_PASSWORD environment variables must be set")
    else ok (base_url service.service_url)

unfoldable pub answer_of : ForeignAnswer → Outcome (Option ForeignIdentityProfile)
answer_of (body profile) = ok profile
answer_of (axios_error none) = throws lookup_failed
answer_of (axios_error (some status)) = if status == 404 then ok none else throws lookup_failed
answer_of crashed = throws lookup_failed

unfoldable pub get_by_fin : ForeignService → String → Outcome (Option ForeignIdentityProfile)
unfolding base_url answer_of
get_by_fin service fin_number = answer_of (
    service.http_get
      (base_url service.service_url ⁺⁺ "/foreign-identities/" ⁺⁺ service.encode fin_number))
