-- ===== src/Configuration.antt =====
-- config/env.validation.ts: the check of the environment's variables when the service starts. A
-- variable is its text, if it is set; what a number's text stands for is the converter's.
pub mod Checks
use gracon_user_auth_service.Common.{
  ℕ, zero, suc, ◌+◌, ◌-◌, ◌*◌, ◌/◌, ◌%◌, ◌≤◌, ◌<◌, ◌≡◌, ◌≢◌, refl, sym, ap, subst, ◌∙◌, ◌⊎◌, ◌↔◌,
  inl, inr, arith, Bool, true, false, not, ◌&&◌, ◌||◌, Option, none, some, List, [], ◌∷◌, ◌++◌, map,
  String, str_eq, str_eq_iff, ltb, leb, ◌==◌, if◌then◌else◌, truthy, is_some, or_else, substring,
  ◌⁺⁺◌, trim, decimal, Bool-cases, Option-cases, All, length, find, select, update_where, take,
  drop, contains, ==_iff, ==_refl, &&-eq-true,
}
use gracon_user_auth_service.Citizen.{size}

-- A text as `Number` reads it. A fraction is given by the natural number below it.
pub data Number : Type 0 where
  natural : ℕ → Number
  negative not_a_number : Number
  fraction : ℕ → Number

pub data AppEnv : Type 0 where
  development production : AppEnv

pub record EnvironmentVariables : Type 0 where
  pub app_env : AppEnv
  pub app_port : ℕ
  pub jwt_secret : String
  pub encryption_secret : String
  pub mail_port : ℕ
  pub verification_attempt_window_hours : ℕ
  -- The other texts, by name.
  pub text_of : String → Option String

pub data Validated : Type 0 where
  valid : EnvironmentVariables → Validated
  invalid : List String → Validated

abbrev default_foreign_url : String
default_foreign_url = "http://localhost:3006/api/v1"

-- The variables that must be texts and not empty, with their messages.
abbrev pub required_texts : List (String × String)
required_texts =
    ("DATABASE_URL", "DATABASE_URL is required")
    ∷ ("CITIZEN_API_URL", "CITIZEN_API_URL is required")
    ∷ ("CITIZEN_API_USERNAME", "CITIZEN_API_USERNAME is required")
    ∷ ("CITIZEN_API_PASSWORD", "CITIZEN_API_PASSWORD is required")
    ∷ (
      "FOREIGN_IDENTITY_SERVICE_URL",
      "FOREIGN_IDENTITY_SERVICE_URL is required (URL of the foreign identity API)",
    )
    ∷ (
      "FOREIGN_IDENTITY_SERVICE_USERNAME",
      "FOREIGN_IDENTITY_SERVICE_USERNAME is required (Basic Auth username for internal foreign identity lookups)",
    )
    ∷ (
      "FOREIGN_IDENTITY_SERVICE_PASSWORD",
      "FOREIGN_IDENTITY_SERVICE_PASSWORD is required (Basic Auth password for internal foreign identity lookups)",
    )
    ∷ ("MAIL_HOST", "MAIL_HOST is required")
    ∷ ("MAIL_USER", "MAIL_USER is required")
    ∷ ("MAIL_PASS", "MAIL_PASS is required")
    ∷ ("MAIL_FROM", "MAIL_FROM is required")
    ∷ ("FRONTEND_URL", "FRONTEND_URL is required (used in verification email links)")
    ∷ ("AWS_REGION", "AWS_REGION is required")
    ∷ ("AWS_ACCESS_KEY_ID", "AWS_ACCESS_KEY_ID is required")
    ∷ ("AWS_SECRET_ACCESS_KEY", "AWS_SECRET_ACCESS_KEY is required")
    ∷ ("AWS_S3_BUCKET_NAME", "AWS_S3_BUCKET_NAME is required")
    ∷ ("ENGINE_URL", "ENGINE_URL is required (URL of the FastAPI verification engine)")
    ∷ ("ENGINE_API_KEY", "ENGINE_API_KEY is required (must match the engine ENGINE_API_KEY)")
    ∷ []

abbrev not_text : String → String
not_text name = name ⁺⁺ " must be a string"

-- `@IsString() @IsNotEmpty({ message })`
unfoldable pub check_text : Option String → String × String → List String
check_text none (name, message) = not_text name ∷ message ∷ []
check_text (some s) (name, message) = if truthy s then [] else message ∷ []

-- `@IsString() @MinLength(32)` and `@Length(32, 32)`
unfoldable pub check_size : (ℕ → Bool) → Option String → String → String → List String
unfolding size
check_size fits none name message = not_text name ∷ message ∷ []
check_size fits (some s) name message = if fits (size s) then [] else message ∷ []

-- `@IsInt() @Min(least)`; a value that is missing is no number.
unfoldable pub check_int : ℕ → Option Number → String → String → List String
check_int least none integer_message least_message = integer_message ∷ least_message ∷ []
check_int least (some (natural n)) integer_message least_message =
    if leb least n then [] else least_message ∷ []
check_int least (some negative) integer_message least_message = least_message ∷ []
check_int least (some not_a_number) integer_message least_message =
    integer_message ∷ least_message ∷ []
check_int least (some (fraction n)) integer_message least_message =
    if leb least n then integer_message ∷ [] else integer_message ∷ least_message ∷ []

abbrev pub app_env_of : String → Option AppEnv
app_env_of s =
    if str_eq s "development"
    then some development
    else if str_eq s "production"
    then some production
    else none

abbrev pub check_app_env : Option AppEnv → List String
check_app_env none = "APP_ENV must be \"development\" or \"production\"" ∷ []
check_app_env (some _) = []

-- The number of a list's check, once the check has found no problem.
abbrev pub value_of : Option Number → ℕ
value_of (some (natural n)) = n
value_of _ = 0

module _ (number : String → Number) (config : String → Option String) where
  -- The raw text, with the default of the property.
  unfoldable pub raw : String → Option String
  raw name =
      if str_eq name "FOREIGN_IDENTITY_SERVICE_URL"
      then some (or_else (config name) default_foreign_url)
      else config name

  -- The value of a property that is a number, or its default.
  abbrev pub number_of : Option String → Option ℕ → Option Number
  number_of (some s) default = some (number s)
  number_of none (some n) = some (natural n)
  number_of none none = none

  abbrev pub app_env : Option AppEnv
  app_env = app_env_of (or_else (config "APP_ENV") "development")

  abbrev pub app_port : Option Number
  app_port = number_of (config "APP_PORT") (some 3000)

  abbrev pub mail_port : Option Number
  mail_port = number_of (config "MAIL_PORT") none

  abbrev pub window_hours : Option Number
  window_hours = number_of (config "VERIFICATION_ATTEMPT_WINDOW_HOURS") (some 24)

  unfoldable pub check_texts : List (String × String) → List String
  unfolding check_text raw
  check_texts [] = []
  check_texts (field ∷ fields) = check_text (raw field.0) field ++ check_texts fields

  -- `validateSync`: the messages of all problems.
  unfoldable pub problems : List String
  unfolding check_texts check_size check_int
  problems =
      check_app_env app_env
      ++ (check_int 1 app_port "APP_PORT must be an integer" "APP_PORT must be at least 1"
          ++ (check_size (λ n. leb 32 n) (config "JWT_SECRET") "JWT_SECRET"
                "JWT_SECRET must be at least 32 characters. Generate with: node -e \"console.log(require('crypto').randomBytes(64).toString('hex'))\""
              ++ (check_size (λ n. n == 32) (config "ENCRYPTION_SECRET") "ENCRYPTION_SECRET"
                    "ENCRYPTION_SECRET must be exactly 32 characters (AES-256 key)"
                  ++ (check_int 1 mail_port "MAIL_PORT must be an integer"
                        "MAIL_PORT must be at least 1"
                      ++ (check_texts required_texts
                          ++ check_int 0 window_hours
                              "VERIFICATION_ATTEMPT_WINDOW_HOURS must be an integer"
                              "VERIFICATION_ATTEMPT_WINDOW_HOURS must be 0 or greater. Use 0 to disable the business attempt window.")))))

  abbrev pub environment : EnvironmentVariables
  environment = record {
    app_env = or_else app_env development;
    app_port = value_of app_port;
    jwt_secret = or_else (config "JWT_SECRET") "";
    encryption_secret = or_else (config "ENCRYPTION_SECRET") "";
    mail_port = value_of mail_port;
    verification_attempt_window_hours = value_of window_hours;
    text_of = raw;
  }

  unfoldable pub validate_env : Validated
  unfolding problems
  validate_env = elim problems [ [] ↦ valid environment | p ∷ ps ↦ invalid (p ∷ ps) ]
