-- ===== src/Filters.antt =====
-- common/filters/: the answer of the service to an exception that a handler throws. The filters of
-- known errors come before the one that catches all. The log lines are left out.
use gracon_user_auth_service.Common.{
  ℕ, ◌≡◌, refl, ◌⊎◌, inl, inr, arith, Option, none, some, List, [], ◌∷◌, String, str_eq, ◌==◌,
  if◌then◌else◌, truthy, or_else,
}
use gracon_user_auth_service.Platform.{Exception, http, prisma, crash}

-- The body of an error's answer.
pub record ErrorBody : Type 0 where
  pub status_code : ℕ
  pub error : String
  pub message : String

-- `HTTP_REASON_PHRASES` of http-exception.filter.ts.
unfoldable pub reason_phrase : ℕ → Option String
reason_phrase status =
    if status == 400
    then some "Bad Request"
    else if status == 401
    then some "Unauthorized"
    else if status == 403
    then some "Forbidden"
    else if status == 404
    then some "Not Found"
    else if status == 408
    then some "Request Timeout"
    else if status == 409
    then some "Conflict"
    else if status == 410
    then some "Gone"
    else if status == 422
    then some "Unprocessable Entity"
    else if status == 429
    then some "Too Many Requests"
    else if status == 500
    then some "Internal Server Error"
    else if status == 502
    then some "Bad Gateway"
    else if status == 503
    then some "Service Unavailable"
    else none

-- The body of an HttpException: a text, or an object whose message is a list, a text, or neither.
pub data ExceptionResponse : Type 0 where
  text : String → ExceptionResponse
  messages : List String → ExceptionResponse
  message : String → ExceptionResponse
  other : ExceptionResponse

abbrev pub validation_failed : String
validation_failed = "Validation failed. Check your request and try again."

-- `safeMessage`
unfoldable pub safe_message : ℕ → ExceptionResponse → String
safe_message status (text s) = s
safe_message status (messages (m ∷ [])) = if truthy m then m else validation_failed
safe_message status (messages _) = validation_failed
safe_message status (message m) =
    if truthy m then m else or_else (reason_phrase status) "An error occurred."
safe_message status other = or_else (reason_phrase status) "An error occurred."

unfoldable pub catch_http : ℕ → ExceptionResponse → ErrorBody
catch_http status response = record {
  status_code = status;
  error = or_else (reason_phrase status) "Error";
  message = safe_message status response;
}

-- The errors that the database client raises.
pub data PrismaError : Type 0 where
  known_request : String → PrismaError
  initialization validation unknown_request rust_panic : PrismaError

-- `KNOWN_CODE_MAP` and its default.
unfoldable pub known_code : String → ℕ × String
known_code code =
    if str_eq code "P2002"
    then (409, "A record with the provided value already exists.")
    else if str_eq code "P2003"
    then (409, "The related record referenced by this request was not found.")
    else if str_eq code "P2014"
    then (
      409,
      "This operation would violate a data integrity constraint. Ensure all related records exist before retrying.",
    )
    else if str_eq code "P2011"
    then (500, "An unexpected data error occurred. Please try again later.")
    else if str_eq code "P2025"
    then (404, "The requested record was not found.")
    else (500, "A database error occurred. Please try again later.")

unfoldable pub resolve : PrismaError → ℕ × String
resolve (known_request code) = known_code code
resolve initialization = (503, "The service is temporarily unavailable. Please try again shortly.")
resolve validation = (500, "An unexpected error occurred. Please try again later.")
resolve unknown_request = (500, "An unexpected error occurred. Please try again later.")
resolve rust_panic = (500, "An unexpected error occurred. Please try again later.")

unfoldable pub status_label : ℕ → String
status_label status =
    if status == 400
    then "Bad Request"
    else if status == 404
    then "Not Found"
    else if status == 409
    then "Conflict"
    else if status == 500
    then "Internal Server Error"
    else if status == 503
    then "Service Unavailable"
    else "Error"

unfoldable pub catch_prisma : PrismaError → ErrorBody
catch_prisma e =
    let (status, said) = resolve e in
    record { status_code = status; error = status_label status; message = said }

-- `AllExceptionsFilter`
abbrev pub catch_all : ErrorBody
catch_all = record {
  status_code = 500;
  error = "Internal Server Error";
  message = "An unexpected error occurred. Please try again later.";
}

-- The answer to what a handler throws. An HttpException made of a text has it as its message.
unfoldable pub answer : Exception → ErrorBody
answer (http status m) = catch_http status (message m)
answer (prisma code) = catch_prisma (known_request code)
answer (crash _) = catch_all

-- The label of a database error is the phrase of its status, and the status is one of four.
pub catch_prisma-label :
    (e : PrismaError)
    → let body = catch_prisma e in
      (reason_phrase body.status_code ≡ some body.error)
      × ((body.status_code ≡ 404)
          ⊎ ((body.status_code ≡ 409) ⊎ ((body.status_code ≡ 500) ⊎ (body.status_code ≡ 503))))
unfolding catch_prisma resolve known_code status_label reason_phrase
catch_prisma-label (known_request code) = (ground arith, ground arith)
catch_prisma-label initialization = (refl, inr (inr (inr refl)))
catch_prisma-label validation = (refl, inr (inr (inl refl)))
catch_prisma-label unknown_request = (refl, inr (inr (inl refl)))
catch_prisma-label rust_panic = (refl, inr (inr (inl refl)))
