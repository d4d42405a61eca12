-- ===== src/Router.antt =====
-- HTTPErrorHandlerWithConfig of internal/api/router/handlers.go: what a client is told of an error.
-- `Internal` and `AdditionalData` of an error are never sent, and are left out.
pub mod Concealed
use go_mpc_vault.Prelude.{
  ℕ, String, Bool, true, false, ◌&&◌, ◌==◌, Option, none, some, List, [], ◌∷◌, ◌++◌, same_number,
  if◌then◌else◌,
}
use go_mpc_vault.Errors.{
  Error, user_deactivated, invalid_password, not_local_user, token_not_found, token_expired,
  user_already_exists, conflict_push_token, not_found_old_push_token, malformed_token,
  last_authenticated_at_exceeded, missing_scopes, token_validation_failed, unauthorized, forbidden,
  echo_not_found, internal_server_error, bad_request, internal_status, not_found, no_rows, driver,
  constraint, hashing, remote, panic, message, wrapped,
}

-- types.PublicHTTPError
pub record HttpError : Type 0 where
  pub code : ℕ
  pub kind : String
  pub title : String
  pub detail : String

-- types.HTTPValidationErrorDetail
pub record ValidationDetail : Type 0 where
  pub key : String
  pub place : String
  pub error : String

-- types.PublicHTTPValidationError
pub record HttpValidationError : Type 0 where
  pub base : HttpError
  pub validation_errors : List ValidationDetail

-- echo.HTTPError; `none` for a message that is no string
pub record EchoError : Type 0 where
  pub code : ℕ
  pub message : Option String

-- A chain of errors as errors.As walks it; an error of echo may have an internal one.
pub data Cause : Type 0 where
  http : HttpError → Cause
  validation : HttpValidationError → Cause
  echo : EchoError → Cause
  echo_within : EchoError → Cause → Cause
  within : String → Cause → Cause
  plain : String → Cause

pub data Body : Type 0 where
  problem : HttpError → Body
  validation_problem : HttpValidationError → Body

-- The three uses of errors.As
unfoldable pub find_http : Cause → Option HttpError
find_http (http e) = some e
find_http (validation e) = none
find_http (echo e) = none
find_http (echo_within e c) = find_http c
find_http (within s c) = find_http c
find_http (plain s) = none

unfoldable pub find_validation : Cause → Option HttpValidationError
find_validation (http e) = none
find_validation (validation e) = some e
find_validation (echo e) = none
find_validation (echo_within e c) = find_validation c
find_validation (within s c) = find_validation c
find_validation (plain s) = none

unfoldable pub find_echo : Cause → Option EchoError
find_echo (http e) = none
find_echo (validation e) = none
find_echo (echo e) = some e
find_echo (echo_within e c) = some e
find_echo (within s c) = find_echo c
find_echo (plain s) = none

abbrev pub status_text : String
status_text = "Internal Server Error"

abbrev pub generic : ℕ → String → HttpError
generic code title = record { code = code; kind = "generic"; title = title; detail = "" }

abbrev pub is_internal : ℕ → Bool
is_internal code = same_number code 500

abbrev pub conceal : Bool → HttpError → HttpError
conceal hide e = if is_internal e.code && hide then record e { title = status_text } else e

-- A message that is no string: json.Marshal is given the empty `msg`, and the test after it reads the
-- error that is handled.
abbrev pub echo_title : Option String → String
echo_title (some text) = text
echo_title none = "failed to marshal HTTP error message: <nil>"

abbrev pub echo_problem : Bool → EchoError → HttpError
echo_problem hide e =
    if is_internal e.code && hide
    then generic e.code status_text
    else generic e.code (echo_title e.message)

-- The `switch`. `text` is `err.Error()`.
abbrev pub default_reply : Bool → String → ℕ × Body
default_reply hide text = (500, problem (generic 500 (if hide then status_text else text)))

abbrev pub echo_reply : Bool → String → Option EchoError → ℕ × Body
echo_reply hide text (some e) = (e.code, problem (echo_problem hide e))
echo_reply hide text none = default_reply hide text

abbrev pub validation_reply : Bool → Option HttpValidationError → ℕ × Body → ℕ × Body
validation_reply hide (some e) rest =
    (e.base.code, validation_problem (record e { base = conceal hide e.base }))
validation_reply hide none rest = rest

abbrev pub http_reply : Bool → Option HttpError → ℕ × Body → ℕ × Body
http_reply hide (some e) rest = (e.code, problem (conceal hide e))
http_reply hide none rest = rest

unfoldable pub reply : Bool → String → Cause → ℕ × Body
reply hide text c =
    http_reply hide (find_http c)
      (validation_reply hide (find_validation c) (echo_reply hide text (find_echo c)))

-- Nothing is sent if the response is on its way, and no body to a HEAD request.
unfoldable pub handle_error : Bool → Bool → String → String → Cause → Option (ℕ × Option Body)
handle_error hide committed method text c =
    let (code, body) = reply hide text c in
    if committed then none else some (code, if method == "HEAD" then none else some body)

-- httperrors.NewHTTPError and NewHTTPErrorWithDetail
abbrev new_http_error : ℕ → String → String → HttpError
new_http_error code kind title = record { code = code; kind = kind; title = title; detail = "" }

abbrev new_http_error_with_detail : ℕ → String → String → String → HttpError
new_http_error_with_detail code kind title detail = record {
  code = code;
  kind = kind;
  title = title;
  detail = detail;
}

abbrev from_echo : ℕ → String → Cause
from_echo code text = echo (record { code = code; message = some text })

-- What the errors of the services and the middleware are; `said` is the text of one from outside.
unfoldable pub to_cause : (Error → String) → Error → Cause
to_cause said user_deactivated =
    http (new_http_error 403 "USER_DEACTIVATED" "User account is deactivated")
to_cause said invalid_password = http (
    new_http_error_with_detail 400 "INVALID_PASSWORD" "The password provided was invalid"
      "Password was either too weak or did not match other criteria")
to_cause said not_local_user =
    http (new_http_error 403 "NOT_LOCAL_USER" "User account is not valid for local authentication")
to_cause said token_not_found =
    http (new_http_error 404 "TOKEN_NOT_FOUND" "Provided token was not found")
to_cause said token_expired =
    http (new_http_error 409 "TOKEN_EXPIRED" "Provided token has expired and is no longer valid")
to_cause said user_already_exists =
    http (new_http_error 409 "USER_ALREADY_EXISTS" "User with given username already exists")
to_cause said conflict_push_token =
    http (new_http_error 409 "PUSH_TOKEN_ALREADY_EXISTS" "The given token already exists.")
to_cause said not_found_old_push_token = http (
    new_http_error 404 "OLD_PUSH_TOKEN_NOT_FOUND"
      "The old push token does not exists. The new token was saved.")
to_cause said malformed_token =
    http (new_http_error 400 "MALFORMED_TOKEN" "Auth token is malformed")
to_cause said last_authenticated_at_exceeded = http (
    new_http_error 401 "LAST_AUTHENTICATED_AT_EXCEEDED"
      "LastAuthenticatedAt timestamp exceeds threshold, re-authentication required")
to_cause said missing_scopes =
    http (new_http_error 403 "MISSING_SCOPES" "User is missing required scopes")
to_cause said token_validation_failed = plain "auth token validation failed"
to_cause said unauthorized = from_echo 401 "Unauthorized"
to_cause said forbidden = from_echo 403 "Forbidden"
to_cause said echo_not_found = from_echo 404 "Not Found"
to_cause said internal_server_error = from_echo 500 "Internal Server Error"
to_cause said (bad_request text) = from_echo 400 text
to_cause said (internal_status text e) = plain text
to_cause said not_found = plain "not found"
to_cause said no_rows = plain (said no_rows)
to_cause said driver = plain (said driver)
to_cause said constraint = plain (said constraint)
to_cause said hashing = plain (said hashing)
to_cause said remote = plain (said remote)
to_cause said panic = plain (said panic)
to_cause said (message text) = plain text
to_cause said (wrapped text e) = within text (to_cause said e)
