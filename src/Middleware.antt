-- ===== src/Middleware.antt =====
-- The authentication middleware (internal/api/middleware/auth.go) and the credentials that it puts
-- into a request (internal/auth/context.go). The server `config.S` is `env`.
pub mod Checks
pub mod Tokens
pub mod Revocation
use Prim.Native.String.{len, slice}
use go_mpc_vault.Prelude.{
  ℕ, zero, suc, ◌+◌, String, Bool, true, false, not, ◌&&◌, ◌||◌, Option, none, some, List, [], ◌∷◌,
  any, default_to, ltb, leb, if◌then◌else◌, ◌==◌,
}
use go_mpc_vault.Errors.{
  Error, Result, ok, err, is_validation_failed, unauthorized, echo_not_found, internal_server_error,
  malformed_token, last_authenticated_at_exceeded, missing_scopes, token_validation_failed,
  user_deactivated, panic,
}
use go_mpc_vault.Exec.{
  Env, M, pool, pure, raise, lift, guard, require, map_error, attempt, now, wall_now, select, ◌>>=◌,
  ◌>>◌,
}
use go_mpc_vault.Auth.{User, local_user_to_dto}
use go_mpc_vault.Auth.Statements.{access_token_is, user_with_id, profile_of}

-- The last constructor stands for any other value of the integer type.
pub data AuthMode : Type 0 where
  required secure optional try_auth no_auth : AuthMode
  other_mode : ℕ → AuthMode

pub data AuthFailureMode : Type 0 where
  as_unauthorized as_not_found : AuthFailureMode
  other_failure : ℕ → AuthFailureMode

pub data AuthTokenSource : Type 0 where
  header query form : AuthTokenSource
  other_source : ℕ → AuthTokenSource

-- AuthFailureMode.Error
unfoldable pub failure_error : AuthFailureMode → Error
failure_error as_unauthorized = unauthorized
failure_error as_not_found = echo_not_found
failure_error (other_failure n) = internal_server_error

-- What the middleware reads of a request, and the credentials in its context.
pub record Request : Type 0 where
  pub header_value : String → String
  pub form_value : String → String
  pub query_param : String → String
  pub user : Option User
  pub access_token : Option String

unfoldable pub fetch : AuthTokenSource → Request → String → Option String
fetch header c key = some (c.header_value key)
fetch form c key = some (c.form_value key)
fetch query c key = some (c.query_param key)
fetch (other_source n) c key = none

-- The token behind its scheme, and whether there was anything at all.
unfoldable pub unwrap_scheme : String → String → String × Bool
unwrap_scheme token scheme =
    if leb (len token) 0
    then ("", false)
    else if leb (len scheme) 0
    then (token, true)
    else if ltb (len token) (len scheme + 1)
    then ("", true)
    else if not (slice token 0 (len scheme) == scheme)
    then ("", true)
    else (slice token (len scheme + 1) (len token), true)

-- AuthTokenSource.Extract
unfoldable pub extract : AuthTokenSource → Request → String → String → String × Bool
unfolding fetch unwrap_scheme
extract source c key scheme = elim (fetch source c key) [
  | none ↦ ("", false)
  | some token ↦ unwrap_scheme token scheme
]

-- auth.Result; no code sets its scopes
pub record AuthResult : Type 0 where
  pub token : String
  pub user : User
  pub valid_until : ℕ

pub record AuthConfig : Type 0 where
  pub mode : AuthMode
  pub failure_mode : AuthFailureMode
  pub token_source : AuthTokenSource
  pub token_source_key : String
  pub scheme : String
  pub skipper : Option (Request → Bool)
  pub format_validator : Option (String → Bool)
  pub token_validator : Option (Request → String → M AuthResult)
  pub scopes : List String

abbrev is_secure : AuthMode → Bool
is_secure secure = true
is_secure _ = false

abbrev is_try : AuthMode → Bool
is_try try_auth = true
is_try _ = false

abbrev is_none : AuthMode → Bool
is_none no_auth = true
is_none _ = false

-- A token is needed; a token that is there has to be good.
abbrev needs_token : AuthMode → Bool
needs_token required = true
needs_token secure = true
needs_token _ = false

abbrev is_optional : AuthMode → Bool
is_optional optional = true
is_optional _ = false

-- auth.EnrichEchoContextWithCredentials
unfoldable pub enrich : Request → AuthResult → Request
enrich c res = record c { user = some res.user; access_token = some res.token }

-- AuthConfig.CheckUserScopes: one of the scopes is enough
unfoldable pub check_user_scopes : List String → User → Bool
check_user_scopes [] user = true
check_user_scopes (s ∷ ss) user = any (λ scope. any (λ u. scope == u) user.scopes) (s ∷ ss)

abbrev or_default : String → String → String
or_default given fallback = if leb (len given) 0 then fallback else given

-- The token of a request, with the defaults of AuthWithConfig for the key and the scheme.
unfoldable pub presented : AuthConfig → Request → String × Bool
presented config c =
    extract config.token_source c (or_default config.token_source_key "Authorization")
      (or_default config.scheme "Bearer")

abbrev well_formed : (String → Bool) → AuthConfig → String → Bool
well_formed is_uuid4 config token = default_to is_uuid4 config.format_validator token

abbrev skipped : AuthConfig → Request → Bool
skipped config c = default_to (λ _. false) config.skipper c

module _ (env : Env) where
  -- AuthConfig.CheckLastAuthenticatedAt, by the wall clock
  unfoldable pub check_last_authenticated_at : AuthMode → User → M Bool
  check_last_authenticated_at mode user =
      if not (is_secure mode) then pure true else elim user.last_authenticated_at [
        | none ↦ pure false
        | some time ↦ do
          wall ← wall_now env
          pure (leb wall (time + env.config.last_authenticated_at_threshold))
      ]

  -- DefaultAuthTokenValidator; the user and the profile are loaded with the token
  unfoldable pub default_token_validator : String → M AuthResult
  default_token_validator token = do
    found ← map_error (select env pool (access_token_is token)) (λ _. internal_server_error)
    row ← lift (require found token_validation_failed)
    owner ← map_error (select env pool (user_with_id row.user_id)) (λ _. internal_server_error)
    profile ← map_error (select env pool (profile_of row.user_id)) (λ _. internal_server_error)
    user ← lift (require owner panic)
    pure (record {
      token = row.token;
      user = local_user_to_dto user profile;
      valid_until = row.valid_until;
    })

  -- The two checks that end both ways through the middleware.
  unfoldable pub check_user : AuthConfig → User → M (Unit {0})
  check_user config user = do
    recent ← check_last_authenticated_at config.mode user
    guard recent last_authenticated_at_exceeded
    guard (check_user_scopes config.scopes user) missing_scopes

  -- A valid token: its expiry, its user, and the credentials for the request.
  unfoldable pub admit : AuthConfig → Request → AuthResult → M Request
  admit config c res = do
    guard res.user.is_active user_deactivated
    check_user config res.user
    pure (enrich c res)

  unfoldable pub check_expiry : AuthConfig → Request → AuthResult → M Request
  check_expiry config c res = if leb res.valid_until 0 then admit config c res else do
    time ← now env
    if ltb res.valid_until time
        then (if is_try config.mode then pure c else raise (failure_error config.failure_mode))
        else admit config c res

  -- What follows the token validator.
  unfoldable pub validated : AuthConfig → Request → Result AuthResult → M Request
  validated config c (ok res) = check_expiry config c res
  validated config c (err e) =
      if not (is_validation_failed e)
      then raise internal_server_error
      else if is_try config.mode
      then pure c
      else raise (failure_error config.failure_mode)

  unfoldable pub validate : AuthConfig → Request → String → M AuthResult
  validate config c token = elim config.token_validator [
    | none ↦ default_token_validator token
    | some f ↦ f c token
  ]

  -- A request that carries no credentials yet. `is_uuid4` is strfmt.IsUUID4.
  unfoldable pub authenticate : (String → Bool) → AuthConfig → Request → M Request
  authenticate is_uuid4 config c =
      let (token, exists) = presented config c in
      if leb (len token) 0
      then (if needs_token config.mode || (exists && is_optional config.mode)
          then raise (failure_error config.failure_mode)
          else pure c)
      else if not (well_formed is_uuid4 config token)
      then (if needs_token config.mode || is_optional config.mode
          then raise malformed_token
          else pure c)
      else do res ← attempt (validate config c token); validated config c res

  -- The request that AuthWithConfig hands to the next handler, or the error that it returns.
  unfoldable pub authorize : (String → Bool) → AuthConfig → Request → M Request
  authorize is_uuid4 config c =
      if is_none config.mode || skipped config c then pure c else elim c.user [
        | some user ↦ (do check_user config user; pure c)
        | none ↦ authenticate is_uuid4 config c
      ]

  unfoldable pub auth_with_config :
      {A : Type 0} → (String → Bool) → AuthConfig → (Request → M A) → Request → M A
  auth_with_config is_uuid4 config next c = do c' ← authorize is_uuid4 config c; next c'

-- DefaultAuthConfig
abbrev pub default_auth_config : AuthConfig
default_auth_config = record {
  mode = required;
  failure_mode = as_unauthorized;
  token_source = header;
  token_source_key = "Authorization";
  scheme = "Bearer";
  skipper = none;
  format_validator = none;
  token_validator = none;
  scopes = "app" ∷ [];
}
