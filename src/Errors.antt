-- ===== src/Errors.antt =====
-- The errors that the services and the middleware return (internal/api/httperrors, internal/auth,
-- internal/api/middleware, and those of echo, database/sql and the database itself).
use go_mpc_vault.Prelude.{String, Bool, true, false, ◌≡◌, refl, ◌⊎◌, inl, inr}

pub data Error : Type 0 where
  -- httperrors/auth.go
  user_deactivated invalid_password not_local_user : Error
  token_not_found token_expired user_already_exists : Error
  -- httperrors/push.go
  conflict_push_token not_found_old_push_token : Error
  -- middleware/auth.go
  malformed_token last_authenticated_at_exceeded missing_scopes token_validation_failed : Error
  -- echo.ErrUnauthorized, ErrForbidden, ErrNotFound, ErrInternalServerError
  unauthorized forbidden echo_not_found internal_server_error : Error
  -- echo.NewHTTPError with 400, and with the code Internal of gRPC
  bad_request : String → Error
  internal_status : String → Error → Error
  -- auth.ErrNotFound and sql.ErrNoRows
  not_found no_rows : Error
  -- a statement, a hash or a remote call that fails for reasons of its own; a violated constraint
  driver constraint hashing remote : Error
  -- a nil dereference
  panic : Error
  -- fmt.Errorf without and with %w
  message : String → Error
  wrapped : String → Error → Error

-- errors.Is against a target that is itself no wrapper
unfoldable pub is_no_rows : Error → Bool
is_no_rows no_rows = true
is_no_rows (wrapped s e) = is_no_rows e
is_no_rows _ = false

-- errors.Is against ErrAuthTokenValidationFailed
unfoldable pub is_validation_failed : Error → Bool
is_validation_failed token_validation_failed = true
is_validation_failed (wrapped s e) = is_validation_failed e
is_validation_failed _ = false

pub data Result {ℓ} (A : Type ℓ) : Type ℓ where
  ok : A → Result A
  err : Error → Result A

pub Result-cases {ℓ} :
    {A : Type ℓ} (r : Result A) → ((a : A) × (r ≡ ok a)) ⊎ ((e : Error) × (r ≡ err e))
Result-cases (ok a) = inl (a, refl)
Result-cases (err e) = inr (e, refl)
