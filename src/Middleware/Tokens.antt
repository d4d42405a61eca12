-- ===== src/Middleware/Tokens.antt =====
-- The token in an Authorization header: AuthTokenSource.Extract of internal/api/middleware/auth.go.
use Prim.Native.String.{len, slice, ◌++◌}
use text.Mathlib.TextPositions.{len-append, slice-append_left, slice-append_right}
use text.Mathlib.TextLemmas.{append_assoc}
use go_mpc_vault.Prelude.{◌+◌, ◌<◌, String, true, ◌≡◌, some, arith, eq_refl}
use go_mpc_vault.Middleware.{AuthTokenSource, Request, extract, unwrap_scheme, fetch}

module _ (scheme token : String) where
  abbrev credentials : String
  credentials = scheme ++ (" " ++ token)

  len-credentials : len credentials ≡ len scheme + 1 + len token
  len-credentials = omega (arith, len-append scheme (" " ++ token), len-append " " token)

  slice-credentials : slice credentials (len scheme + 1) (len credentials) ≡ token
  slice-credentials =
      rw (len-credentials, ← append_assoc scheme " " token)
        (rw (len-append scheme " ") at (slice-append_right (scheme ++ " ") token))

  unwrap_scheme_lem : 0 < len scheme → unwrap_scheme credentials scheme ≡ (token, true)
  unfolding unwrap_scheme
  unwrap_scheme_lem present = ground (
    arith,
    len-credentials,
    slice-credentials,
    slice-append_left scheme (" " ++ token),
    eq_refl scheme,
  )

  -- A value that is the scheme, a space and a token yields the token, wherever it is read from.
  pub extract_scheme :
      (source : AuthTokenSource) (c : Request) (key : String)
      → 0 < len scheme
      → fetch source c key ≡ some credentials
      → extract source c key scheme ≡ (token, true)
  unfolding extract
  extract_scheme source c key present value = rw (value, extract) (unwrap_scheme_lem present)
