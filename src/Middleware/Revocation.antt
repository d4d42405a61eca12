-- ===== src/Middleware/Revocation.antt =====
-- Logout of internal/auth/service.go against the middleware that asks for the token afterwards.
use go_mpc_vault.Prelude.{
  String, Bool, true, false, Option, none, some, List, [], ◌∷◌, ◌≡◌, ◌≢◌, ◌⊎◌, refl, arith, find,
  delete_where, ◌==◌, inl, inr,
}
use go_mpc_vault.Errors.{ok}
use go_mpc_vault.Data.UserTables.{AccessToken, RefreshToken}
use go_mpc_vault.Exec.{
  Env, World, select, write, map_error, lift, pure, with_transaction, commit_lost, ◌>>=◌,
}
use go_mpc_vault.Auth.Statements.{
  access_token_is, refresh_token_is, delete_access_token, delete_refresh_token,
}
use go_mpc_vault.Auth.Session.{logout, logout_refresh}
use go_mpc_vault.Middleware.{
  AuthConfig, Request, needs_token, skipped, presented, authorize, validate,
  default_token_validator,
}
use go_mpc_vault.Middleware.Checks.{authorize_sound}

find-deleted_access :
    (token : String) (rows : List AccessToken)
    → find (λ t. t.token == token) (delete_where (λ t. t.token == token) rows) ≡ none
find-deleted_access token [] = refl
find-deleted_access token (t ∷ rows) = ground (arith, find-deleted_access token rows)

find-deleted_refresh :
    (token : String) (rows : List RefreshToken)
    → find (λ t. t.token == token) (delete_where (λ t. t.token == token) rows) ≡ none
find-deleted_refresh token [] = refl
find-deleted_refresh token (t ∷ rows) = ground (arith, find-deleted_refresh token rows)

module _ (env : Env) (access : String) where
  logout_access :
      (token : Option String) (w : World)
      → (logout env access token w).0 ≡ ok tt
      → ((commit_lost env (logout env access token w).1 ≡ true)
          × ((logout env access token w).1.base ≡ w.base))
        ⊎ (access_token_is access (logout env access token w).1.base ≡ none)
  unfolding logout logout_refresh with_transaction write pure delete_access_token
      delete_refresh_token ◌>>=◌
  logout_access none w h = ground (arith, find-deleted_access access w.base.accounts.access_tokens)
  logout_access (some token) w h =
      ground (arith, find-deleted_access access w.base.accounts.access_tokens)

  -- A logout that succeeds with a refresh token has deleted both tokens, unless the commit meets
  -- an outage.
  pub logout_ok :
      (token : String) (w : World)
      → (logout env access (some token) w).0 ≡ ok tt
      → ((commit_lost env (logout env access (some token) w).1 ≡ true)
          × ((logout env access (some token) w).1.base ≡ w.base))
        ⊎ ((access_token_is access (logout env access (some token) w).1.base ≡ none)
            × (refresh_token_is token (logout env access (some token) w).1.base ≡ none))
  unfolding logout logout_refresh with_transaction write pure delete_access_token
      delete_refresh_token ◌>>=◌
  logout_ok token w h = ground (
    arith,
    find-deleted_access access w.base.accounts.access_tokens,
    find-deleted_refresh token w.base.accounts.refresh_tokens,
  )

  unknown_refused :
      (w : World) (config : AuthConfig) (c : Request) (is_uuid4 : String → Bool) (c' : Request)
      → needs_token config.mode ≡ true
      → skipped config c ≡ false
      → config.token_validator ≡ none
      → c.user ≡ none
      → (presented config c).0 ≡ access
      → access_token_is access w.base ≡ none
      → (authorize env is_uuid4 config c w).0 ≢ ok c'
  unfolding validate default_token_validator select map_error lift ◌>>=◌
  unknown_refused w config c is_uuid4 c' strict kept std fresh token gone h =
      elim (authorize_sound env config c is_uuid4 w c' strict kept h) [
        | inl (user, e, same, checked) ↦ ground arith
        | inr (res, formed, known, live, gains) ↦ ground arith
      ]

  -- After a logout that reports success, the middleware lets no request with that access token through,
  -- in a mode that needs a token and with the default validator, unless the commit of the logout met
  -- an outage, and then nothing has changed.
  pub authorize-logout :
      (rt : Option String) (w : World) (config : AuthConfig) (c : Request)
      (is_uuid4 : String → Bool) (c' : Request)
      → needs_token config.mode ≡ true
      → skipped config c ≡ false
      → config.token_validator ≡ none
      → c.user ≡ none
      → (presented config c).0 ≡ access
      → (logout env access rt w).0 ≡ ok tt
      → ((commit_lost env (logout env access rt w).1 ≡ true)
          × ((logout env access rt w).1.base ≡ w.base))
        ⊎ ((authorize env is_uuid4 config c (logout env access rt w).1).0 ≢ ok c')
  authorize-logout rt w config c is_uuid4 c' strict kept std fresh token h =
      elim (logout_access rt w h) [
        | inl lost ↦ inl lost
        | inr gone ↦ inr (
            unknown_refused (logout env access rt w).1 config c is_uuid4 c' strict kept std fresh
              token gone)
      ]
