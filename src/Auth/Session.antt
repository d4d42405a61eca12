-- ===== src/Auth/Session.antt =====
-- internal/auth/service.go: authenticateUser, Login, Refresh, Logout, GetAppUserProfile
use go_mpc_vault.Prelude.{◌+◌, ◌/◌, String, Bool, true, false, Option, none, some}
use go_mpc_vault.Errors.{user_deactivated, unauthorized, not_found, panic}
use go_mpc_vault.Exec.{
  Env, M, Executor, pool, tx, pure, lift, guard, require, map_error, now, select, write,
  with_transaction, ◌>>=◌, ◌>>◌,
}
use go_mpc_vault.Auth.{
  User, AppUserProfile, LoginResult, local_user_to_dto, local_app_user_profile_to_dto,
  to_username_format,
}
use go_mpc_vault.Auth.Statements.{
  user_named, user_with_id, profile_of, refresh_token_is, on_accounts, insert_access_token,
  insert_refresh_token, update_user, delete_access_tokens_of, delete_refresh_tokens_of,
  delete_access_token, delete_refresh_token,
}

module _ (env : Env) where
  -- `if request.InvalidateExistingTokens`
  unfoldable pub invalidate_tokens : Bool → Executor → String → M (Unit {0})
  invalidate_tokens false ex uid = pure tt
  invalidate_tokens true ex uid = do
    write env ex (on_accounts (delete_access_tokens_of uid))
    write env ex (on_accounts (delete_refresh_tokens_of uid))

  unfoldable pub authenticate_user : Executor → User → Bool → M LoginResult
  authenticate_user ex user invalidate = do
    invalidate_tokens invalidate ex user.id
    issued ← now env
    access ←
        write env ex
          (on_accounts (insert_access_token (issued + env.config.access_token_validity) user.id))
    refresh ← write env ex (on_accounts (insert_refresh_token user.id))
    seen ← now env
    write env ex
        (on_accounts (update_user user.id λ u. record u { last_authenticated_at = some seen }))
    pure (record {
      user_id = "";
      access_token = access;
      expires_in = env.config.access_token_validity / 1_000_000_000;
      refresh_token = refresh;
      token_type = "bearer";
    })

  -- Every error of the first query becomes ErrUnauthorized.
  unfoldable pub login : String → String → M LoginResult
  login username password = do
    found ←
        map_error (select env pool (user_named (to_username_format env username)))
          (λ _. unauthorized)
    user ← lift (require found unauthorized)
    guard user.is_active user_deactivated
    hash ← lift (require user.password unauthorized)
    matches ← map_error (lift (env.compare_hash password hash)) (λ _. unauthorized)
    guard matches unauthorized
    with_transaction env (authenticate_user tx (local_user_to_dto user none) false)

  -- The transaction of Refresh. A token that is gone already is deleted without an error.
  unfoldable pub exchange : String → User → M LoginResult
  exchange old user = do
    write env tx (on_accounts (delete_refresh_token old))
    authenticate_user tx user false

  unfoldable pub refresh : String → M LoginResult
  refresh token = do
    found ← select env pool (refresh_token_is token)
    old ← lift (require found unauthorized)
    owner ← select env pool (user_with_id old.user_id)
    user ← lift (require owner panic)
    guard user.is_active user_deactivated
    with_transaction env (exchange old.token (local_user_to_dto user none))

  unfoldable pub logout_refresh : Option String → M (Unit {0})
  logout_refresh none = pure tt
  logout_refresh (some token) = write env tx (on_accounts (delete_refresh_token token))

  unfoldable pub logout : String → Option String → M (Unit {0})
  logout access_token refresh_token = with_transaction env (do
    write env tx (on_accounts (delete_access_token access_token))
    logout_refresh refresh_token)

  unfoldable pub get_app_user_profile : String → M AppUserProfile
  get_app_user_profile uid = do
    found ← select env pool (profile_of uid)
    row ← lift (require found not_found)
    pure (local_app_user_profile_to_dto row)
