-- ===== src/Auth/Password.antt =====
-- internal/auth/service.go: UpdatePassword, ResetPassword, InitPasswordReset
use go_mpc_vault.Prelude.{
  ◌+◌, String, Bool, true, false, not, ◌||◌, is_some, Option, none, some, ltb, if◌then◌else◌,
}
use go_mpc_vault.Errors.{
  user_deactivated, not_local_user, unauthorized, invalid_password, token_not_found, token_expired,
  panic,
}
use go_mpc_vault.Data.UserTables.{User as UserRow, PasswordResetToken}
use go_mpc_vault.Exec.{
  Env, M, pool, tx, pure, lift, guard, require, map_error, now, hash_new, select, write,
  with_transaction, ◌>>=◌, ◌>>◌,
}
use go_mpc_vault.Auth.{User, LoginResult, local_user_to_dto, to_username_format}
use go_mpc_vault.Auth.Statements.{
  user_named, user_with_id, reset_token_is, recent_reset_token, recent_reset_exists, on_accounts,
  insert_reset_token, update_user,
}
use go_mpc_vault.Auth.Session.{authenticate_user}

module _ (env : Env) where
  -- `if !request.SkipCurrentPasswordVerification`
  unfoldable pub verify_current : Bool → String → String → M (Unit {0})
  verify_current true current hash = pure tt
  verify_current false current hash = do
    matches ← lift (env.compare_hash current hash)
    guard matches unauthorized

  -- The transaction of UpdatePassword: all tokens of the user are replaced by a new session.
  unfoldable pub store_password : User → String → M LoginResult
  store_password user hash = do
    write env tx (on_accounts (update_user user.id λ u. record u { password = some hash }))
    authenticate_user env tx (record user { password_hash = some hash }) true

  unfoldable pub update_password : User → String → Bool → String → M LoginResult
  update_password user current skip new_password = do
    guard user.is_active user_deactivated
    old_hash ← lift (require user.password_hash not_local_user)
    verify_current skip current old_hash
    hash ← map_error (hash_new env new_password) (λ _. invalid_password)
    with_transaction env (store_password user hash)

  unfoldable pub reset_password : String → String → M LoginResult
  reset_password reset_token new_password = do
    found ← select env pool (reset_token_is reset_token)
    token ← lift (require found token_not_found)
    owner ← select env pool (user_with_id token.user_id)
    time ← now env
    guard (not (ltb token.valid_until time)) token_expired
    user ← lift (require owner panic)
    update_password (local_user_to_dto user none) "" true new_password

  -- The check that a token was sent a moment ago, if the configuration asks for it.
  unfoldable pub debounced : String → M Bool
  debounced uid =
      if ltb 0 env.config.password_reset_token_debounce
      then (do
        since ← now env
        time ← now env
        select env pool
            (recent_reset_exists uid since env.config.password_reset_token_debounce time))
      else pure false

  unfoldable pub reuse_or_insert : String → Option PasswordResetToken → M (Option String)
  reuse_or_insert uid (some token) = pure (some token.token)
  reuse_or_insert uid none = do
    time ← now env
    token ←
        write env tx
          (on_accounts (insert_reset_token (time + env.config.password_reset_token_validity) uid))
    pure (some token)

  -- The token that a reset mail will carry, or `none` if none is to be sent.
  unfoldable pub issue_reset_token : String → M (Option String)
  issue_reset_token uid = with_transaction env (do
    since ← now env
    time ← now env
    found ← select env tx (recent_reset_token uid since env.config.password_reset_token_reuse time)
    reuse_or_insert uid found)

  unfoldable pub start_reset : UserRow → M (Option String)
  start_reset user =
      if not user.is_active || not (is_some user.password)
      then pure none
      else do sent ← debounced user.id; if sent then pure none else issue_reset_token user.id

  unfoldable pub start_reset_of : Option UserRow → M (Option String)
  start_reset_of none = pure none
  start_reset_of (some user) = start_reset user

  unfoldable pub init_password_reset : String → M (Option String)
  init_password_reset username = do
    found ← select env pool (user_named (to_username_format env username))
    start_reset_of found
