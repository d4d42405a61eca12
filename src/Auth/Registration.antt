-- ===== src/Auth/Registration.antt =====
-- internal/auth/service.go: Register, CompleteRegister, DeleteUserAccount
use go_mpc_vault.Prelude.{
  ◌+◌, String, Bool, true, false, not, ◌||◌, Option, none, some, if◌then◌else◌,
}
use go_mpc_vault.Errors.{
  user_deactivated, not_local_user, unauthorized, invalid_password, user_already_exists,
  token_not_found, panic,
}
use go_mpc_vault.Data.UserTables.{User as UserRow}
use go_mpc_vault.Exec.{
  Env, M, Executor, pool, tx, pure, lift, guard, require, map_error, now, hash_new, select, write,
  with_transaction, ◌>>=◌, ◌>>◌,
}
use go_mpc_vault.Auth.{User, LoginResult, empty_result, local_user_to_dto, to_username_format}
use go_mpc_vault.Auth.Statements.{
  user_named, user_with_id, recent_confirmation_exists, live_confirmation_token, on_accounts,
  insert_user, insert_profile, insert_confirmation_token, update_user, delete_confirmation_token,
  delete_user,
}
use go_mpc_vault.Auth.Session.{authenticate_user}

pub record RegisterResult : Type 0 where
  pub requires_confirmation : Bool
  pub confirmation_token : Option String

module _ (env : Env) where
  unfoldable pub new_confirmation : Executor → String → M (Option String)
  new_confirmation ex uid = do
    time ← now env
    token ← write env ex (
        on_accounts (insert_confirmation_token (time + env.config.confirmation_token_validity) uid))
    pure (some token)

  -- A user with this name is there already.
  unfoldable pub register_again : UserRow → M RegisterResult
  register_again user = do
    guard user.requires_confirmation user_already_exists
    since ← now env
    time ← now env
    sent ←
        select env pool
          (recent_confirmation_exists user.id since env.config.confirmation_token_debounce time)
    token ← if sent then pure none else new_confirmation pool user.id
    pure (record { requires_confirmation = user.requires_confirmation; confirmation_token = token })

  unfoldable pub register_new : String → String → M RegisterResult
  register_new name password = do
    hash ← map_error (hash_new env password) (λ _. invalid_password)
    let unconfirmed = env.config.registration_requires_confirmation
    with_transaction env (do
      time ← now env
      uid ← write env tx (
          on_accounts (
            insert_user name hash time (not unconfirmed) unconfirmed
              env.config.default_user_scopes))
      write env tx (on_accounts (insert_profile uid))
      token ← if unconfirmed then new_confirmation tx uid else pure none
      pure (record { requires_confirmation = unconfirmed; confirmation_token = token }))

  unfoldable pub register_named : String → String → Option UserRow → M RegisterResult
  register_named name password (some user) = register_again user
  register_named name password none = register_new name password

  unfoldable pub register : String → String → M RegisterResult
  register username password = do
    found ← select env pool (user_named (to_username_format env username))
    register_named (to_username_format env username) password found

  -- The user of a confirmation token becomes active, unless that has happened already.
  unfoldable pub activate : UserRow → String → M LoginResult
  activate user token =
      if user.is_active || not user.requires_confirmation then pure empty_result else do
        write env tx (
            on_accounts (
              update_user user.id
                λ u. record u { is_active = true; requires_confirmation = false }))
        write env tx (on_accounts (delete_confirmation_token token))
        authenticate_user env tx
            (local_user_to_dto (record user { is_active = true; requires_confirmation = false })
              none)
            false

  -- The transaction of CompleteRegister; the token and its user are read on the pool, not in it.
  unfoldable pub confirm : String → M LoginResult
  confirm token = do
    time ← now env
    found ← select env pool (live_confirmation_token token time)
    confirmation ← lift (require found token_not_found)
    owner ← select env pool (user_with_id confirmation.user_id)
    user ← lift (require owner panic)
    activate user confirmation.token

  unfoldable pub complete_register : String → M LoginResult
  complete_register token = with_transaction env (confirm token)

  unfoldable pub delete_user_account : User → String → M (Unit {0})
  delete_user_account user current = do
    guard user.is_active user_deactivated
    hash ← lift (require user.password_hash not_local_user)
    matches ← map_error (lift (env.compare_hash current hash)) (λ _. unauthorized)
    guard matches unauthorized
    with_transaction env (write env tx (delete_user user.id))
