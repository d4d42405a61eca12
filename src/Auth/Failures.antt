-- ===== src/Auth/Failures.antt =====
-- The methods of internal/auth/service.go when they return an error: what is committed by then.
use go_mpc_vault.Prelude.{String, Bool, true, false, Option, none, some}
use go_mpc_vault.Exec.{Env, pool, tx}
use go_mpc_vault.Exec.Atomic.{
  Quiet, Atomic, Atomic-Quiet, Atomic-bind-pure, quiet_rules, atomic_rules,
}
use go_mpc_vault.Data.UserTables.{User as UserRow, PasswordResetToken}
use go_mpc_vault.Auth.{User}
use go_mpc_vault.Auth.Session.{
  invalidate_tokens, authenticate_user, login, exchange, refresh, logout_refresh, logout,
  get_app_user_profile,
}
use go_mpc_vault.Auth.Password.{
  verify_current, store_password, update_password, reset_password, debounced, reuse_or_insert,
  issue_reset_token, start_reset, start_reset_of, init_password_reset,
}
use go_mpc_vault.Auth.Registration.{
  new_confirmation, register_again, register_new, register_named, register, activate, confirm,
  complete_register, delete_user_account,
}
use go_mpc_vault.Auth.Calls.{
  Call, logging_in, refreshing, logging_out, reading_profile, updating_password, resetting_password,
  starting_reset, registering, completing, deleting_account, perform,
}

module _ (env : Env) where
  invalidate_tokens-Quiet : (b : Bool) (uid : String) → Quiet (invalidate_tokens env b tx uid)
  unfolding invalidate_tokens
  invalidate_tokens-Quiet false uid = search (quiet_rules) depth 20
  invalidate_tokens-Quiet true uid = search (quiet_rules) depth 20

  pub authenticate_user-Quiet : (user : User) (b : Bool) → Quiet (authenticate_user env tx user b)
  unfolding authenticate_user
  authenticate_user-Quiet user b = search (quiet_rules, invalidate_tokens-Quiet) depth 20

  login-Atomic : (username password : String) → Atomic (login env username password)
  unfolding login
  login-Atomic username password = search (atomic_rules, authenticate_user-Quiet) depth 20

  pub exchange-Quiet : (old : String) (user : User) → Quiet (exchange env old user)
  unfolding exchange
  exchange-Quiet old user = search (quiet_rules, authenticate_user-Quiet) depth 20

  refresh-Atomic : (token : String) → Atomic (refresh env token)
  unfolding refresh
  refresh-Atomic token = search (atomic_rules, exchange-Quiet) depth 20

  logout_refresh-Quiet : (token : Option String) → Quiet (logout_refresh env token)
  unfolding logout_refresh
  logout_refresh-Quiet none = search (quiet_rules) depth 20
  logout_refresh-Quiet (some token) = search (quiet_rules) depth 20

  logout-Atomic : (access : String) (token : Option String) → Atomic (logout env access token)
  unfolding logout
  logout-Atomic access token = search (atomic_rules, logout_refresh-Quiet) depth 20

  get_app_user_profile-Quiet : (uid : String) → Quiet (get_app_user_profile env uid)
  unfolding get_app_user_profile
  get_app_user_profile-Quiet uid = search (quiet_rules) depth 20

  verify_current-Quiet :
      (skip : Bool) (current hash : String) → Quiet (verify_current env skip current hash)
  unfolding verify_current
  verify_current-Quiet true current hash = search (quiet_rules) depth 20
  verify_current-Quiet false current hash = search (quiet_rules) depth 20

  pub store_password-Quiet : (user : User) (hash : String) → Quiet (store_password env user hash)
  unfolding store_password
  store_password-Quiet user hash = search (quiet_rules, authenticate_user-Quiet) depth 20

  update_password-Atomic :
      (user : User) (current : String) (skip : Bool) (new : String)
      → Atomic (update_password env user current skip new)
  unfolding update_password
  update_password-Atomic user current skip new =
      search (atomic_rules, verify_current-Quiet, store_password-Quiet) depth 20

  reset_password-Atomic : (token new : String) → Atomic (reset_password env token new)
  unfolding reset_password
  reset_password-Atomic token new = search (atomic_rules, update_password-Atomic) depth 20

  debounced-Quiet : (uid : String) → Quiet (debounced env uid)
  unfolding debounced
  debounced-Quiet uid = search (quiet_rules) depth 20

  reuse_or_insert-Quiet :
      (uid : String) (found : Option PasswordResetToken) → Quiet (reuse_or_insert env uid found)
  unfolding reuse_or_insert
  reuse_or_insert-Quiet uid none = search (quiet_rules) depth 20
  reuse_or_insert-Quiet uid (some token) = search (quiet_rules) depth 20

  issue_reset_token-Atomic : (uid : String) → Atomic (issue_reset_token env uid)
  unfolding issue_reset_token
  issue_reset_token-Atomic uid = search (atomic_rules, reuse_or_insert-Quiet) depth 20

  start_reset-Atomic : (user : UserRow) → Atomic (start_reset env user)
  unfolding start_reset
  start_reset-Atomic user =
      search (atomic_rules, debounced-Quiet, issue_reset_token-Atomic, Atomic-Quiet) depth 20

  start_reset_of-Atomic : (user : Option UserRow) → Atomic (start_reset_of env user)
  unfolding start_reset_of
  start_reset_of-Atomic none = search (atomic_rules, Atomic-Quiet) depth 20
  start_reset_of-Atomic (some user) = start_reset-Atomic user

  init_password_reset-Atomic : (username : String) → Atomic (init_password_reset env username)
  unfolding init_password_reset
  init_password_reset-Atomic username = search (atomic_rules, start_reset_of-Atomic) depth 20

  new_confirmation-Quiet : (uid : String) → Quiet (new_confirmation env tx uid)
  unfolding new_confirmation
  new_confirmation-Quiet uid = search (quiet_rules) depth 20

  new_confirmation-Atomic : (uid : String) → Atomic (new_confirmation env pool uid)
  unfolding new_confirmation
  new_confirmation-Atomic uid = search (atomic_rules, Atomic-bind-pure) depth 20

  register_again-Atomic : (user : UserRow) → Atomic (register_again env user)
  unfolding register_again
  register_again-Atomic user =
      search (atomic_rules, Atomic-Quiet, Atomic-bind-pure, new_confirmation-Atomic) depth 20

  register_new-Atomic : (name password : String) → Atomic (register_new env name password)
  unfolding register_new
  register_new-Atomic name password = search (atomic_rules, new_confirmation-Quiet) depth 20

  register_named-Atomic :
      (name password : String) (found : Option UserRow)
      → Atomic (register_named env name password found)
  unfolding register_named
  register_named-Atomic name password none = register_new-Atomic name password
  register_named-Atomic name password (some user) = register_again-Atomic user

  register-Atomic : (username password : String) → Atomic (register env username password)
  unfolding register
  register-Atomic username password = search (atomic_rules, register_named-Atomic) depth 20

  activate-Quiet : (user : UserRow) (token : String) → Quiet (activate env user token)
  unfolding activate
  activate-Quiet user token = search (quiet_rules, authenticate_user-Quiet) depth 20

  pub confirm-Quiet : (token : String) → Quiet (confirm env token)
  unfolding confirm
  confirm-Quiet token = search (quiet_rules, activate-Quiet) depth 20

  complete_register-Atomic : (token : String) → Atomic (complete_register env token)
  unfolding complete_register
  complete_register-Atomic token = search (atomic_rules, confirm-Quiet) depth 20

  delete_user_account-Atomic :
      (user : User) (current : String) → Atomic (delete_user_account env user current)
  unfolding delete_user_account
  delete_user_account-Atomic user current = search (atomic_rules) depth 20

  -- A call that fails has changed nothing that is committed, whatever failed in it.
  pub perform-Atomic : (c : Call) → Atomic (perform env c)
  unfolding perform
  perform-Atomic (logging_in username password) =
      Atomic-bind-pure _ _ (login-Atomic username password)
  perform-Atomic (refreshing token) = Atomic-bind-pure _ _ (refresh-Atomic token)
  perform-Atomic (logging_out access token) = logout-Atomic access token
  perform-Atomic (reading_profile uid) =
      Atomic-bind-pure _ _ (Atomic-Quiet _ (get_app_user_profile-Quiet uid))
  perform-Atomic (updating_password user current skip new) =
      Atomic-bind-pure _ _ (update_password-Atomic user current skip new)
  perform-Atomic (resetting_password token new) =
      Atomic-bind-pure _ _ (reset_password-Atomic token new)
  perform-Atomic (starting_reset username) =
      Atomic-bind-pure _ _ (init_password_reset-Atomic username)
  perform-Atomic (registering username password) =
      Atomic-bind-pure _ _ (register-Atomic username password)
  perform-Atomic (completing token) = Atomic-bind-pure _ _ (complete_register-Atomic token)
  perform-Atomic (deleting_account user current) = delete_user_account-Atomic user current
