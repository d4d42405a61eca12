-- ===== src/Auth/Calls.antt =====
-- The methods of internal/auth/service.go as calls.
use go_mpc_vault.Prelude.{String, Bool, Option}
use go_mpc_vault.Exec.{Env, M, pure, ◌>>=◌}
use go_mpc_vault.Auth.{User}
use go_mpc_vault.Auth.Session.{login, refresh, logout, get_app_user_profile}
use go_mpc_vault.Auth.Password.{update_password, reset_password, init_password_reset}
use go_mpc_vault.Auth.Registration.{register, complete_register, delete_user_account}

pub data Call : Type 0 where
  logging_in : String → String → Call
  refreshing : String → Call
  logging_out : String → Option String → Call
  reading_profile : String → Call
  updating_password : User → String → Bool → String → Call
  resetting_password : String → String → Call
  starting_reset : String → Call
  registering : String → String → Call
  completing : String → Call
  deleting_account : User → String → Call

-- What a method returns is forgotten, but for its error.
abbrev forget : {A : Type 0} → M A → M (Unit {0})
forget m = m >>= λ _. pure tt

module _ (env : Env) where
  unfoldable pub perform : Call → M (Unit {0})
  perform (logging_in username password) = forget (login env username password)
  perform (refreshing token) = forget (refresh env token)
  perform (logging_out access token) = logout env access token
  perform (reading_profile uid) = forget (get_app_user_profile env uid)
  perform (updating_password user current skip new) =
      forget (update_password env user current skip new)
  perform (resetting_password token new) = forget (reset_password env token new)
  perform (starting_reset username) = forget (init_password_reset env username)
  perform (registering username password) = forget (register env username password)
  perform (completing token) = forget (complete_register env token)
  perform (deleting_account user current) = delete_user_account env user current
