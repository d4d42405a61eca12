-- ===== src/Handlers/Accounts.antt =====
-- internal/api/handlers/auth/*.go. The links of the mails, which net/url builds from the
-- configuration, are parameters.
use go_mpc_vault.Prelude.{
  ℕ, ◌/◌, String, Bool, false, not, Option, none, some, List, null_text, leb, if◌then◌else◌,
}
use Prim.Native.String.{len}
use go_mpc_vault.Errors.{Result, ok, err, not_found, unauthorized, panic}
use go_mpc_vault.Exec.{Env, M, pure, raise, lift, require, map_error, attempt, ◌>>=◌, ◌>>◌}
use go_mpc_vault.Auth.{User, AppUserProfile, LoginResult, to_username_format, last_updated_at}
use go_mpc_vault.Auth.Session.{login, refresh, logout, get_app_user_profile}
use go_mpc_vault.Auth.Password.{update_password, reset_password, init_password_reset}
use go_mpc_vault.Auth.Registration.{
  RegisterResult, register, complete_register, delete_user_account,
}
use go_mpc_vault.Middleware.{Request}
use go_mpc_vault.Mailer.{Mailer, send_password_reset, send_account_confirmation}
use go_mpc_vault.Handlers.{current_user}

-- types.PostLoginResponse
record PostLoginResponse : Type 0 where
  pub access_token : String
  pub refresh_token : String
  pub expires_in : ℕ
  pub token_type : String

-- types.GetUserInfoResponse
pub record GetUserInfoResponse : Type 0 where
  pub sub : String
  pub updated_at : ℕ
  pub email : String
  pub scopes : List String

-- What the server of the handlers holds besides the services.
pub record Server : Type 0 where
  pub mailer : Mailer
  pub reset_link : String → Result String
  pub confirmation_link : String → Result String

-- types.PostLoginPayload and types.PostRegisterPayload
record Credentials : Type 0 where
  pub username : String
  pub password : Option String

-- 200 with a session, or 202 that asks for the confirmation
data RegisterAnswer : Type 0 where
  session : PostLoginResponse → RegisterAnswer
  accepted : Bool → RegisterAnswer

-- LoginResult.ToTypes
unfoldable login_to_types : LoginResult → PostLoginResponse
login_to_types l = record {
  access_token = l.access_token;
  refresh_token = l.refresh_token;
  expires_in = l.expires_in;
  token_type = l.token_type;
}

-- User.ToTypes; `Unix` counts seconds.
unfoldable pub user_to_types : User → GetUserInfoResponse
user_to_types u = record {
  sub = u.id;
  updated_at = last_updated_at u / 1_000_000_000;
  email = null_text u.username;
  scopes = u.scopes;
}

-- A profile that is not found leaves the user without one.
abbrev with_profile : User → Result AppUserProfile → M User
with_profile user (ok p) = pure (record user { profile = some p })
with_profile user (err not_found) = pure (record user { profile = none })
with_profile user (err e) = raise e

module _ (env : Env) where
  -- postLoginHandler
  unfoldable post_login : Result Credentials → M PostLoginResponse
  post_login bound = do
    body ← lift bound
    result ← login env body.username (null_text body.password)
    pure (login_to_types result)

  -- postRefreshHandler
  unfoldable post_refresh : Result String → M PostLoginResponse
  post_refresh bound = do
    token ← lift bound
    result ← refresh env token
    pure (login_to_types result)

  -- postLogoutHandler: an empty refresh token is none; the access token is dereferenced.
  unfoldable post_logout : Request → Result String → M (Unit {0})
  post_logout c bound = do
    token ← lift bound
    access ← lift (require c.access_token panic)
    logout env access (if not (leb (len token) 0) then some token else none)

  -- postChangePasswordHandler
  unfoldable post_change_password :
      Request → Result (Option String × Option String) → M PostLoginResponse
  post_change_password c bound = do
    (current, new_password) ← lift bound
    user ← current_user c
    result ← update_password env user (null_text current) false (null_text new_password)
    pure (login_to_types result)

  -- getUserInfoHandler
  unfoldable get_user_info : Request → M GetUserInfoResponse
  get_user_info c = do
    user ← current_user c
    profile ← attempt (get_app_user_profile env user.id)
    found ← with_profile user profile
    pure (user_to_types found)

  -- postForgotPasswordCompleteHandler
  unfoldable post_forgot_password_complete : Result (String × Option String) → M PostLoginResponse
  post_forgot_password_complete bound = do
    (token, password) ← lift bound
    result ← reset_password env token (null_text password)
    pure (login_to_types result)

  -- postCompleteRegisterHandler: every error of the service becomes ErrUnauthorized.
  unfoldable post_complete_register : Result String → M PostLoginResponse
  post_complete_register bound = do
    token ← lift bound
    result ← map_error (complete_register env token) (λ _. unauthorized)
    pure (login_to_types result)

  -- deleteUserAccountHandler; the user is dereferenced after the body is bound.
  unfoldable delete_account : Request → Result (Option String) → M (Unit {0})
  delete_account c bound = do
    current ← lift bound
    user ← current_user c
    delete_user_account env user (null_text current)

  module _ (s : Server) where
    unfoldable pub mail_reset : String → Option String → M (Unit {0})
    mail_reset username none = pure tt
    mail_reset username (some token) = do
      link ← lift (s.reset_link token)
      send_password_reset env s.mailer (to_username_format env username) link

    -- postForgotPasswordHandler
    unfoldable pub post_forgot_password : Result String → M (Unit {0})
    post_forgot_password bound = do
      username ← lift bound
      token ← init_password_reset env username
      mail_reset username token

    unfoldable mail_confirmation : String → Option String → M (Unit {0})
    mail_confirmation username none = pure tt
    mail_confirmation username (some token) = do
      link ← lift (s.confirmation_link token)
      send_account_confirmation env s.mailer (to_username_format env username) link

    -- What follows the registration: a session, or a mail that asks for the confirmation.
    unfoldable answer_registration : Credentials → RegisterResult → M RegisterAnswer
    answer_registration body result =
        if not result.requires_confirmation
        then (do
          l ← login env body.username (null_text body.password)
          pure (session (login_to_types l)))
        else (do
          mail_confirmation body.username result.confirmation_token
          pure (accepted result.requires_confirmation))

    -- postRegisterHandler
    unfoldable post_register : Result Credentials → M RegisterAnswer
    post_register bound = do
      body ← lift bound
      result ← register env body.username (null_text body.password)
      answer_registration body result
