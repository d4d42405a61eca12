-- ===== src/Handlers/Tokens.antt =====
-- internal/api/handlers/push/put_update_push_token.go
use go_mpc_vault.Prelude.{String, Option, null_text}
use go_mpc_vault.Errors.{Result}
use go_mpc_vault.Exec.{Env, M, pure, lift, ◌>>=◌, ◌>>◌}
use go_mpc_vault.Middleware.{Request}
use go_mpc_vault.PushTokens.{update_push_token}
use go_mpc_vault.Handlers.{current_user}

-- types.PutUpdatePushTokenPayload
record PutUpdatePushTokenPayload : Type 0 where
  pub new_token : Option String
  pub old_token : Option String
  pub provider : Option String

-- putUpdatePushTokenHandler; the user is dereferenced after the body is bound.
unfoldable put_update_push_token : Env → Request → Result PutUpdatePushTokenPayload → M String
put_update_push_token env c bound = do
  body ← lift bound
  user ← current_user c
  update_push_token env (record {
    user = user;
    token = null_text body.new_token;
    provider = null_text body.provider;
    existing_token = body.old_token;
  })
  pure "Success"
