-- ===== src/Grpc/Ceremonies.antt =====
-- internal/api/grpc/server/auth.go: the ceremonies of internal/service/auth over gRPC. json.Marshal
-- of the options is a parameter; http.NewRequestWithContext does not fail for the method and the path
-- that are given here.
use go_mpc_vault.Prelude.{String}
use go_mpc_vault.Errors.{Result, internal_status}
use go_mpc_vault.Exec.{Env, M, pure, lift, map_error, ◌>>=◌}
use go_mpc_vault.Passkeys.{
  WebAuthn, begin_registration, finish_registration, begin_login, finish_login,
}

-- RegisterVerifyResponse and LoginVerifyResponse
pub record VerifyResponse : Type 0 where
  pub user_id : String
  pub access_token : String

-- `var session webauthn.SessionData`: the session of the challenge is not kept.
abbrev pub no_session : String
no_session = ""

abbrev pub dummy_token : String
dummy_token = "dummy-token"

module _ (env : Env) (lib : WebAuthn) (marshal : String → Result String) where
  unfoldable register_challenge : String → M String
  register_challenge email = do
    (creation, session) ←
        map_error (begin_registration env lib email)
          (internal_status "failed to begin registration")
    map_error (lift (marshal creation)) (internal_status "failed to marshal creation data")

  unfoldable pub register_verify : String → String → M VerifyResponse
  register_verify email credential_json = do
    cred ←
        map_error (finish_registration env lib email no_session credential_json)
          (internal_status "failed to finish registration")
    pure (record { user_id = cred.id; access_token = dummy_token })

  unfoldable login_challenge : String → M String
  login_challenge email = do
    (assertion, session) ←
        map_error (begin_login env lib email) (internal_status "failed to begin login")
    map_error (lift (marshal assertion)) (internal_status "failed to marshal assertion data")

  unfoldable pub login_verify : String → String → M VerifyResponse
  login_verify email assertion_json = do
    cred ←
        map_error (finish_login env lib email no_session assertion_json)
          (internal_status "failed to finish login")
    pure (record { user_id = "user-id"; access_token = dummy_token })
