-- ===== src/Tests/ReplyRuns.antt =====
-- What clients are told of errors, and the token of a passkey, on samples.
use go_mpc_vault.Prelude.{String, true, false, none, some, ◌≡◌, ◌≢◌, ◌⊎◌, ◌==◌, not, inr, refl}
use go_mpc_vault.Errors.{Error, ok, no_rows, wrapped, conflict_push_token}
use go_mpc_vault.Exec.{pure, lift, map_error, attempt, select, write, ◌>>=◌}
use go_mpc_vault.Router.{
  Cause, problem, generic, status_text, reply, find_http, find_validation, find_echo, within, echo,
  to_cause, handle_error,
}
use go_mpc_vault.Router.Concealed.{body_title, is_known, reply_conceals}
use go_mpc_vault.Middleware.{
  default_auth_config, authorize, presented, extract, fetch, unwrap_scheme,
}
use go_mpc_vault.Passkeys.{get_user, finish_login, find_credential, store_count, update_credential}
use go_mpc_vault.Grpc.Ceremonies.{login_verify}
use go_mpc_vault.Grpc.Sessions.{verified_token_refused}
use go_mpc_vault.Tests.Samples.{sample_env, sample_world}
use go_mpc_vault.Tests.MiddlewareRuns.{request_with, ann_request}
use go_mpc_vault.Tests.PasskeyRuns.{accepting}

abbrev said : Error → String
said e = "sql: no rows in result set"

abbrev conflict : Cause
conflict = to_cause said conflict_push_token

-- An approval of an unknown request is answered as an internal error.
unknown_request :
    reply true "text" (to_cause said (wrapped "request not found" no_rows))
    ≡ (500, problem (generic 500 status_text))
unfolding reply to_cause find_http find_validation find_echo
unknown_request = refl

-- A HEAD request is answered without a body, here for a message that is no string.
no_body :
    handle_error true false "HEAD" "text" (echo (record { code = 404; message = none }))
    ≡ some (404, none)
unfolding handle_error reply find_http find_validation find_echo
no_body = refl

reply_conceals_example :
    (reply true "a" (within "failed" conflict) ≡ reply true "b" conflict)
    × (((reply true "a" conflict).0 ≢ 500) ⊎ (body_title (reply true "a" conflict).1 ≡ status_text))
    × ((is_known conflict ≡ true)
        ⊎ (reply true "a" conflict ≡ (500, problem (generic 500 status_text))))
reply_conceals_example = reply_conceals conflict "failed" "a" "b"

verified_token_refused_example :
    (authorize sample_env
      (λ s. not (s == "dummy-token"))
      default_auth_config
      (request_with "Bearer dummy-token")
      sample_world).0
    ≢ ok ann_request
unfolding login_verify get_user finish_login find_credential store_count update_credential presented
    extract fetch unwrap_scheme map_error lift attempt select write pure ◌>>=◌
verified_token_refused_example =
    verified_token_refused sample_env accepting (λ s. ok s) "ann" "body" sample_world sample_world
      (record { user_id = "user-id"; access_token = "dummy-token" }) (λ s. not (s == "dummy-token"))
      (request_with "Bearer dummy-token") ann_request refl (inr refl) refl refl
