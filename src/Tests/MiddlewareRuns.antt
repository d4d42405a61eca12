-- ===== src/Tests/MiddlewareRuns.antt =====
-- The results about the middleware, applied to sample requests.
use go_mpc_vault.Prelude.{String, true, none, [], ◌∷◌, ◌≡◌, ◌≢◌, ◌⊎◌, refl, ◌==◌, if◌then◌else◌}
use go_mpc_vault.Errors.{ok}
use go_mpc_vault.Exec.{
  commit_lost, write, with_transaction, World, pure, raise, lift, guard, map_error, attempt, now,
  select, ◌>>=◌,
}
use go_mpc_vault.Auth.{local_user_to_dto}
use go_mpc_vault.Middleware.{
  Request, authorize, authenticate, validate, validated, check_expiry, admit, check_user,
  check_last_authenticated_at, check_user_scopes, default_token_validator, default_auth_config,
  enrich, extract, fetch, unwrap_scheme, presented,
}
use go_mpc_vault.Middleware.Checks.{Authenticated, authorize_sound}
use go_mpc_vault.Middleware.Revocation.{authorize-logout}
use go_mpc_vault.Auth.Session.{logout, logout_refresh}
use go_mpc_vault.Auth.Statements.{delete_access_token, delete_refresh_token}
use go_mpc_vault.Tests.Samples.{sample_env, sample_world, tables, accounts, user_row}

-- Ann holds an access token, and Bob one, but he is not active.
abbrev pub with_token : World
with_token = record sample_world {
  base = record tables {
    accounts = record accounts {
      access_tokens =
          record { token = "t"; valid_until = 500; user_id = "ann"; created_at = 1; updated_at = 1 }
          ∷ record {
            token = "u";
            valid_until = 500;
            user_id = "bob";
            created_at = 1;
            updated_at = 1;
          }
          ∷ [];
    };
  };
}

abbrev pub request_with : String → Request
request_with value = record {
  header_value = λ key. if key == "Authorization" then value else "";
  form_value = λ key. "";
  query_param = λ key. "";
  user = none;
  access_token = none;
}

abbrev pub ann_request : Request
ann_request =
    enrich (request_with "Bearer t") (record {
      token = "t";
      user = local_user_to_dto (user_row "ann" true) none;
      valid_until = 500;
    })

authorize_sound_example :
    Authenticated sample_env default_auth_config
      (request_with "Bearer t")
      (λ s. true)
      with_token
      ann_request
unfolding authorize authenticate validate validated check_expiry admit check_user
    check_last_authenticated_at check_user_scopes default_token_validator presented extract fetch
    unwrap_scheme enrich local_user_to_dto pure raise lift guard map_error attempt now select ◌>>=◌
authorize_sound_example =
    authorize_sound sample_env default_auth_config (request_with "Bearer t") (λ s. true) with_token
      ann_request refl refl refl

authorize-logout_example :
    ((commit_lost sample_env (logout sample_env "t" none with_token).1 ≡ true)
      × ((logout sample_env "t" none with_token).1.base ≡ with_token.base))
    ⊎ ((authorize sample_env
          (λ s. true)
          default_auth_config
          (request_with "Bearer t")
          (logout sample_env "t" none with_token).1).0
        ≢ ok ann_request)
unfolding logout logout_refresh with_transaction write pure delete_access_token delete_refresh_token
    ◌>>=◌ presented extract fetch unwrap_scheme
authorize-logout_example =
    authorize-logout sample_env "t" none with_token default_auth_config (request_with "Bearer t")
      (λ s. true) ann_request refl refl refl refl refl refl
