-- ===== src/Tests/HandlerRuns.antt =====
-- The HTTP handlers and the gRPC servers on the sample tables.
use go_mpc_vault.Prelude.{
  All, any, rows_where, ◌==◌, arith, List, String, true, none, some, [], ◌∷◌, ◌≡◌, ◌≢◌, ◌⊎◌, refl,
}
use go_mpc_vault.Organizations.{list_user_organizations, member_organizations}
use go_mpc_vault.Vaults.{
  create_vault, insert_vault, create_wallet, create_key, derive_address, store_wallet,
  insert_wallet,
}
use go_mpc_vault.Prelude.Tables.{rows_where-All}
use go_mpc_vault.Data.{Database}
use go_mpc_vault.Data.VaultTables.{Organization}
use go_mpc_vault.Handlers.Ownership.{Founded, post_create_vault_ok}
use go_mpc_vault.Errors.{Result, ok}
use go_mpc_vault.Exec.{
  World, pure, raise, lift, guard, attempt, write, map_error, select, new_uuid, send_create, ◌>>=◌,
}
use go_mpc_vault.Auth.{local_user_to_dto}
use go_mpc_vault.Middleware.{enrich, auth_with_config, default_auth_config}
use go_mpc_vault.Signing.Listing.{list_requests, by_time, insert_by_time, skip, take}
use go_mpc_vault.Handlers.{signed_in}
use go_mpc_vault.Handlers.Signing.{
  pos, ApprovePayload, ListSigningRequestsParams, ListSigningRequestsResponse, known_status,
  validate_params, get_list_signing_requests, to_int32, post_approve_signing_request,
  map_signing_request,
}
use go_mpc_vault.Handlers.Vaults.{
  CreateVaultPayload, choose_organization, create_wallets, post_create_vault, post_create_wallet,
}
use go_mpc_vault.Handlers.Accounts.{Server, post_forgot_password}
use go_mpc_vault.Handlers.Approving.{Authorized, approve_route_signs}
use go_mpc_vault.Handlers.Guards.{
  MayAdd, post_create_wallet_guarded, Listed, get_list_signing_requests_ok,
}
use go_mpc_vault.Handlers.Mails.{Mailed, post_forgot_password_mails}
use go_mpc_vault.Grpc.{
  CreateSigningRequest, ApproveSigningRequest, CreateSigningResponse, create_signing_request,
  approve_signing_request,
}
use go_mpc_vault.Grpc.Refused.{signing_server_refused}
use go_mpc_vault.Tests.MiddlewareRuns.{with_token, request_with, ann_request}
use go_mpc_vault.Tests.Samples.{sample_env, sample_world, tables, custody, request_row}

abbrev approval : ApprovePayload
approval = record {
  action = some "approve";
  credential_id = [];
  signature = [];
  authenticator_data = [];
  client_data_json = [];
}

approve_route_signs_example :
    ((auth_with_config sample_env
        (λ s. true)
        default_auth_config
        (λ c'. post_approve_signing_request sample_env c' "open" (ok approval))
        (request_with "Bearer t")
        with_token).1.calls
      ≡ [])
    ⊎ Authorized sample_env (λ s. true) "open" (request_with "Bearer t") (ok approval) with_token
approve_route_signs_example =
    approve_route_signs sample_env (λ s. true) (request_with "Bearer t") "open" (ok approval)
      with_token refl

post_create_wallet_guarded_example :
    (((post_create_wallet sample_env ann_request "vault" (ok (some "eth")) with_token).1.base
        ≡ with_token.base)
      × ((post_create_wallet sample_env ann_request "vault" (ok (some "eth")) with_token).1.calls
          ≡ []))
    ⊎ MayAdd ann_request "vault" with_token.base
post_create_wallet_guarded_example =
    post_create_wallet_guarded sample_env ann_request "vault" (ok (some "eth")) with_token

abbrev pending_page : ListSigningRequestsParams
pending_page = record { status = "pending"; vault_id = ""; page = pos 1; limit = pos 10 }

-- A request of the sample vault, and Ann among the members of its organization.
abbrev shared_world : World
shared_world = record with_token {
  base = record tables {
    custody = record custody {
      requests = record (request_row "open" "pending") { vault_id = some "vault" } ∷ [];
      members =
          record { organization_id = "org"; user_id = "ann"; role = "admin"; created_at = none }
          ∷ [];
    };
  };
}

abbrev one_listed : ListSigningRequestsResponse
one_listed = record {
  requests =
      record {
        id = "open";
        vault_id = "vault";
        wallet_id = "wallet";
        to_address = "";
        status = "pending";
        created_at = "then";
      }
      ∷ [];
  total = pos 1;
}

get_list_signing_requests_ok_example :
    Listed sample_env (λ n. "then") ann_request pending_page one_listed shared_world
unfolding get_list_signing_requests validate_params known_status signed_in list_requests by_time
    insert_by_time skip take to_int32 map_signing_request map_error guard lift raise pure select
    local_user_to_dto enrich ◌>>=◌
get_list_signing_requests_ok_example =
    get_list_signing_requests_ok sample_env (λ n. "then") ann_request pending_page shared_world
      one_listed refl

abbrev sample_server : Server
sample_server = record {
  mailer = record {
    default_sender = "vault";
    send = true;
    templates = λ name. some (λ link. ok link);
    transport = λ n m. ok tt;
  };
  reset_link = λ token. ok token;
  confirmation_link = λ token. ok token;
}

post_forgot_password_mails_example :
    ((post_forgot_password sample_env sample_server (ok "ann") sample_world).1.calls ≡ [])
    ⊎ Mailed sample_env sample_server "ann" sample_world
        (post_forgot_password sample_env sample_server (ok "ann") sample_world).1
post_forgot_password_mails_example =
    post_forgot_password_mails sample_env sample_server "ann" sample_world

abbrev any_request : CreateSigningRequest
any_request = record { wallet_id = "wallet"; tx_data = "00"; note = "" }

abbrev any_approval : ApproveSigningRequest
any_approval = record {
  request_id = "open";
  action = "approve";
  comment = "";
  credential_id = [];
  signature = [];
  authenticator_data = [];
  client_data_json = [];
}

abbrev any_answer : CreateSigningResponse
any_answer = record { request_id = "r"; status = "pending" }

signing_server_refused_example :
    ((create_signing_request sample_env any_request sample_world).0 ≢ ok any_answer)
    × ((create_signing_request sample_env any_request sample_world).1.base ≡ tables)
    × ((approve_signing_request sample_env any_approval sample_world).0 ≢ ok "approved")
    × ((approve_signing_request sample_env any_approval sample_world).1.base ≡ tables)
    × ((approve_signing_request sample_env any_approval sample_world).1.calls ≡ [])
signing_server_refused_example =
    signing_server_refused sample_env any_request any_approval sample_world any_answer "approved"
      refl

-- What an IN clause finds.
abbrev among : List String → Database → Result (List Organization)
among oids db = ok (rows_where (λ o. any (λ k. k == o.id) oids) db.custody.organizations)

among-All :
    (oids : List String) (db : Database) (orgs : List Organization)
    → among oids db ≡ ok orgs
    → All (λ o. any (λ k. k == o.id) oids ≡ true) orgs
among-All oids db orgs e =
    let found : orgs ≡ rows_where (λ o. any (λ k. k == o.id) oids) db.custody.organizations =
      ground arith in
    rw found (rows_where-All (λ o. any (λ k. k == o.id) oids) db.custody.organizations)

abbrev new_vault : Result CreateVaultPayload
new_vault = ok (record { name = some "v"; chains = "eth" ∷ [] })

post_create_vault_ok_example :
    Founded sample_env among among-All ann_request
      (record { vault_id = "iiii"; status = "active" })
      shared_world
      (post_create_vault sample_env among ann_request new_vault shared_world).1
unfolding post_create_vault create_wallets list_user_organizations member_organizations create_vault
    insert_vault choose_organization enrich local_user_to_dto signed_in map_error select write
    attempt lift pure create_wallet new_uuid create_key send_create derive_address store_wallet
    insert_wallet ◌>>=◌
post_create_vault_ok_example =
    post_create_vault_ok sample_env among among-All ann_request new_vault shared_world
      (record { vault_id = "iiii"; status = "active" }) refl
