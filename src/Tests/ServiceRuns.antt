-- ===== src/Tests/ServiceRuns.antt =====
-- The results about wallets, organizations, push tokens and listings, applied to the sample tables.
use go_mpc_vault.Prelude.{
  ℕ, String, true, false, none, some, List, [], ◌∷◌, ◌≡◌, refl, any, delete_where,
}
use go_mpc_vault.Errors.{ok, is_no_rows}
use go_mpc_vault.Data.VaultTables.{SigningRequest, Wallet, Chain, OrganizationMember}
use go_mpc_vault.Mpc.{creates}
use go_mpc_vault.Exec.{
  World, pure, raise, lift, map_error, new_uuid, send_create, select, write, attempt, ◌>>=◌,
}
use go_mpc_vault.Signing.Calls.{creating, serve_all, serve}
use go_mpc_vault.Signing.Listing.{list_requests, by_time, insert_by_time, skip, take}
use go_mpc_vault.Signing.Pages.{IsPage, list_requests_correct}
use go_mpc_vault.Signing.Unlisted.{list_after_calls}
use go_mpc_vault.Signing.{create_request, insert_request}
use go_mpc_vault.Vaults.{
  create_wallet, create_key, store_wallet, insert_wallet, derive_address, chain_is, same_slot,
}
use go_mpc_vault.Vaults.Wallets.{create_wallet_ok, key_request}
use go_mpc_vault.PushTokens.{UpdatePushTokenRequest}
use go_mpc_vault.Organizations.{
  has_organization, membership, is_membership, add_member, insert_member, remove_member,
  remove_found, find_member, delete_member,
}
use go_mpc_vault.Organizations.Members.{role_of, add_member_ok, remove_member_ok}
use go_mpc_vault.Tests.Samples.{sample_env, sample_world, tables, custody, request_row}

-- A request that names its vault, as none that the service makes does.
abbrev filed : SigningRequest
filed = record (request_row "open" "pending") { vault_id = some "vault" }

abbrev with_filed : World
with_filed = record sample_world {
  base = record tables { custody = record custody { requests = filed ∷ [] } };
}

list_requests_correct_example : IsPage "bob" "vault" "pending" 1 10 with_filed.base (filed ∷ []) 1
unfolding list_requests by_time insert_by_time skip take select lift pure ◌>>=◌
list_requests_correct_example =
    list_requests_correct sample_env "bob" "vault" "pending" 1 10 with_filed (filed ∷ []) 1 refl

list_after_calls_example : (◌≡◌ {A = List SigningRequest} [] []) × (◌≡◌ {A = ℕ} 0 0)
unfolding list_requests by_time insert_by_time skip take select lift pure ◌>>=◌ serve_all serve
    create_request map_error new_uuid write insert_request
list_after_calls_example =
    list_after_calls sample_env (creating "wallet" "00" "" "ann" ∷ []) "bob" "" "" 1 10 sample_world
      [] 0 (refl, (refl, tt)) refl

abbrev bare : World
bare = record sample_world { base = record tables { custody = record custody { wallets = [] } } }

abbrev new_wallet : Wallet
new_wallet = record {
  id = "ii";
  vault_id = some "vault";
  chain_id = some "eth";
  key_id = "ii";
  address = "0x0123456789012345678901234567890123456789";
  derive_path = "m/44'/60'/0'/0/0";
  derive_index = 0;
  created_at = some 103;
  updated_at = some 103;
}

create_wallet_ok_example :
    (c : Chain) × (key : String) × (address : String) × (chain_is "eth" bare.base ≡ some c)
    × (sample_env.create_root_key 2 (key_request sample_env c 1) ≡ ok key)
    × (derive_address key c.chain_type ≡ some address)
    × (new_wallet ≡ record {
      id = "ii";
      vault_id = some "vault";
      chain_id = some "eth";
      key_id = "ii";
      address = address;
      derive_path = "m/44'/60'/0'/0/0";
      derive_index = 0;
      created_at = some 103;
      updated_at = some 103;
    })
    × (any (same_slot "vault" "eth" 0) bare.base.custody.wallets ≡ false)
    × ((create_wallet sample_env "vault" "eth" bare).1.calls
        ≡ creates (key_request sample_env c 1) ∷ [])
    × ((create_wallet sample_env "vault" "eth" bare).1.base.custody.wallets ≡ new_wallet ∷ [])
unfolding create_wallet create_key store_wallet insert_wallet derive_address select lift map_error
    new_uuid write send_create ◌>>=◌
create_wallet_ok_example = create_wallet_ok sample_env "vault" "eth" bare new_wallet refl

abbrev push_request : String → String → UpdatePushTokenRequest
push_request token old = record {
  user = record {
    id = "ann";
    username = none;
    password_hash = none;
    is_active = true;
    scopes = [];
    last_authenticated_at = none;
    updated_at = 1;
    profile = none;
  };
  token = token;
  provider = "fcm";
  existing_token = some old;
}

abbrev ann_member : OrganizationMember
ann_member = record {
  organization_id = "org";
  user_id = "ann";
  role = "auditor";
  created_at = some 101;
}

add_member_ok_example :
    (has_organization "org" tables ≡ true)
    × (membership "org" "ann" tables ≡ none)
    × (role_of "org" "ann" (add_member sample_env "org" "ann" "auditor" sample_world).1.base
        ≡ some "auditor")
    × (delete_where
          (is_membership "org" "ann")
          (add_member sample_env "org" "ann" "auditor" sample_world).1.base.custody.members
        ≡ custody.members)
unfolding add_member insert_member select lift map_error write ◌>>=◌
add_member_ok_example = add_member_ok sample_env "org" "ann" "auditor" sample_world ann_member refl

remove_member_ok_example :
    (remove_member sample_env "org" "bob" sample_world).1.base
    ≡ record tables { custody = record custody { members = [] } }
unfolding remove_member remove_found find_member delete_member attempt select lift map_error write
    pure raise is_no_rows ◌>>=◌
remove_member_ok_example = remove_member_ok sample_env "org" "bob" sample_world refl
