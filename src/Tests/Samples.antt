-- ===== src/Tests/Samples.antt =====
-- A server, a clock and tables to run the services on. Answer number `n` is the time `100 + n` and
-- the identifier "i" for each answer before it.
use Prim.Native.String.{◌++◌}
use Prim.Native.String.{len}
use go_mpc_vault.Prelude.{
  ℕ, zero, suc, ◌+◌, String, Bool, true, false, none, some, [], ◌∷◌, ◌==◌, ltb, not,
}
use go_mpc_vault.Errors.{ok}
use go_mpc_vault.Data.{Database}
use go_mpc_vault.Data.UserTables.{
  User, RefreshToken, PasswordResetToken, ConfirmationToken, PushToken, Accounts,
}
use go_mpc_vault.Data.VaultTables.{Custody, Chain, Vault, Wallet, SigningRequest, Approval}
use go_mpc_vault.Mpc.{ApprovalParams}
use go_mpc_vault.Exec.{Env, World}

abbrev numeral : ℕ → String
numeral zero = "i"
numeral (suc n) = "i" ++ numeral n

abbrev pub params_of : String → ApprovalParams
params_of uid = record {
  user_id = uid;
  credential_id = [];
  signature = 7 ∷ [];
  authenticator_data = [];
  client_data_json = [];
}

abbrev pub sample_env : Env
sample_env = record {
  config = record {
    access_token_validity = 50;
    password_reset_token_validity = 50;
    password_reset_token_debounce = 5;
    password_reset_token_reuse = 5;
    default_user_scopes = "app" ∷ [];
    last_authenticated_at_threshold = 100;
    registration_requires_confirmation = true;
    confirmation_token_validity = 50;
    confirmation_token_debounce = 5;
  };
  clock = λ n. 100 + n;
  wall = λ n. 100 + n;
  uuid = numeral;
  is_uuid = λ s. not (ltb (len s) 32);
  outage = λ n. false;
  hash_password = λ n password. ok ("#" ++ password);
  compare_hash = λ password hash. ok (("#" ++ password) == hash);
  to_lower = λ s. s;
  trim_space = λ s. s;
  threshold_sign = λ n r. ok "signature";
  create_root_key = λ n r. ok "0123456789012345678901234567890123456789";
  marshal = λ p. p.user_id;
  unmarshal = params_of;
  base64_url = λ b. "";
}

abbrev pub user_row : String → Bool → User
user_row uid active = record {
  id = uid;
  username = some uid;
  password = some "#secret";
  is_active = active;
  scopes = "app" ∷ [];
  last_authenticated_at = some 90;
  created_at = 1;
  updated_at = 1;
  requires_confirmation = true;
}

abbrev refresh_row : RefreshToken
refresh_row = record { token = "refresh"; user_id = "ann"; created_at = 1; updated_at = 1 }

abbrev reset_row : PasswordResetToken
reset_row = record {
  token = "reset";
  valid_until = 500;
  user_id = "ann";
  created_at = 1;
  updated_at = 1;
}

abbrev confirmation_row : ConfirmationToken
confirmation_row = record {
  token = "confirm";
  valid_until = 500;
  user_id = "bob";
  created_at = 1;
  updated_at = 1;
}

abbrev push_row : PushToken
push_row = record {
  id = "p";
  token = "phone";
  provider = "fcm";
  user_id = "ann";
  created_at = 1;
  updated_at = 1;
}

abbrev pub accounts : Accounts
accounts = record {
  users = user_row "ann" true ∷ user_row "bob" false ∷ [];
  profiles = [];
  access_tokens = [];
  refresh_tokens = refresh_row ∷ [];
  reset_tokens = reset_row ∷ [];
  confirmation_tokens = confirmation_row ∷ [];
  push_tokens = push_row ∷ [];
  credentials = [];
}

abbrev ethereum : Chain
ethereum = record {
  id = "eth";
  name = "Ethereum";
  chain_type = "evm";
  algorithm = "ECDSA";
  curve = "secp256k1";
}

abbrev vault_row : Vault
vault_row = record {
  id = "vault";
  organization_id = some "org";
  name = "cold";
  threshold = 2;
  created_at = none;
  updated_at = none;
}

abbrev wallet_row : Wallet
wallet_row = record {
  id = "wallet";
  vault_id = some "vault";
  chain_id = some "eth";
  key_id = "wallet";
  address = "0x";
  derive_path = "m";
  derive_index = 0;
  created_at = none;
  updated_at = none;
}

abbrev pub request_row : String → String → SigningRequest
request_row rid status = record {
  id = rid;
  vault_id = none;
  wallet_id = some "wallet";
  initiator_id = some "bob";
  tx_data = "00";
  tx_hash = none;
  amount = none;
  to_address = none;
  note = none;
  status = some status;
  mpc_session_id = none;
  signature = none;
  created_at = some 1;
  updated_at = some 1;
}

-- Bob has approved the open request.
abbrev approval_by_bob : Approval
approval_by_bob = record {
  id = "a";
  request_id = some "open";
  user_id = some "bob";
  action = "approve";
  comment = some "bob";
  created_at = none;
  updated_at = none;
}

abbrev pub custody : Custody
custody = record {
  organizations =
      record { id = "org"; name = "o"; owner_id = "bob"; created_at = none; updated_at = none }
      ∷ [];
  members =
      record { organization_id = "org"; user_id = "bob"; role = "admin"; created_at = none } ∷ [];
  chains = ethereum ∷ [];
  vaults = vault_row ∷ [];
  wallets = wallet_row ∷ [];
  requests = request_row "open" "pending" ∷ request_row "closed" "rejected" ∷ [];
  approvals = approval_by_bob ∷ [];
  address_book = [];
  audit_logs = [];
}

abbrev pub tables : Database
tables = record { accounts = accounts; custody = custody }

abbrev pub sample_world : World
sample_world = record { base = tables; view = tables; asked = 0; calls = [] }
