-- ===== src/Signing.antt =====
-- The signing service (internal/service/signing/impl.go): requests, approvals and the MPC call.
-- `null.StringFrom` always makes a value that is not NULL, so the rows below hold `some`.
pub mod Threshold
pub mod Outcome
pub mod Decision
pub mod Calls
pub mod Settled
pub mod Votes
pub mod Listing
pub mod Pages
pub mod Selected
pub mod Unlisted
pub mod Steps
pub mod Alone
pub mod Backing
pub mod Growth
pub mod Rules
pub mod Known
pub mod Loading
pub mod Interleaved
use go_mpc_vault.Prelude.{
  ℕ, zero, suc, ◌+◌, ◌-◌, ◌*◌, String, Bool, true, false, not, ◌&&◌, ◌||◌, Option, none, some, List,
  [], ◌∷◌, map, length, rows_where, find, any, update_where, null_eq, null_text, default_to, leb,
  if◌then◌else◌, ◌==◌,
}
use go_mpc_vault.Errors.{Error, Result, ok, err, constraint, no_rows, panic, message, wrapped}
use go_mpc_vault.Data.{Database}
use go_mpc_vault.Data.UserTables.{has_user}
use go_mpc_vault.Data.VaultTables.{Custody, SigningRequest, Approval, Wallet, Vault, Chain}
use go_mpc_vault.Mpc.{ApprovalParams, AuthToken, InfraToken, ThresholdSignRequest}
use go_mpc_vault.Exec.{
  Env, M, Stamp, pool, pure, raise, lift, guard, require, map_error, new_uuid, select, write,
  send_sign, ◌>>=◌, ◌>>◌,
}

abbrev pending : String
pending = "pending"

abbrev pub request_with_id : String → Database → Option SigningRequest
request_with_id rid db = find (λ r. r.id == rid) db.custody.requests

abbrev wallet_with_id : String → Database → Option Wallet
wallet_with_id wid db = find (λ x. x.id == wid) db.custody.wallets

abbrev pub vault_with_id : String → Database → Option Vault
vault_with_id vid db = find (λ v. v.id == vid) db.custody.vaults

abbrev chain_with_id : String → Database → Option Chain
chain_with_id cid db = find (λ c. c.id == cid) db.custody.chains

abbrev by_user : String → String → Approval → Bool
by_user rid uid a = null_eq a.request_id rid && null_eq a.user_id uid

abbrev pub has_approval : String → String → Database → Bool
has_approval rid uid db = any (by_user rid uid) db.custody.approvals

abbrev is_approval_of : String → Approval → Bool
is_approval_of rid a = null_eq a.request_id rid && a.action == "approve"

abbrev pub approvals_of : String → Database → List Approval
approvals_of rid db = rows_where (is_approval_of rid) db.custody.approvals

-- A reference that may be NULL.
abbrev refers : {A : Type 0} → (A → String) → Option String → List A → Bool
refers key none rows = true
refers key (some k) rows = any (λ x. key x == k) rows

abbrev pub user_exists : Option String → Database → Bool
user_exists none db = true
user_exists (some uid) db = has_user db.accounts.users uid

-- INSERT INTO signing_requests
unfoldable pub insert_request :
    SigningRequest → Stamp → Database → Result (SigningRequest × Database)
insert_request r s db =
    if any (λ q. q.id == r.id) db.custody.requests
      || not (refers (λ x. x.id) r.wallet_id db.custody.wallets && user_exists r.initiator_id db)
    then err constraint
    else let row : SigningRequest = record r {
      created_at = some s.wall;
      updated_at = some s.wall;
    } in
      ok (row, record db { custody = record (db.custody) { requests = row ∷ db.custody.requests } })

-- INSERT INTO approvals, with its unique pair of request and user
unfoldable pub insert_approval : Approval → Stamp → Database → Result (Unit {0} × Database)
insert_approval a s db =
    if any (λ b. b.id == a.id) db.custody.approvals
      || (any (by_user (null_text a.request_id) (null_text a.user_id)) db.custody.approvals
          || not (refers (λ x. x.id) a.request_id db.custody.requests && user_exists a.user_id db))
    then err constraint
    else ok (
      tt,
      record db {
        custody = record (db.custody) {
          approvals =
              record a { created_at = some s.wall; updated_at = some s.wall }
              ∷ db.custody.approvals;
        };
      },
    )

-- UPDATE signing_requests with every column of the row that was loaded, but for its key and its
-- time of creation
unfoldable pub update_request : SigningRequest → Stamp → Database → Result (Unit {0} × Database)
update_request r s db = ok (
  tt,
  record db {
    custody = record (db.custody) {
      requests =
          update_where (λ q. q.id == r.id)
            (λ q. record r { id = q.id; created_at = q.created_at; updated_at = some s.wall })
            db.custody.requests;
    };
  },
)

abbrev request_row : String → String → String → String → String → SigningRequest
request_row rid wallet_id tx_data note user_id = record {
  id = rid;
  vault_id = none;
  wallet_id = some wallet_id;
  initiator_id = some user_id;
  tx_data = tx_data;
  tx_hash = none;
  amount = none;
  to_address = none;
  note = some note;
  status = some pending;
  mpc_session_id = none;
  signature = none;
  created_at = none;
  updated_at = none;
}

abbrev rejection_row : String → String → String → Approval
rejection_row aid rid user_id = record {
  id = aid;
  request_id = some rid;
  user_id = some user_id;
  action = "reject";
  comment = none;
  created_at = none;
  updated_at = none;
}

module _ (env : Env) where
  unfoldable pub create_request : String → String → String → String → M SigningRequest
  create_request wallet_id tx_data note user_id = do
    rid ← new_uuid env
    map_error (write env pool (insert_request (request_row rid wallet_id tx_data note user_id)))
        (wrapped "failed to insert signing request")

  -- A relation that the query loads; there is no query for a NULL.
  unfoldable pub load : {A : Type 0} → (String → Database → Option A) → Option String → M (Option A)
  load f none = pure none
  load f (some k) = select env pool (f k)

  abbrev vault_of : Option Wallet → Option String
  vault_of none = none
  vault_of (some x) = x.vault_id

  abbrev chain_of : Option Wallet → Option String
  chain_of none = none
  chain_of (some x) = x.chain_id

  -- The request with its wallet, and the wallet's vault and chain.
  unfoldable pub load_request :
      String → M (SigningRequest × Option Wallet × Option Vault × Option Chain)
  load_request rid = do
    found ← select env pool (request_with_id rid)
    req ← lift (require found no_rows)
    wallet ← load wallet_with_id req.wallet_id
    vault ← load vault_with_id (vault_of wallet)
    chain ← load chain_with_id (chain_of wallet)
    pure (req, wallet, vault, chain)

  -- The loop over the approvals. An unmarshalling error is ignored.
  abbrev auth_tokens : List Approval → List AuthToken
  auth_tokens [] = []
  auth_tokens (a ∷ rest) =
      let tokens = auth_tokens rest in
      elim a.comment [
        | none ↦ tokens
        | some text ↦
            record {
              passkey_signature = (env.unmarshal text).signature;
              authenticator_data = (env.unmarshal text).authenticator_data;
              client_data_json = (env.unmarshal text).client_data_json;
              credential_id = (env.unmarshal text).credential_id;
            }
            ∷ tokens
      ]

  abbrev infra_token : AuthToken → InfraToken
  infra_token t = record {
    passkey_signature = t.passkey_signature;
    authenticator_data = t.authenticator_data;
    client_data_json = t.client_data_json;
    credential_id = env.base64_url t.credential_id;
  }

  -- SigningClient.ThresholdSign
  unfoldable pub threshold_sign : String → String → String → List AuthToken → M String
  threshold_sign key_id message_hex chain_type tokens = send_sign env (record {
    key_id = key_id;
    message_hex = message_hex;
    chain_type = chain_type;
    auth_tokens = map infra_token tokens;
  })

  abbrev chain_type_of : Option Chain → String
  chain_type_of none = "evm"
  chain_type_of (some c) = c.chain_type

  -- The threshold is met: sign, and store the signature.
  unfoldable pub complete : SigningRequest → Wallet → Option Chain → List Approval → M (Unit {0})
  complete req wallet chain approvals = do
    signature ←
        map_error
          (threshold_sign wallet.key_id req.tx_data (chain_type_of chain) (auth_tokens approvals))
          (wrapped "mpc signing failed")
    write env pool
        (update_request (record req { status = some "completed"; signature = some signature }))

  unfoldable pub sign_if_enough :
      SigningRequest → Wallet → Vault → Option Chain → List Approval → M (Unit {0})
  sign_if_enough req wallet vault chain approvals =
      if leb vault.threshold (length approvals)
      then complete req wallet chain approvals
      else pure tt

  -- The approval is stored; `req.R.Wallet` is dereferenced whether or not there is a wallet.
  unfoldable pub check_threshold :
      String → SigningRequest → Option Wallet → Option Vault → Option Chain → M (Unit {0})
  check_threshold rid req wallet vault chain = do
    approvals ← select env pool (approvals_of rid)
    x ← lift (require wallet panic)
    v ← lift (require vault (message "vault not found for wallet"))
    sign_if_enough req x v chain approvals

  abbrev approval_row : String → String → ApprovalParams → Approval
  approval_row aid rid params = record {
    id = aid;
    request_id = some rid;
    user_id = some params.user_id;
    action = "approve";
    comment = some (env.marshal params);
    created_at = none;
    updated_at = none;
  }

  -- The checks on a request that was loaded, and the approval of it.
  unfoldable pub vote : String → ApprovalParams → SigningRequest → M (Unit {0})
  vote rid params req = do
    guard (null_text req.status == pending) (message "request is not pending")
    exists ← select env pool (has_approval rid params.user_id)
    guard (not exists) (message "user already approved")
    aid ← new_uuid env
    write env pool (insert_approval (approval_row aid rid params))

  unfoldable pub approve_request : String → ApprovalParams → M (Unit {0})
  approve_request rid params = do
    (req, wallet, vault, chain) ← map_error (load_request rid) (wrapped "request not found")
    vote rid params req
    check_threshold rid req wallet vault chain

  unfoldable pub reject_request : String → String → M (Unit {0})
  reject_request rid user_id = do
    found ← select env pool (request_with_id rid)
    req ← lift (require found no_rows)
    guard (null_text req.status == pending) (message "request is not pending")
    aid ← new_uuid env
    write env pool (insert_approval (rejection_row aid rid user_id))
    write env pool (update_request (record req { status = some "rejected" }))

  unfoldable get_request : String → M SigningRequest
  get_request rid = do found ← select env pool (request_with_id rid); lift (require found no_rows)
