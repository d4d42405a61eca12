-- ===== src/Grpc.antt =====
-- The gRPC servers of signing and vaults (internal/api/grpc/server/signing.go and vault.go). The caller is
-- not taken from the context: every call is made for the same user and organization.
pub mod Refused
pub mod Ceremonies
pub mod Sessions
use go_mpc_vault.Prelude.{ℕ, String, Option, List, [], ◌∷◌, null_text}
use go_mpc_vault.Errors.{Error, internal_status}
use go_mpc_vault.Mpc.{ApprovalParams}
use go_mpc_vault.Exec.{Env, M, pure, map_error, ◌>>=◌, ◌>>◌}
use go_mpc_vault.Signing.{create_request, approve_request}
use go_mpc_vault.Vaults.{create_vault, create_wallet}

-- apiv1.CreateSigningRequest, apiv1.ApproveSigningRequest, apiv1.CreateVaultRequest
pub record CreateSigningRequest : Type 0 where
  pub wallet_id : String
  pub tx_data : String
  pub note : String

pub record ApproveSigningRequest : Type 0 where
  pub request_id : String
  pub action : String
  pub comment : String
  pub credential_id : List ℕ
  pub signature : List ℕ
  pub authenticator_data : List ℕ
  pub client_data_json : List ℕ

record CreateVaultRequest : Type 0 where
  pub name : String
  pub threshold : ℕ
  pub chains : List String

-- apiv1.CreateSigningResponse, apiv1.CreateVaultResponse, apiv1.CreateWalletResponse
pub record CreateSigningResponse : Type 0 where
  pub request_id : String
  pub status : String

record CreateVaultResponse : Type 0 where
  pub vault_id : String
  pub status : String

record CreateWalletResponse : Type 0 where
  pub wallet_id : String
  pub address : String
  pub chain_id : String

abbrev default_user : String
default_user = "default-user"

abbrev default_org : String
default_org = "default-org"

abbrev approval_params : ApproveSigningRequest → ApprovalParams
approval_params req = record {
  user_id = default_user;
  credential_id = req.credential_id;
  signature = req.signature;
  authenticator_data = req.authenticator_data;
  client_data_json = req.client_data_json;
}

module _ (env : Env) where
  -- SigningServer.CreateSigningRequest
  unfoldable pub create_signing_request : CreateSigningRequest → M CreateSigningResponse
  create_signing_request req = do
    r ←
        map_error (create_request env req.wallet_id req.tx_data req.note default_user)
          (internal_status "failed to create request")
    pure (record { request_id = r.id; status = null_text r.status })

  -- SigningServer.ApproveSigningRequest; the action is not read.
  unfoldable pub approve_signing_request : ApproveSigningRequest → M String
  approve_signing_request req = do
    map_error (approve_request env req.request_id (approval_params req))
        (internal_status "failed to approve request")
    pure "approved"

  -- The loop over the chains, which ends with the first error.
  unfoldable create_wallets : String → List String → M (Unit {0})
  create_wallets vid [] = pure tt
  create_wallets vid (cid ∷ cids) = do
    wallet ←
        map_error (create_wallet env vid cid) (internal_status "failed to create wallet for chain")
    create_wallets vid cids

  -- VaultServer.CreateVault; the threshold is not read.
  unfoldable grpc_create_vault : CreateVaultRequest → M CreateVaultResponse
  grpc_create_vault req = do
    v ← map_error (create_vault env req.name default_org) (internal_status "failed to create vault")
    create_wallets v.id req.chains
    pure (record { vault_id = v.id; status = "active" })

  -- VaultServer.CreateWallet
  unfoldable grpc_create_wallet : String → String → M CreateWalletResponse
  grpc_create_wallet vid cid = do
    x ← map_error (create_wallet env vid cid) (internal_status "failed to create wallet")
    pure (record { wallet_id = x.id; address = x.address; chain_id = null_text x.chain_id })
