-- ===== src/Handlers/Vaults.antt =====
-- internal/api/handlers/vault/*.go
use go_mpc_vault.Prelude.{
  String, Bool, not, ◌&&◌, Option, none, some, List, [], ◌∷◌, any, find, null_text, is_some, ◌==◌,
}
use go_mpc_vault.Errors.{Result, driver, forbidden, echo_not_found}
use go_mpc_vault.Data.{Database}
use go_mpc_vault.Data.VaultTables.{Organization}
use go_mpc_vault.Exec.{
  Env, M, pool, pure, guard, lift, require, map_error, attempt, select, ◌>>=◌, ◌>>◌,
}
use go_mpc_vault.Middleware.{Request}
use go_mpc_vault.Organizations.{is_membership, list_user_organizations}
use go_mpc_vault.Signing.{vault_with_id}
use go_mpc_vault.Vaults.{create_vault, create_wallet}
use go_mpc_vault.Handlers.{signed_in}

-- types.CreateVaultPayload and types.CreateVaultResponse
pub record CreateVaultPayload : Type 0 where
  pub name : Option String
  pub chains : List String

pub record CreateVaultResponse : Type 0 where
  pub vault_id : String
  pub status : String

-- types.CreateWalletResponse
pub record CreateWalletResponse : Type 0 where
  pub wallet_id : String
  pub address : String
  pub chain_id : String

-- The first organization, unless the user owns one.
unfoldable pub choose_organization : String → List Organization → Option String
choose_organization uid [] = none
choose_organization uid (o ∷ orgs) = elim (find (λ q. q.owner_id == uid) (o ∷ orgs)) [
  | none ↦ some o.id
  | some q ↦ some q.id
]

abbrev pub is_member : Option String → String → Database → Bool
is_member oid uid db = any (is_membership (null_text oid) uid) db.custody.members

module _ (env : Env) where
  -- The loop over the chains of the payload; an error is only logged.
  unfoldable pub create_wallets : String → List String → M (Unit {0})
  create_wallets vid [] = pure tt
  create_wallets vid (cid ∷ cids) = do
    wallet ← attempt (create_wallet env vid cid)
    create_wallets vid cids

  -- postCreateVaultHandler
  unfoldable pub post_create_vault :
      (List String → Database → Result (List Organization))
      → Request
      → Result CreateVaultPayload
      → M CreateVaultResponse
  post_create_vault where_in c bound = do
    body ← lift bound
    user ← signed_in c
    orgs ← list_user_organizations env where_in user.id
    oid ← lift (require (choose_organization user.id orgs) forbidden)
    vault ← create_vault env (null_text body.name) oid
    create_wallets vault.id body.chains
    pure (record { vault_id = vault.id; status = "active" })

  -- postCreateWalletHandler: any error of the first query is reported as a vault that is not found.
  -- Without an organization the second query compares a uuid with the empty text, and fails.
  unfoldable pub post_create_wallet :
      Request → String → Result (Option String) → M CreateWalletResponse
  post_create_wallet c vid bound = do
    chain_id ← lift bound
    user ← signed_in c
    found ← map_error (select env pool (vault_with_id vid)) (λ _. echo_not_found)
    vault ← lift (require found echo_not_found)
    oid ← lift (require vault.organization_id driver)
    member ← select env pool (is_member (some oid) user.id)
    guard (not (not member && is_some vault.organization_id)) forbidden
    wallet ← create_wallet env vid (null_text chain_id)
    pure (record {
      wallet_id = wallet.id;
      address = wallet.address;
      chain_id = null_text wallet.chain_id;
    })
