-- ===== src/Handlers/Ownership.antt =====
-- Whose the vaults are that internal/api/handlers/vault/post_create_vault.go makes.
use go_mpc_vault.Prelude.{
  String, Bool, true, ◌==◌, some, List, [], ◌∷◌, ◌≡◌, inl, inr, refl, arith, any, find, All,
  null_text, Option-cases, eq_refl,
}
use go_mpc_vault.Errors.{Result, ok, Result-cases}
use go_mpc_vault.Data.{Database}
use go_mpc_vault.Data.VaultTables.{Organization, Vault}
use go_mpc_vault.Exec.{
  Env, World, pure, raise, lift, map_error, attempt, select, write, new_uuid, send_create, ◌>>=◌,
}
use go_mpc_vault.Auth.{User}
use go_mpc_vault.Middleware.{Request}
use go_mpc_vault.Organizations.{list_user_organizations}
use go_mpc_vault.Organizations.Belonging.{belongs, Accepted, list_user_organizations_ok}
use go_mpc_vault.Signing.{vault_with_id}
use go_mpc_vault.Vaults.{
  create_vault, create_wallet, insert_vault, insert_wallet, create_key, store_wallet,
}
use go_mpc_vault.Handlers.{signed_in}
use go_mpc_vault.Handlers.Vaults.{
  CreateVaultPayload, CreateVaultResponse, choose_organization, create_wallets, post_create_vault,
}

module _ (p : String → Bool) where
  found-Accepted :
      (q : Organization → Bool) (xs : List Organization) (x : Organization)
      → Accepted p xs
      → find q xs ≡ some x
      → p x.id ≡ true
  found-Accepted q [] x h e = absurd (ground arith)
  found-Accepted q (y ∷ xs) x h e = ground (arith, found-Accepted q xs x h.1, h.0)

  choose_organization-Accepted :
      (uid oid : String) (orgs : List Organization)
      → Accepted p orgs
      → choose_organization uid orgs ≡ some oid
      → p oid ≡ true
  unfolding choose_organization
  choose_organization-Accepted uid oid [] h e = absurd (ground arith)
  choose_organization-Accepted uid oid (o ∷ orgs) h e =
      let own = found-Accepted (λ q. q.owner_id == uid) (o ∷ orgs) in
      elim (Option-cases (find (λ q. q.owner_id == uid) (o ∷ orgs))) [
        | inl n ↦ ground (arith, h.0)
        | inr (q, f) ↦ ground (arith, own q h f)
      ]

module _ (env : Env) where
  create_wallet_vaults :
      (vid cid : String) (w : World)
      → (create_wallet env vid cid w).1.base.custody.vaults ≡ w.base.custody.vaults
  unfolding create_wallet create_key store_wallet insert_wallet new_uuid send_create map_error
      select write lift raise pure ◌>>=◌
  create_wallet_vaults vid cid w = ground arith

  create_wallets_vaults :
      (vid : String) (cids : List String) (w : World)
      → (create_wallets env vid cids w).1.base.custody.vaults ≡ w.base.custody.vaults
  unfolding create_wallets attempt pure ◌>>=◌
  create_wallets_vaults vid [] w = refl
  create_wallets_vaults vid (cid ∷ cids) w = ground (
    arith,
    create_wallet_vaults vid cid w,
    create_wallets_vaults vid cids (create_wallet env vid cid w).1,
  )

  create_vault_ok :
      (name oid : String) (w : World) (v : Vault)
      → (create_vault env name oid w).0 ≡ ok v
      → (vault_with_id v.id (create_vault env name oid w).1.base ≡ some v)
        × (v.organization_id ≡ some oid)
  unfolding create_vault insert_vault write map_error ◌>>=◌
  create_vault_ok name oid w v h = (ground (arith, eq_refl v.id), ground arith)

module _ (env : Env) (where_in : List String → Database → Result (List Organization))
    -- An IN clause gives rows with one of the identifiers.
    (answers : (oids : List String) (db : Database) (orgs : List Organization)
      → where_in oids db ≡ ok orgs
      → All (λ o. any (λ k. k == o.id) oids ≡ true) orgs) where
  pub record Founded (c : Request) (response : CreateVaultResponse) (w w' : World) : Type 0 where
    pub user : User
    pub vault : Vault
    pub oid : String
    pub given : c.user ≡ some user
    pub stored : vault_with_id response.vault_id w'.base ≡ some vault
    pub of_organization : vault.organization_id ≡ some oid
    pub own : belongs oid user.id w.base ≡ true

  founded :
      (c : Request) (bound : Result CreateVaultPayload) (w : World) (r : CreateVaultResponse)
      (user : User) (body : CreateVaultPayload) (orgs : List Organization) (oid : String)
      → (post_create_vault env where_in c bound w).0 ≡ ok r
      → c.user ≡ some user
      → bound ≡ ok body
      → (list_user_organizations env where_in user.id w).0 ≡ ok orgs
      → choose_organization user.id orgs ≡ some oid
      → Founded c r w (post_create_vault env where_in c bound w).1
  unfolding post_create_vault signed_in lift pure raise ◌>>=◌
  founded c bound w r user body orgs oid h e f g k =
      let w' : World = (list_user_organizations env where_in user.id w).1 in
      let own =
        choose_organization-Accepted (λ o. belongs o user.id w.base) user.id oid orgs
          (list_user_organizations_ok env where_in answers user.id w orgs g) k in
      elim (Result-cases (create_vault env (null_text body.name) oid w').0) [
        | inr (x, l) ↦ absurd (ground arith)
        | inl (vault, l) ↦
            let (found, made) = create_vault_ok env (null_text body.name) oid w' vault l in
            let kept =
              create_wallets_vaults env vault.id body.chains
                (create_vault env (null_text body.name) oid w').1 in
            record {
              user = user;
              vault = vault;
              oid = oid;
              given = e;
              stored = ground (arith, found, kept);
              of_organization = made;
              own = own;
            }
      ]

  -- A request by HTTP for a vault that succeeds is of a user who is signed in. The vault of the
  -- response is stored then, for an organization that this user owns or is a member of, if an IN query
  -- gives only organizations that it asks for.
  pub post_create_vault_ok :
      (c : Request) (bound : Result CreateVaultPayload) (w : World) (r : CreateVaultResponse)
      → (post_create_vault env where_in c bound w).0 ≡ ok r
      → Founded c r w (post_create_vault env where_in c bound w).1
  unfolding post_create_vault signed_in lift pure raise ◌>>=◌
  post_create_vault_ok c bound w r h = elim (Option-cases c.user) [
    | inl e ↦ absurd (ground arith)
    | inr (user, e) ↦ elim (Result-cases bound) [
      | inr (x, f) ↦ absurd (ground arith)
      | inl (body, f) ↦ elim (Result-cases (list_user_organizations env where_in user.id w).0) [
        | inr (x, g) ↦ absurd (ground arith)
        | inl (orgs, g) ↦ elim (Option-cases (choose_organization user.id orgs)) [
          | inl k ↦ absurd (ground arith)
          | inr (oid, k) ↦ founded c bound w r user body orgs oid h e f g k
        ]
      ]
    ]
  ]
