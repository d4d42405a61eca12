-- ===== src/Vaults.antt =====
-- The vault service (internal/service/vault/impl.go) with its call of the key service
-- (internal/infra/mpc/key_client.go).
pub mod Wallets
use Prim.Native.String.{len, slice, ◌++◌}
use go_mpc_vault.Prelude.{
  ℕ, String, Bool, not, ◌&&◌, ◌||◌, Option, none, some, ◌∷◌, find, any, null_eq, null_text, ltb,
  if◌then◌else◌, ◌==◌,
}
use go_mpc_vault.Errors.{Error, Result, ok, err, constraint, no_rows, panic, wrapped}
use go_mpc_vault.Data.{Database}
use go_mpc_vault.Data.VaultTables.{Custody, Organization, Vault, Wallet, Chain}
use go_mpc_vault.Exec.{
  Env, M, Stamp, pool, pure, lift, require, map_error, new_uuid, select, write, send_create, ◌>>=◌,
}

abbrev pub chain_is : String → Database → Option Chain
chain_is cid db = find (λ c. c.id == cid) db.custody.chains

-- The wallet of a vault for a chain, at an index of derivation.
abbrev pub same_slot : String → String → ℕ → Wallet → Bool
same_slot vid cid n x =
    null_eq x.vault_id vid
    && (null_eq x.chain_id cid && not (ltb x.derive_index n || ltb n x.derive_index))

-- INSERT INTO vaults; the database makes the key.
unfoldable pub insert_vault : String → String → Stamp → Database → Result (Vault × Database)
insert_vault name oid s db =
    if any (λ v. v.id == s.uuid) db.custody.vaults
      || not (any (λ o. o.id == oid) db.custody.organizations)
    then err constraint
    else let row : Vault = record {
      id = s.uuid;
      organization_id = some oid;
      name = name;
      threshold = 2;
      created_at = some s.wall;
      updated_at = some s.wall;
    } in
      ok (row, record db { custody = record (db.custody) { vaults = row ∷ db.custody.vaults } })

-- INSERT INTO wallets, with UNIQUE (vault_id, chain_id, derive_index)
unfoldable pub insert_wallet : Wallet → Stamp → Database → Result (Wallet × Database)
insert_wallet x s db =
    if any (λ y. y.id == x.id) db.custody.wallets
      || (any (same_slot (null_text x.vault_id) (null_text x.chain_id) x.derive_index)
            db.custody.wallets
          || not (
              any (λ v. v.id == null_text x.vault_id) db.custody.vaults
              && any (λ c. c.id == null_text x.chain_id) db.custody.chains))
    then err constraint
    else let row : Wallet = record x { created_at = some s.wall; updated_at = some s.wall } in
      ok (row, record db { custody = record (db.custody) { wallets = row ∷ db.custody.wallets } })

-- A slice of a shorter text panics. A key in hexadecimal has one byte for each character.
unfoldable pub derive_address : String → String → Option String
derive_address pub_key_hex chain_type =
    if ltb (len pub_key_hex) 40 then none else some ("0x" ++ slice pub_key_hex 0 40)

abbrev is_ed25519 : Chain → Bool
is_ed25519 c = c.curve == "ed25519"

abbrev algorithm_of : Chain → String
algorithm_of c = if is_ed25519 c then "EdDSA" else "ECDSA"

abbrev curve_of : Chain → String
curve_of c = if is_ed25519 c then "ed25519" else "secp256k1"

module _ (env : Env) where
  unfoldable pub create_vault : String → String → M Vault
  create_vault name oid =
      map_error (write env pool (insert_vault name oid)) (wrapped "failed to insert vault")

  -- KeyClient.CreateKey
  unfoldable pub create_key : String → String → String → M String
  create_key key_id algorithm curve =
      send_create env (record { key_id = key_id; algorithm = algorithm; curve = curve })

  unfoldable pub store_wallet : String → String → String → String → M Wallet
  store_wallet wid vid cid address =
      map_error
        (write env pool (
          insert_wallet (record {
            id = wid;
            vault_id = some vid;
            chain_id = some cid;
            key_id = wid;
            address = address;
            derive_path = "m/44'/60'/0'/0/0";
            derive_index = 0;
            created_at = none;
            updated_at = none;
          })))
        (wrapped "failed to insert wallet")

  unfoldable pub create_wallet : String → String → M Wallet
  create_wallet vid cid = do
    chain ←
        map_error (do found ← select env pool (chain_is cid); lift (require found no_rows))
          (wrapped "chain not found")
    wid ← new_uuid env
    pub_key ←
        map_error (create_key wid (algorithm_of chain) (curve_of chain))
          (wrapped "mpc key generation failed")
    address ← lift (require (derive_address pub_key chain.chain_type) panic)
    store_wallet wid vid cid address
