-- ===== src/Vaults/Wallets.antt =====
-- CreateWallet of internal/service/vault/impl.go: the key that is made, and what is stored of it.
use go_mpc_vault.Prelude.{
  ℕ, suc, String, false, some, ◌∷◌, ◌≡◌, arith, any, if◌then◌else◌, ◌==◌, Option-cases, inl, inr,
}
use go_mpc_vault.Errors.{ok, Result-cases}
use go_mpc_vault.Data.VaultTables.{Wallet, Chain}
use go_mpc_vault.Mpc.{CreateRootKeyRequest, creates}
use go_mpc_vault.Exec.{Env, World, lift, map_error, new_uuid, select, write, send_create, ◌>>=◌}
use go_mpc_vault.Vaults.{
  create_wallet, create_key, store_wallet, insert_wallet, derive_address, chain_is, same_slot,
}

-- The key that is asked for, at answer `n`: EdDSA for the chains of ed25519, ECDSA for all others.
abbrev pub key_request : Env → Chain → ℕ → CreateRootKeyRequest
key_request env c n =
    if c.curve == "ed25519"
    then record { key_id = env.uuid n; algorithm = "EdDSA"; curve = "ed25519" }
    else record { key_id = env.uuid n; algorithm = "ECDSA"; curve = "secp256k1" }

module _ (env : Env) (vid cid : String) where
  -- A wallet that is created has a key of its own, which the key service has made under the
  -- wallet's identifier for the curve of the chain, and it is the first of its vault for the chain.
  pub create_wallet_ok :
      (w : World) (x : Wallet)
      → (create_wallet env vid cid w).0 ≡ ok x
      → (c : Chain) × (key : String) × (address : String) × (chain_is cid w.base ≡ some c)
        × (env.create_root_key (suc (suc w.asked)) (key_request env c (suc w.asked)) ≡ ok key)
        × (derive_address key c.chain_type ≡ some address)
        × (x ≡ record {
          id = env.uuid (suc w.asked);
          vault_id = some vid;
          chain_id = some cid;
          key_id = env.uuid (suc w.asked);
          address = address;
          derive_path = "m/44'/60'/0'/0/0";
          derive_index = 0;
          created_at = some (env.wall (suc (suc (suc w.asked))));
          updated_at = some (env.wall (suc (suc (suc w.asked))));
        })
        × (any (same_slot vid cid 0) w.base.custody.wallets ≡ false)
        × ((create_wallet env vid cid w).1.calls
            ≡ creates (key_request env c (suc w.asked)) ∷ w.calls)
        × ((create_wallet env vid cid w).1.base.custody.wallets ≡ x ∷ w.base.custody.wallets)
  unfolding create_wallet create_key store_wallet insert_wallet select lift map_error new_uuid write
      send_create ◌>>=◌
  create_wallet_ok w x h = elim (Option-cases (chain_is cid w.base)) [
    | inl e ↦ absurd (ground arith)
    | inr (c, e) ↦
        elim (Result-cases
          (env.create_root_key (suc (suc w.asked)) (key_request env c (suc w.asked)))) [
            | inr (l, f) ↦ absurd (ground arith)
            | inl (key, f) ↦ elim (Option-cases (derive_address key c.chain_type)) [
              | inl g ↦ absurd (ground arith)
              | inr (address, g) ↦
                  (c, key, address, e, f, g, ground arith, ground arith, ground arith, ground arith)
            ]
          ]
  ]
