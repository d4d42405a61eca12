-- ===== src/Signing/Backing.antt =====
-- What justifies a call of the MPC services by internal/service/signing/impl.go, and how the tables
-- may change while such a call is under way.
use go_mpc_vault.Prelude.{String, some, ◌≡◌, ◌≤◌, refl, arith, All, length, inl, inr, Option-cases}
use go_mpc_vault.Data.{Database}
use go_mpc_vault.Data.VaultTables.{SigningRequest, Wallet, Vault}
use go_mpc_vault.Mpc.{Outgoing, signs, creates, mails}
use go_mpc_vault.Exec.{World}
use go_mpc_vault.Exec.Rely.{Rely}
use go_mpc_vault.Signing.{request_with_id, wallet_with_id, vault_with_id, approvals_of}
use go_mpc_vault.Signing.Threshold.{wallet_of_request, vault_of_request}
use go_mpc_vault.Signing.Votes.{IsOrderly}

-- A request that is stored stays, with its transaction and its wallet; so do wallets and vaults, and
-- approvals are not taken back.
pub record Grown (db new : Database) : Type 0 where
  pub request :
      (rid : String) (r : SigningRequest)
      → request_with_id rid db ≡ some r
      → (q : SigningRequest) × (request_with_id rid new ≡ some q)
        × (q.tx_data ≡ r.tx_data)
        × (q.wallet_id ≡ r.wallet_id)
  pub wallet :
      (wid : String) (x : Wallet) → wallet_with_id wid db ≡ some x → wallet_with_id wid new ≡ some x
  pub vault :
      (vid : String) (v : Vault) → vault_with_id vid db ≡ some v → vault_with_id vid new ≡ some v
  pub approvals : (rid : String) → length (approvals_of rid db) ≤ length (approvals_of rid new)

pub Grown-refl : (db : Database) → Grown db db
Grown-refl db = record {
  request = λ rid r e. (r, e, refl, refl);
  wallet = λ wid x e. e;
  vault = λ vid v e. e;
  approvals = λ rid. omega arith;
}

pub Grown-trans : (a b c : Database) → Grown a b → Grown b c → Grown a c
Grown-trans a b c g h = record {
  request = λ rid r e.
      let (q, found, tx, wid) = g.request rid r e in
      let (p, found', tx', wid') = h.request rid q found in (p, found', ground arith, ground arith);
  wallet = λ wid x e. h.wallet wid x (g.wallet wid x e);
  vault = λ vid v e. h.vault vid v (g.vault vid v e);
  approvals = λ rid. omega (arith, g.approvals rid, h.approvals rid);
}

-- The services are asked to sign what a stored request says, with the key of its wallet, and the
-- request has as many approvals as the vault of that wallet demands.
pub record Backing (key_id message_hex : String) (db : Database) : Type 0 where
  pub rid : String
  pub req : SigningRequest
  pub wallet : Wallet
  pub vault : Vault
  pub stored : request_with_id rid db ≡ some req
  pub tx : req.tx_data ≡ message_hex
  pub key_of : wallet_of_request rid db ≡ some wallet
  pub key : wallet.key_id ≡ key_id
  pub vault_of : vault_of_request rid db ≡ some vault
  pub met : vault.threshold ≤ length (approvals_of rid db)

abbrev pub Backed : Database → Outgoing → Type 0
Backed db (signs r) = Backing r.key_id r.message_hex db
Backed db (creates r) = Unit
Backed db (mails m) = Unit

pub wallet_of_request-Grown :
    (rid : String) (x : Wallet) (db new : Database)
    → Grown db new
    → wallet_of_request rid db ≡ some x
    → wallet_of_request rid new ≡ some x
wallet_of_request-Grown rid x db new g h = elim (Option-cases (request_with_id rid db)) [
  | inl e ↦ absurd (ground arith)
  | inr (r, e) ↦ elim (Option-cases r.wallet_id) [
    | inl n ↦ absurd (ground arith)
    | inr (wid, n) ↦ ground (arith, g.request rid r e, g.wallet wid x)
  ]
]

pub vault_of_request-Grown :
    (rid : String) (v : Vault) (db new : Database)
    → Grown db new
    → vault_of_request rid db ≡ some v
    → vault_of_request rid new ≡ some v
vault_of_request-Grown rid v db new g h = elim (Option-cases (wallet_of_request rid db)) [
  | inl e ↦ absurd (ground arith)
  | inr (x, e) ↦ elim (Option-cases x.vault_id) [
    | inl n ↦ absurd (ground arith)
    | inr (vid, n) ↦ ground (arith, wallet_of_request-Grown rid x db new g e, g.vault vid v)
  ]
]

pub Backing-Grown :
    (key message : String) (db new : Database)
    → Grown db new
    → Backing key message db
    → Backing key message new
Backing-Grown key message db new g b =
    let (q, found, tx, wid) = g.request b.rid b.req b.stored in
    record {
      rid = b.rid;
      req = q;
      wallet = b.wallet;
      vault = b.vault;
      stored = found;
      tx = ground (arith, b.tx);
      key_of = wallet_of_request-Grown b.rid b.wallet db new g b.key_of;
      key = b.key;
      vault_of = vault_of_request-Grown b.rid b.vault db new g b.vault_of;
      met = omega (arith, b.met, g.approvals b.rid);
    }

pub Backed-Grown : (c : Outgoing) (db new : Database) → Grown db new → Backed db c → Backed new c
Backed-Grown (signs r) db new g b = Backing-Grown r.key_id r.message_hex db new g b
Backed-Grown (creates r) db new g b = tt
Backed-Grown (mails m) db new g b = tt

abbrev pub IsJustified : World → Type 0
IsJustified w = IsOrderly w.base × IsOrderly w.view × All (Backed w.base) w.calls

abbrev pub signing : Rely
signing = record {
  Good = IsJustified;
  Grows = λ w u. Grown w.base u.base;
  still = λ w. Grown-refl w.base;
  trans = λ u v w. Grown-trans u.base v.base w.base;
}
