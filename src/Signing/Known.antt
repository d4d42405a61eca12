-- ===== src/Signing/Known.antt =====
-- What a call of internal/service/signing/impl.go knows of the request that it has loaded, while other
-- calls change the tables.
use go_mpc_vault.Prelude.{String, Option, none, some, ◌≡◌, refl, arith, ◌==◌, eq_iff, sym, ◌∙◌}
use mathlib.Core.Path.{subst}
use go_mpc_vault.Errors.{Error}
use go_mpc_vault.Data.{Database}
use go_mpc_vault.Data.VaultTables.{SigningRequest, Wallet, Vault}
use go_mpc_vault.Exec.{World, Stamp, written, require}
use go_mpc_vault.Exec.Rely.{Post}
use go_mpc_vault.Signing.{request_with_id, update_request}
use go_mpc_vault.Signing.Threshold.{wallet_of_request, vault_of_request}
use go_mpc_vault.Signing.Backing.{Grown, signing, wallet_of_request-Grown, vault_of_request-Grown}
use go_mpc_vault.Signing.Growth.{Same, update_request-Grown, find_holds}

-- What a call knows of the request that it has loaded, however the tables change afterwards.
abbrev pub Known : String → SigningRequest → World → Type 0
Known rid req w = (req.id ≡ rid) × Same req w.base

pub record Loaded (rid : String) (req : SigningRequest) (x : Option Wallet) (v : Option Vault)
    (w : World) : Type 0 where
  pub known : Known rid req w
  pub key_of : (y : Wallet) → x ≡ some y → wallet_of_request rid w.base ≡ some y
  pub vault_of : (y : Vault) → v ≡ some y → vault_of_request rid w.base ≡ some y

Same-Grown : (r : SigningRequest) (db new : Database) → Grown db new → Same r db → Same r new
Same-Grown r db new g s =
    let (q, found, tx, wallet) = g.request r.id s.row s.stored in
    record { row = q; stored = found; tx = ground (arith, s.tx); wallet = ground (arith, s.wallet) }

pub Known-Grown :
    (rid : String) (req : SigningRequest) (w u : World)
    → Grown w.base u.base
    → Known rid req w
    → Known rid req u
Known-Grown rid req w u g (named, same) = (named, Same-Grown req w.base u.base g same)

pub Loaded-Grown :
    (rid : String) (req : SigningRequest) (x : Option Wallet) (v : Option Vault) (w u : World)
    → Grown w.base u.base
    → Loaded rid req x v w
    → Loaded rid req x v u
Loaded-Grown rid req x v w u g h = record {
  known = Known-Grown rid req w u g h.known;
  key_of = λ y e. wallet_of_request-Grown rid y w.base u.base g (h.key_of y e);
  vault_of = λ y e. vault_of_request-Grown rid y w.base u.base g (h.vault_of y e);
}

pub found-Known :
    (rid : String) (req : SigningRequest) (w : World)
    → request_with_id rid w.base ≡ some req
    → Known rid req w
found-Known rid req w e =
    let p : req.id ≡ rid =
      (eq_iff req.id rid).0 (find_holds (λ r. r.id == rid) w.base.custody.requests req e) in
    (
      p,
      record {
        row = req;
        stored = subst (λ k. request_with_id k w.base ≡ some req) (sym p) e;
        tx = refl;
        wallet = refl;
      },
    )

-- The request as it was found, and as it is after other steps.
abbrev pub Found : String → Option SigningRequest → World → Type 0
Found rid o w = (req : SigningRequest) → o ≡ some req → Known rid req w

pub require-Found :
    (rid : String) (o : Option SigningRequest) (e : Error) (w u : World)
    → Grown w.base u.base
    → Found rid o w
    → Post signing (Known rid) (require o e) u
require-Found rid none e w u g h = tt
require-Found rid (some r) e w u g h = Known-Grown rid r w u g (h r refl)

pub update_stored-Grown :
    (rid : String) (req row : SigningRequest) (w : World) (s : Stamp) (db : Database)
    → row.id ≡ req.id
    → row.tx_data ≡ req.tx_data
    → row.wallet_id ≡ req.wallet_id
    → Known rid req w
    → Grown w.base db
    → Grown db (written (update_request row s db) db)
update_stored-Grown rid req row w s db id tx wallet (named, same) g =
    let now = Same-Grown req w.base db g same in
    update_request-Grown row s db (record {
      row = now.row;
      stored = rw id now.stored;
      tx = now.tx ∙ sym tx;
      wallet = now.wallet ∙ sym wallet;
    })
