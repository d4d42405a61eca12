-- ===== src/Signing/Loading.antt =====
-- That the queries of internal/service/signing/impl.go for a request find what stays true of it.
use go_mpc_vault.Prelude.{String, Option, none, some, ◌≡◌, refl, arith}
use mathlib.Core.Path.{subst}
use go_mpc_vault.Errors.{no_rows}
use go_mpc_vault.Data.{Database}
use go_mpc_vault.Data.VaultTables.{SigningRequest, Wallet, Vault}
use go_mpc_vault.Exec.{Env, World, next, pool, select, require}
use go_mpc_vault.Exec.Rely.{Safe, Safe-bind}
use go_mpc_vault.Exec.Steps.{Prog, atom, done, ◌>>=◌}
use go_mpc_vault.Signing.{
  request_with_id, vault_of, chain_of, chain_with_id, wallet_with_id, vault_with_id,
}
use go_mpc_vault.Signing.Steps.{load_steps, load_request_steps}
use go_mpc_vault.Signing.Threshold.{wallet_of_request, vault_of_request}
use go_mpc_vault.Signing.Backing.{Grown, Grown-refl, Grown-trans, signing, wallet_of_request-Grown}
use go_mpc_vault.Signing.Rules.{Any, Safe-select}
use go_mpc_vault.Signing.Known.{
  Known, Loaded, Found, Known-Grown, Loaded-Grown, found-Known, require-Found,
}

module _ (env : Env) where
  -- The query for the request, and what it says from then on.
  pub Safe-find :
      {B : Type 0} (Q : B → World → Type 0) (rid : String) (g : SigningRequest → Prog B) (w : World)
      → ((req : SigningRequest) (u : World) → Known rid req u → Safe signing Q (g req) u)
      → Safe signing Q
          (atom (select env pool (request_with_id rid)) >>= λ o. done (require o no_rows) >>= g)
          w
  Safe-find Q rid g w rest =
      Safe-bind signing (Found rid) Q (atom (select env pool (request_with_id rid)))
        (λ o. done (require o no_rows) >>= g) w
        (Safe-select env (request_with_id rid) (Found rid) w
          (λ u grown req e. found-Known rid req (next u) e))
        (λ o u grown found.
          Safe-bind signing (Known rid) Q (done (require o no_rows)) g u
            (require-Found rid o no_rows u u (Grown-refl u.base) found)
            (λ req v later known. rest req v known))

  -- What a wallet is for the request, if it was looked up at some time after the request was.
  wallet_Known :
      (rid : String) (req : SigningRequest) (w : World)
      → Known rid req w
      → (o : Option Wallet)
      → o ≡ elim req.wallet_id [ none ↦ none | some wid ↦ wallet_with_id wid w.base ]
      → (y : Wallet) → o ≡ some y
      → wallet_of_request rid w.base ≡ some y
  wallet_Known rid req w (named, same) o found y e =
      subst (λ k. wallet_of_request k w.base ≡ some y) named
        (ground (arith, same.stored, same.wallet))

  vault_Known :
      (rid : String) (w : World) (x : Option Wallet)
      → ((y : Wallet) → x ≡ some y → wallet_of_request rid w.base ≡ some y)
      → (o : Option Vault)
      → o ≡ elim (vault_of env x) [ none ↦ none | some vid ↦ vault_with_id vid w.base ]
      → (v : Vault) → o ≡ some v
      → vault_of_request rid w.base ≡ some v
  vault_Known rid w none known o found v e = absurd (ground arith)
  vault_Known rid w (some x) known o found v e = ground (arith, known x refl)

  Safe-load :
      {A : Type 0} (f : String → Database → Option A) (k : Option String)
      (P : Option A → World → Type 0) (w : World)
      → ((u : World) (o : Option A)
          → Grown w.base u.base
          → o ≡ elim k [ none ↦ none | some x ↦ f x u.base ]
          → P o u)
      → Safe signing P (load_steps env f k) w
  Safe-load f none P w h = h w none (Grown-refl w.base) refl
  Safe-load f (some k) P w h =
      Safe-select env (f k) P w (λ u grown. h (next u) (f k u.base) grown refl)

  pub Safe-load_request :
      (rid : String) (w : World)
      → Safe signing (λ (req, x, v, c) u. Loaded rid req x v u) (load_request_steps env rid) w
  unfolding load_request_steps
  Safe-load_request rid w =
      Safe-find (λ (req, x, v, c) u. Loaded rid req x v u) rid _ w
        (λ req u known.
          Safe-bind signing
            (λ x u1. (y : Wallet) → x ≡ some y → wallet_of_request rid u1.base ≡ some y) _ _ _ u
            (Safe-load wallet_with_id req.wallet_id _ u
              (λ u1 o g found. wallet_Known rid req u1 (Known-Grown rid req u u1 g known) o found))
            (λ x u1 g1 key_of.
              Safe-bind signing
                (λ v u2. (y : Vault) → v ≡ some y → vault_of_request rid u2.base ≡ some y) _ _ _ u1
                (Safe-load vault_with_id (vault_of env x) _ u1 (λ u2 o g found.
                  vault_Known rid u2 x
                    (λ y e. wallet_of_request-Grown rid y u1.base u2.base g (key_of y e)) o found))
                (λ v u2 g2 vault_of.
                  let loaded : Loaded rid req x v u2 = record {
                    known =
                        Known-Grown rid req u u2 (Grown-trans u.base u1.base u2.base g1 g2) known;
                    key_of = λ y e. wallet_of_request-Grown rid y u1.base u2.base g2 (key_of y e);
                    vault_of = vault_of;
                  } in
                  Safe-bind signing Any _ _ _ u2
                    (Safe-load chain_with_id (chain_of env x) Any u2 (λ u3 o g found. tt))
                    (λ c u3 g3 any. Loaded-Grown rid req x v u2 u3 g3 loaded))))
