-- ===== src/Signing/Steps.antt =====
-- ApproveRequest, RejectRequest, CreateRequest and GetRequest (internal/service/signing/impl.go) one
-- statement at a time, so that the calls of several clients may be interleaved.
use go_mpc_vault.Prelude.{
  String, Bool, not, Option, none, some, List, leb, length, ◌==◌, null_text, if◌then◌else◌,
}
use go_mpc_vault.Errors.{Error, err, no_rows, panic, message, wrapped}
use go_mpc_vault.Data.{Database}
use go_mpc_vault.Data.VaultTables.{SigningRequest, Approval, Wallet, Vault, Chain}
use go_mpc_vault.Mpc.{ApprovalParams}
use go_mpc_vault.Exec.{Env, pool, new_uuid, select, write, require}
use go_mpc_vault.Exec.Steps.{Prog, done, atom, give, rename, ◌>>=◌, ◌>>◌}
use go_mpc_vault.Signing.{
  threshold_sign, insert_request, insert_approval, update_request, pending, request_with_id,
  wallet_with_id, vault_with_id, chain_with_id, vault_of, chain_of, has_approval, approvals_of,
  approval_row, chain_type_of, auth_tokens, rejection_row, request_row,
}
use go_mpc_vault.Signing.Calls.{SigningCall, creating, approving, rejecting, reading}

abbrev pub check : Bool → Error → Prog (Unit {0})
check b e = if b then give tt else done (err e)

module _ (env : Env) where
  abbrev pub load_steps :
      {A : Type 0} → (String → Database → Option A) → Option String → Prog (Option A)
  load_steps f none = give none
  load_steps f (some k) = atom (select env pool (f k))

  unfoldable pub load_request_steps :
      String → Prog (SigningRequest × Option Wallet × Option Vault × Option Chain)
  load_request_steps rid = do
    found ← atom (select env pool (request_with_id rid))
    req ← done (require found no_rows)
    wallet ← load_steps wallet_with_id req.wallet_id
    vault ← load_steps vault_with_id (vault_of env wallet)
    chain ← load_steps chain_with_id (chain_of env wallet)
    give (req, wallet, vault, chain)

  unfoldable pub vote_steps : String → ApprovalParams → SigningRequest → Prog (Unit {0})
  vote_steps rid params req = do
    check (null_text req.status == pending) (message "request is not pending")
    exists ← atom (select env pool (has_approval rid params.user_id))
    check (not exists) (message "user already approved")
    aid ← atom (new_uuid env)
    atom (write env pool (insert_approval (approval_row env aid rid params)))

  unfoldable pub complete_steps :
      SigningRequest → Wallet → Option Chain → List Approval → Prog (Unit {0})
  complete_steps req wallet chain approvals = do
    signature ←
        rename
          (atom (
            threshold_sign env wallet.key_id req.tx_data (chain_type_of env chain)
              (auth_tokens env approvals)))
          (wrapped "mpc signing failed")
    atom (
        write env pool
          (update_request (record req { status = some "completed"; signature = some signature })))

  unfoldable pub sign_steps :
      SigningRequest → Wallet → Vault → Option Chain → List Approval → Prog (Unit {0})
  sign_steps req wallet vault chain approvals =
      if leb vault.threshold (length approvals)
      then complete_steps req wallet chain approvals
      else give tt

  unfoldable pub threshold_steps :
      String → SigningRequest → Option Wallet → Option Vault → Option Chain → Prog (Unit {0})
  threshold_steps rid req wallet vault chain = do
    approvals ← atom (select env pool (approvals_of rid))
    x ← done (require wallet panic)
    v ← done (require vault (message "vault not found for wallet"))
    sign_steps req x v chain approvals

  unfoldable pub approve_steps : String → ApprovalParams → Prog (Unit {0})
  approve_steps rid params = do
    (req, wallet, vault, chain) ← rename (load_request_steps rid) (wrapped "request not found")
    vote_steps rid params req
    threshold_steps rid req wallet vault chain

  unfoldable pub reject_steps : String → String → Prog (Unit {0})
  reject_steps rid user_id = do
    found ← atom (select env pool (request_with_id rid))
    req ← done (require found no_rows)
    check (null_text req.status == pending) (message "request is not pending")
    aid ← atom (new_uuid env)
    atom (write env pool (insert_approval (rejection_row aid rid user_id)))
    atom (write env pool (update_request (record req { status = some "rejected" })))

  unfoldable pub create_steps : String → String → String → String → Prog (Unit {0})
  create_steps wallet_id tx_data note user_id = do
    rid ← atom (new_uuid env)
    req ←
        rename
          (atom (write env pool (insert_request (request_row rid wallet_id tx_data note user_id))))
          (wrapped "failed to insert signing request")
    give tt

  unfoldable pub serve_steps : SigningCall → Prog (Unit {0})
  serve_steps (creating wallet_id tx_data note user_id) =
      create_steps wallet_id tx_data note user_id
  serve_steps (approving rid params) = approve_steps rid params
  serve_steps (rejecting rid user_id) = reject_steps rid user_id
  serve_steps (reading rid) = do
    found ← atom (select env pool (request_with_id rid))
    req ← done (require found no_rows)
    give tt
