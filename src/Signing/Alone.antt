-- ===== src/Signing/Alone.antt =====
-- The step by step methods of internal/service/signing/impl.go, run with nothing in between, and the
-- methods as whole requests.
use go_mpc_vault.Prelude.{String, Option, none, some, List, ◌≡◌, refl, arith}
use go_mpc_vault.Errors.{Result, ok, err, wrapped}
use go_mpc_vault.Data.VaultTables.{SigningRequest, Approval, Wallet, Vault, Chain}
use go_mpc_vault.Mpc.{ApprovalParams}
use go_mpc_vault.Exec
use go_mpc_vault.Exec.{
  M, continue, renamed, next, Env, World, new_uuid, select, write, lift, guard, map_error, pure,
  raise,
}
use go_mpc_vault.Exec.Steps.{run, rename, atom, ◌>>=◌, ◌>>◌, run-bind, run-rename}
use go_mpc_vault.Signing.{
  create_request, load, load_request, complete, sign_if_enough, check_threshold, vote, approvals_of,
  approve_request, reject_request, get_request,
}
use go_mpc_vault.Signing.Calls.{SigningCall, creating, approving, rejecting, reading, serve}
use go_mpc_vault.Signing.Steps.{
  load_request_steps, vote_steps, complete_steps, sign_steps, threshold_steps, approve_steps,
  reject_steps, create_steps, serve_steps,
}

continue_eq :
    {A B : Type 0} (r : Result A) (f g : A → M B) (w : World)
    → ((a : A) (u : World) → f a u ≡ g a u)
    → continue r f w ≡ continue r g w
continue_eq (ok a) f g w same = same a w
continue_eq (err e) f g w same = refl

module _ (env : Env) where
  load_request_alone :
      (rid : String) (w : World) → run (load_request_steps env rid) w ≡ load_request env rid w
  unfolding load_request load_request_steps load select lift pure Exec.◌>>=◌ run ◌>>=◌ atom rename
  load_request_alone rid w = ground arith

  vote_alone :
      (rid : String) (params : ApprovalParams) (req : SigningRequest) (w : World)
      → run (vote_steps env rid params req) w ≡ vote env rid params req w
  unfolding vote vote_steps select guard write new_uuid pure raise Exec.◌>>=◌ run ◌>>=◌ atom rename
  vote_alone rid params req w = ground arith

  complete_alone :
      (req : SigningRequest) (x : Wallet) (c : Option Chain) (approvals : List Approval) (w : World)
      → run (complete_steps env req x c approvals) w ≡ complete env req x c approvals w
  unfolding complete complete_steps write map_error Exec.◌>>=◌ run ◌>>=◌ atom rename
  complete_alone req x c approvals w = ground arith

  sign_alone :
      (req : SigningRequest) (x : Wallet) (v : Vault) (c : Option Chain) (approvals : List Approval)
      (w : World)
      → run (sign_steps env req x v c approvals) w ≡ sign_if_enough env req x v c approvals w
  unfolding sign_if_enough sign_steps pure run
  sign_alone req x v c approvals w = ground (arith, complete_alone req x c approvals w)

  threshold_alone :
      (rid : String) (req : SigningRequest) (x : Option Wallet) (v : Option Vault)
      (c : Option Chain) (w : World)
      → run (threshold_steps env rid req x v c) w ≡ check_threshold env rid req x v c w
  unfolding check_threshold threshold_steps select lift Exec.◌>>=◌ run ◌>>=◌ atom rename
  threshold_alone rid req none v c w = ground arith
  threshold_alone rid req (some x) none c w = ground arith
  threshold_alone rid req (some x) (some v) c w =
      ground (arith, sign_alone req x v c (approvals_of rid w.base) (next w))

  after_vote_alone :
      (rid : String) (params : ApprovalParams) (req : SigningRequest) (x : Option Wallet)
      (v : Option Vault) (c : Option Chain) (w : World)
      → run (vote_steps env rid params req >> threshold_steps env rid req x v c) w
        ≡ Exec.◌>>◌ (vote env rid params req) (check_threshold env rid req x v c) w
  unfolding Exec.◌>>=◌
  after_vote_alone rid params req x v c w =
      rw
        (
          run-bind (vote_steps env rid params req) (λ _. threshold_steps env rid req x v c) w,
          vote_alone rid params req w,
        )
        (continue_eq (vote env rid params req w).0 _ _ _ (λ _. threshold_alone rid req x v c))

  approve_alone :
      (rid : String) (params : ApprovalParams) (w : World)
      → run (approve_steps env rid params) w ≡ approve_request env rid params w
  unfolding approve_steps approve_request map_error Exec.◌>>=◌
  approve_alone rid params w =
      rw
        (
          run-bind (rename (load_request_steps env rid) (wrapped "request not found"))
              (λ (req, x, v, c). vote_steps env rid params req >> threshold_steps env rid req x v c)
              w,
          run-rename (load_request_steps env rid) (wrapped "request not found") w,
          load_request_alone rid w,
        )
        (continue_eq (renamed (load_request env rid w).0 (wrapped "request not found")) _ _ _
          (λ (req, x, v, c). after_vote_alone rid params req x v c))

  reject_alone :
      (rid uid : String) (w : World)
      → run (reject_steps env rid uid) w ≡ reject_request env rid uid w
  unfolding reject_steps reject_request select write new_uuid guard pure raise lift Exec.◌>>=◌ run
      ◌>>=◌ atom rename
  reject_alone rid uid w = ground arith

  create_alone :
      (wallet_id tx_data note uid : String) (w : World)
      → run (create_steps env wallet_id tx_data note uid) w
        ≡ serve env (creating wallet_id tx_data note uid) w
  unfolding serve create_steps create_request write new_uuid map_error pure Exec.◌>>=◌ run ◌>>=◌
      atom rename
  create_alone wallet_id tx_data note uid w = ground arith

  read_alone :
      (rid : String) (w : World) → run (serve_steps env (reading rid)) w ≡ serve env (reading rid) w
  unfolding serve serve_steps get_request select lift pure Exec.◌>>=◌ run ◌>>=◌ atom rename
  read_alone rid w = ground arith

  -- A method that no other request interrupts does the same step by step as in one piece: the same
  -- answer, the same tables and the same calls of the MPC services.
  serve_steps_alone : (c : SigningCall) (w : World) → run (serve_steps env c) w ≡ serve env c w
  unfolding serve_steps serve
  serve_steps_alone (creating wallet_id tx_data note uid) w =
      create_alone wallet_id tx_data note uid w
  serve_steps_alone (approving rid params) w = approve_alone rid params w
  serve_steps_alone (rejecting rid uid) w = reject_alone rid uid w
  serve_steps_alone (reading rid) w = read_alone rid w
