-- ===== src/Signing/Interleaved.antt =====
-- internal/service/signing/impl.go with any number of calls at the same time, interleaved statement
-- by statement.
use go_mpc_vault.Prelude.{
  ℕ, String, true, Option, none, some, List, ◌≡◌, ◌≤◌, refl, arith, length, inl, inr, Bool-cases,
  leb, sym,
}
use go_mpc_vault.Errors.{wrapped}
use go_mpc_vault.Data.VaultTables.{SigningRequest, Approval, Wallet, Vault, Chain}
use go_mpc_vault.Mpc.{ApprovalParams}
use go_mpc_vault.Exec.{Env, World, pool, write, new_uuid}
use go_mpc_vault.Exec.Rely.{Safe, Safe-bind, Safe-rename, Reach-AllSafe}
use go_mpc_vault.Exec.Steps.{atom, ◌>>=◌, System, Reach}
use go_mpc_vault.Signing.{approvals_of, insert_approval, update_request, rejection_row, request_row}
use go_mpc_vault.Signing.Calls.{SigningCall, creating, approving, rejecting, reading}
use go_mpc_vault.Signing.Steps.{
  vote_steps, complete_steps, sign_steps, threshold_steps, approve_steps, reject_steps,
  create_steps, serve_steps,
}
use go_mpc_vault.Signing.Votes.{
  is_lawful, insert_approval-Sound, insert_request-Sound, update_request-Sound,
}
use go_mpc_vault.Signing.Backing.{Grown, Grown-trans, Backing, IsJustified, signing}
use go_mpc_vault.Signing.Growth.{insert_approval-Grown, insert_request-Grown}
use go_mpc_vault.Signing.Rules.{
  Any, Safe-select, Safe-new_uuid, Safe-write, Safe-threshold_sign, Safe-check, Safe-then,
  Safe-named, step_rules,
}
use go_mpc_vault.Signing.Known.{Known, Loaded, Loaded-Grown, update_stored-Grown}
use go_mpc_vault.Signing.Loading.{Safe-find, Safe-load_request}

module _ (env : Env) where
  Safe-vote :
      (rid : String) (params : ApprovalParams) (req : SigningRequest) (w : World)
      → Safe signing Any (vote_steps env rid params req) w
  unfolding vote_steps
  Safe-vote rid params req w =
      search (step_rules, insert_approval-Sound, insert_approval-Grown) depth 20

  Safe-create :
      (wallet_id tx_data note uid : String) (w : World)
      → Safe signing Any (create_steps env wallet_id tx_data note uid) w
  unfolding create_steps
  Safe-create wallet_id tx_data note uid w =
      search
        (
          step_rules,
          insert_request-Sound (request_row _ wallet_id tx_data note uid) refl,
          insert_request-Grown,
        )
        depth 20

  Safe-read : (rid : String) (w : World) → Safe signing Any (serve_steps env (reading rid)) w
  unfolding serve_steps
  Safe-read rid w = search (step_rules) depth 20

  -- The request is stored with another status.
  Safe-settle :
      (rid : String) (req row : SigningRequest) (w u : World)
      → is_lawful row ≡ true
      → row.id ≡ req.id
      → row.tx_data ≡ req.tx_data
      → row.wallet_id ≡ req.wallet_id
      → Known rid req w
      → Grown w.base u.base
      → Safe signing Any (atom (write env pool (update_request row))) u
  Safe-settle rid req row w u lawful id tx wallet known grown =
      Safe-write env (update_request row) u (update_request-Sound row lawful) (λ s db g.
        update_stored-Grown rid req row w s db id tx wallet known
          (Grown-trans w.base u.base db grown g))

  Safe-reject : (rid uid : String) (w : World) → Safe signing Any (reject_steps env rid uid) w
  unfolding reject_steps
  Safe-reject rid uid w = Safe-find env Any rid _ w (λ req u known.
      Safe-then Any _ _ u (Safe-check env _ _ u) (λ ok u1 g1.
        Safe-then Any (atom (new_uuid env)) _ u1 (Safe-new_uuid env u1) (λ aid u2 g2.
          Safe-then Any (atom (write env pool (insert_approval (rejection_row aid rid uid)))) _ u2
            (search (step_rules, insert_approval-Sound, insert_approval-Grown) depth 20)
            (λ stored u3 g3.
              Safe-settle rid req (record req { status = some "rejected" }) u u3 refl refl refl refl
                known
                (Grown-trans u.base u1.base u3.base g1
                  (Grown-trans u1.base u2.base u3.base g2 g3))))))

  Safe-complete :
      (rid : String) (req : SigningRequest) (x : Wallet) (v : Vault) (c : Option Chain)
      (approvals : List Approval) (w : World)
      → Loaded rid req (some x) (some v) w
      → v.threshold ≤ length (approvals_of rid w.base)
      → Safe signing Any (complete_steps env req x c approvals) w
  unfolding complete_steps
  Safe-complete rid req x v c approvals w l met =
      let backing : Backing x.key_id req.tx_data w.base = record {
        rid = rid;
        req = l.known.1.row;
        wallet = x;
        vault = v;
        stored = rw (sym l.known.0) l.known.1.stored;
        tx = l.known.1.tx;
        key_of = l.key_of x refl;
        key = refl;
        vault_of = l.vault_of v refl;
        met = met;
      } in
      Safe-then Any _ _ w
        (Safe-named Any _ (wrapped "mpc signing failed") w
          (Safe-threshold_sign env x.key_id req.tx_data _ _ w backing))
        (λ signature u grown.
          Safe-settle rid req (record req { status = some "completed"; signature = some signature })
            w u refl refl refl refl l.known grown)

  Safe-sign :
      (rid : String) (req : SigningRequest) (x : Wallet) (v : Vault) (c : Option Chain)
      (approvals : List Approval) (w : World)
      → Loaded rid req (some x) (some v) w
      → length approvals ≤ length (approvals_of rid w.base)
      → Safe signing Any (sign_steps env req x v c approvals) w
  unfolding sign_steps
  Safe-sign rid req x v c approvals w l counted =
      elim (Bool-cases (leb v.threshold (length approvals))) [
        | inl e ↦ rw e (Safe-complete rid req x v c approvals w l (ground arith))
        | inr e ↦ rw e tt
      ]

  Safe-threshold :
      (rid : String) (req : SigningRequest) (x : Option Wallet) (v : Option Vault)
      (c : Option Chain) (w : World)
      → Loaded rid req x v w
      → Safe signing Any (threshold_steps env rid req x v c) w
  unfolding threshold_steps ◌>>=◌
  Safe-threshold rid req none v c w l = search (step_rules) depth 20
  Safe-threshold rid req (some x) none c w l = search (step_rules) depth 20
  Safe-threshold rid req (some x) (some v) c w l =
      Safe-bind signing (λ a u. length a ≤ length (approvals_of rid u.base)) Any _ _ w
        (Safe-select env (approvals_of rid) (λ a u. length a ≤ length (approvals_of rid u.base)) w
          (λ u grown. omega arith))
        (λ a u grown counted.
          Safe-sign rid req x v c a u (Loaded-Grown rid req (some x) (some v) w u grown l) counted)

  Safe-approve :
      (rid : String) (params : ApprovalParams) (w : World)
      → Safe signing Any (approve_steps env rid params) w
  unfolding approve_steps
  Safe-approve rid params w =
      Safe-bind signing (λ (req, x, v, c) u. Loaded rid req x v u) Any _ _ w
        (Safe-rename signing _ _ (wrapped "request not found") w (Safe-load_request env rid w))
        (λ (req, x, v, c) u grown loaded.
          Safe-then Any (vote_steps env rid params req) _ u (Safe-vote rid params req u)
            (λ a u1 g1. Safe-threshold rid req x v c u1 (Loaded-Grown rid req x v u u1 g1 loaded)))

  Safe-serve : (c : SigningCall) (w : World) → Safe signing Any (serve_steps env c) w
  unfolding serve_steps
  Safe-serve (creating wallet_id tx_data note uid) w = Safe-create wallet_id tx_data note uid w
  Safe-serve (approving rid params) w = Safe-approve rid params w
  Safe-serve (rejecting rid uid) w = Safe-reject rid uid w
  Safe-serve (reading rid) w = Safe-read rid w

  -- The clients that make these calls, none of them started yet.
  abbrev pub serving : World → (ℕ → SigningCall) → System (Unit {0})
  serving w calls = record { world = w; clients = λ i. serve_steps env (calls i) }

  -- However the calls of any number of clients are interleaved, statement by statement, and whatever
  -- fails in them: no user has two votes on one request, no two requests have the same identifier,
  -- every request is pending, rejected, or completed with a signature, and each message that was
  -- sent to be signed is the transaction of a stored request, to be signed with the key of its
  -- wallet, which has as many approvals as the vault of the wallet demands.
  pub interleaved-IsJustified :
      (w : World) (calls : ℕ → SigningCall) (s : System (Unit {0}))
      → IsJustified w
      → Reach (serving w calls) s
      → IsJustified s.world
  interleaved-IsJustified w calls s good reach =
      (Reach-AllSafe signing reach (good, λ i. Safe-serve (calls i) w)).0
