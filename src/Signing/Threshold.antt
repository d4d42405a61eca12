-- ===== src/Signing/Threshold.antt =====
-- ApproveRequest of internal/service/signing/impl.go: when the MPC services are asked to sign, and
-- what an approval leaves behind.
use go_mpc_vault.Prelude.{
  ℕ, suc, ◌≤◌, String, Bool, true, false, Option, none, some, List, ◌∷◌, ◌≡◌, ◌⊎◌, refl, arith,
  length, eq_refl, ◌==◌, inl, inr, null_text,
}
use go_mpc_vault.Errors.{Error, ok, err, Result-cases}
use go_mpc_vault.Data.{Database}
use go_mpc_vault.Data.VaultTables.{SigningRequest, Approval, Wallet, Vault, Chain}
use go_mpc_vault.Mpc.{ApprovalParams}
use go_mpc_vault.Exec.{
  Env, World, pure, raise, lift, guard, map_error, new_uuid, select, write, next, ◌>>=◌,
}
use go_mpc_vault.Signing.{
  approve_request, load_request, load, check_threshold, sign_if_enough, insert_approval,
  request_with_id, wallet_with_id, vault_with_id, has_approval, approvals_of, pending, approval_row,
  vote, chain_with_id,
}

-- The wallet that a request is to be signed with, and the vault of that wallet.
abbrev pub wallet_of_request : String → Database → Option Wallet
wallet_of_request rid db = elim (request_with_id rid db) [
  | none ↦ none
  | some req ↦ elim req.wallet_id [ none ↦ none | some wid ↦ wallet_with_id wid db ]
]

abbrev pub vault_of_request : String → Database → Option Vault
vault_of_request rid db = elim (wallet_of_request rid db) [
  | none ↦ none
  | some x ↦ elim x.vault_id [ none ↦ none | some vid ↦ vault_with_id vid db ]
]

abbrev pub chain_of_request : String → Database → Option Chain
chain_of_request rid db = elim (wallet_of_request rid db) [
  | none ↦ none
  | some x ↦ elim x.chain_id [ none ↦ none | some cid ↦ chain_with_id cid db ]
]

-- The request is stored and waits for approvals.
abbrev pub is_pending : String → Database → Bool
is_pending rid db = elim (request_with_id rid db) [
  | none ↦ false
  | some req ↦ null_text req.status == pending
]

-- The tables with one more approval.
abbrev pub approved : Env → String → ApprovalParams → ℕ → Database → Database
approved env rid params n db = record db {
  custody = record (db.custody) {
    approvals =
        record (approval_row env (env.uuid n) rid params) {
          created_at = some (env.wall (suc n));
          updated_at = some (env.wall (suc n));
        }
        ∷ db.custody.approvals;
  };
}

module _ (env : Env) (rid : String) where
  load_found :
      {A : Type 0} (f : String → Database → Option A) (k : Option String) (w : World) (o : Option A)
      → (load env f k w).0 ≡ ok o
      → (o ≡ elim k [ none ↦ none | some x ↦ f x w.base ])
        × ((load env f k w).1.base ≡ w.base)
        × ((load env f k w).1.calls ≡ w.calls)
  unfolding load select pure
  load_found f none w o h = (ground arith, refl, refl)
  load_found f (some k) w o h = ground arith

  pub load_request_found :
      (w : World) (req : SigningRequest) (x : Option Wallet) (v : Option Vault) (c : Option Chain)
      → (load_request env rid w).0 ≡ ok (req, x, v, c)
      → (request_with_id rid w.base ≡ some req)
        × (x ≡ wallet_of_request rid w.base)
        × (v ≡ vault_of_request rid w.base)
        × (c ≡ chain_of_request rid w.base)
  unfolding load_request load select lift pure ◌>>=◌
  load_request_found w req x v c h = ground arith

  pub load_request_world :
      (w : World)
      → ((load_request env rid w).1.base ≡ w.base) × ((load_request env rid w).1.calls ≡ w.calls)
  unfolding load_request load select lift pure ◌>>=◌
  load_request_world w = ground arith

  sign_if_enough_calls :
      (req : SigningRequest) (x : Wallet) (v : Vault) (c : Option Chain) (approvals : List Approval)
      (w : World)
      → ((sign_if_enough env req x v c approvals w).1.calls ≡ w.calls)
        ⊎ (v.threshold ≤ length approvals)
  unfolding sign_if_enough pure
  sign_if_enough_calls req x v c approvals w = ground arith

  check_threshold_calls :
      (req : SigningRequest) (x : Option Wallet) (v : Option Vault) (c : Option Chain) (w : World)
      → ((check_threshold env rid req x v c w).1.calls ≡ w.calls)
        ⊎ ((y : Vault) × (v ≡ some y) × (y.threshold ≤ length (approvals_of rid w.base)))
  unfolding check_threshold select lift ◌>>=◌
  check_threshold_calls req none v c w = inl (ground arith)
  check_threshold_calls req (some x) none c w = inl (ground arith)
  check_threshold_calls req (some x) (some v) c w =
      elim (sign_if_enough_calls req x v c (approvals_of rid w.base) (next w)) [
        | inl e ↦ inl (ground arith)
        | inr e ↦ inr (v, refl, e)
      ]

  pub vote_ok :
      (params : ApprovalParams) (req : SigningRequest) (w : World)
      → (vote env rid params req w).0 ≡ ok tt
      → ((null_text req.status == pending) ≡ true)
        × (has_approval rid params.user_id w.base ≡ false)
        × ((vote env rid params req w).1.base ≡ approved env rid params (suc w.asked) w.base)
  unfolding vote select guard pure raise new_uuid write insert_approval ◌>>=◌
  vote_ok params req w h = (ground arith, ground arith, ground arith)

  pub vote_calls :
      (params : ApprovalParams) (req : SigningRequest) (w : World)
      → (vote env rid params req w).1.calls ≡ w.calls
  unfolding vote select guard pure raise new_uuid write insert_approval ◌>>=◌
  vote_calls params req w = ground arith

  pub vote_err :
      (params : ApprovalParams) (req : SigningRequest) (w : World) (e : Error)
      → (vote env rid params req w).0 ≡ err e
      → (vote env rid params req w).1.base ≡ w.base
  unfolding vote select guard pure raise new_uuid write insert_approval ◌>>=◌
  vote_err params req w e h = ground arith

  enough :
      (params : ApprovalParams) (n : ℕ) (y : Vault) (db old new : Database)
      → old ≡ db
      → new ≡ approved env rid params n old
      → y.threshold ≤ length (approvals_of rid new)
      → y.threshold ≤ suc (length (approvals_of rid db))
  enough params n y db old new same stored met = ground (arith, eq_refl rid)

  -- The services are asked to sign only for a pending request, by a user who had not approved it
  -- yet, and only if with this approval the request has as many as its vault demands.
  pub signs_only_at_threshold :
      (params : ApprovalParams) (w : World)
      → ((approve_request env rid params w).1.calls ≡ w.calls)
        ⊎ ((v : Vault) × (vault_of_request rid w.base ≡ some v)
            × (is_pending rid w.base ≡ true)
            × (has_approval rid params.user_id w.base ≡ false)
            × (v.threshold ≤ suc (length (approvals_of rid w.base))))
  unfolding approve_request map_error ◌>>=◌
  signs_only_at_threshold params w = elim (Result-cases (load_request env rid w).0) [
    | inr (e, h) ↦ inl (ground (arith, load_request_world w))
    | inl ((req, x, v, c), h) ↦
        let w' : World = (load_request env rid w).1 in
        elim (Result-cases (vote env rid params req w').0) [
          | inr (e, k) ↦ inl (ground (arith, load_request_world w, vote_calls params req w'))
          | inl (u, k) ↦ elim (check_threshold_calls req x v c (vote env rid params req w').1) [
            | inl e ↦ inl (ground (arith, load_request_world w, vote_calls params req w'))
            | inr (y, e, met) ↦ inr (
              y,
              ground (arith, load_request_found w req x v c h),
              ground (arith, load_request_found w req x v c h, vote_ok params req w' k),
              ground (arith, load_request_world w, vote_ok params req w' k),
              enough params (suc w'.asked) y w.base w'.base _ (load_request_world w).0
                  (vote_ok params req w' k).2 met,
            )
          ]
        ]
  ]
