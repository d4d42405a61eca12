-- ===== src/Signing/Decision.antt =====
-- ApproveRequest of internal/service/signing/impl.go: the two things that an approval that succeeds
-- can do.
use go_mpc_vault.Prelude.{
  ℕ, suc, ◌≤◌, ◌<◌, String, true, false, Option, none, some, ◌∷◌, ◌≡◌, ◌⊎◌, refl, arith, length,
  leb, eq_refl, inl, inr, Bool-cases,
}
use go_mpc_vault.Errors.{ok, Result-cases}
use go_mpc_vault.Data.VaultTables.{SigningRequest, Wallet, Vault, Chain}
use go_mpc_vault.Mpc.{ApprovalParams, signs}
use go_mpc_vault.Exec.{Env, World, pure, lift, map_error, select, next, ◌>>=◌}
use go_mpc_vault.Signing.{
  approve_request, load_request, check_threshold, sign_if_enough, complete, vote, request_with_id,
  has_approval, approvals_of,
}
use go_mpc_vault.Signing.Threshold.{
  approved, vault_of_request, wallet_of_request, chain_of_request, is_pending, load_request_found,
  load_request_world, vote_ok, vote_calls,
}
use go_mpc_vault.Signing.Outcome.{completed, order, complete_ok}

module _ (env : Env) (rid : String) where
  -- What the world is to be once the approvals suffice: one call, whose answer is stored.
  pub record Signed (params : ApprovalParams) (req : SigningRequest) (x : Wallet) (n : ℕ)
      (w w' : World) : Type 0 where
    pub answered : ℕ
    pub stored : ℕ
    pub signature : String
    pub answer :
        env.threshold_sign answered (
          order env rid req x
            (chain_of_request rid w.base)
            (approvals_of rid (approved env rid params n w.base)))
        ≡ ok signature
    pub calls :
        w'.calls
        ≡ signs (
            order env rid req x
              (chain_of_request rid w.base)
              (approvals_of rid (approved env rid params n w.base)))
          ∷ w.calls
    pub base : w'.base ≡ completed req signature stored (approved env rid params n w.base)

  Signed-complete :
      (params : ApprovalParams) (req : SigningRequest) (x : Wallet) (n : ℕ) (w w' : World)
      → w'.base ≡ approved env rid params n w.base
      → w'.calls ≡ w.calls
      → (complete env req x (chain_of_request rid w.base) (approvals_of rid w'.base) w').0 ≡ ok tt
      → Signed params req x n w
          (complete env req x (chain_of_request rid w.base) (approvals_of rid w'.base) w').1
  Signed-complete params req x n w w' base calls h =
      let (s, a, b, d) =
        complete_ok env rid req x (chain_of_request rid w.base) (approvals_of rid w'.base) w' h in
      record {
        answered = w'.asked;
        stored = env.wall (suc w'.asked);
        signature = s;
        answer = rw base at a;
        calls = ground arith;
        base = ground arith;
      }

  approve_request_steps :
      (params : ApprovalParams) (w : World)
      → (approve_request env rid params w).0 ≡ ok tt
      → (req : SigningRequest) × (x : Option Wallet) × (v : Option Vault) × (c : Option Chain)
        × ((load_request env rid w).0 ≡ ok (req, x, v, c))
        × ((vote env rid params req (load_request env rid w).1).0 ≡ ok tt)
        × (approve_request env rid params w
            ≡ check_threshold env rid req x v c
                (vote env rid params req (load_request env rid w).1).1)
  unfolding approve_request map_error ◌>>=◌
  approve_request_steps params w h = elim (Result-cases (load_request env rid w).0) [
    | inr (y, k) ↦ absurd (ground arith)
    | inl ((req, x, v, c), k) ↦
        elim (Result-cases (vote env rid params req (load_request env rid w).1).0) [
          | inr (y, l) ↦ absurd (ground arith)
          | inl (u, l) ↦ (req, x, v, c, k, l, ground arith)
        ]
  ]

  -- Either the threshold is not met, or the request is signed.
  abbrev pub Decided : ApprovalParams → SigningRequest → Wallet → Vault → ℕ → World → World → Type 0
  Decided params req x v n w w' =
      ((suc (length (approvals_of rid w.base)) < v.threshold)
        × (w'.calls ≡ w.calls)
        × (w'.base ≡ approved env rid params n w.base))
      ⊎ ((v.threshold ≤ suc (length (approvals_of rid w.base))) × Signed params req x n w w')

  check_threshold_found :
      (req : SigningRequest) (x : Option Wallet) (v : Option Vault) (c : Option Chain) (w : World)
      → (check_threshold env rid req x v c w).0 ≡ ok tt
      → (y : Wallet) × (z : Vault) × (x ≡ some y) × (v ≡ some z)
  unfolding check_threshold select lift ◌>>=◌
  check_threshold_found req none v c w h = absurd (ground arith)
  check_threshold_found req (some x) none c w h = absurd (ground arith)
  check_threshold_found req (some x) (some v) c w h = (x, v, refl, refl)

  check_threshold_met :
      (req : SigningRequest) (x : Wallet) (v : Vault) (c : Option Chain) (w : World)
      → leb v.threshold (length (approvals_of rid w.base)) ≡ true
      → (check_threshold env rid req (some x) (some v) c w).0 ≡ ok tt
      → check_threshold env rid req (some x) (some v) c w
        ≡ complete env req x c (approvals_of rid w.base) (next w)
  unfolding check_threshold sign_if_enough select lift pure ◌>>=◌
  check_threshold_met req x v c w e h = ground arith

  check_threshold-Decided :
      (params : ApprovalParams) (req : SigningRequest) (x : Wallet) (v : Vault) (c : Option Chain)
      (n : ℕ) (w w' : World)
      → c ≡ chain_of_request rid w.base
      → w'.base ≡ approved env rid params n w.base
      → w'.calls ≡ w.calls
      → (check_threshold env rid req (some x) (some v) c w').0 ≡ ok tt
      → Decided params req x v n w (check_threshold env rid req (some x) (some v) c w').1
  unfolding check_threshold sign_if_enough select lift pure ◌>>=◌
  check_threshold-Decided params req x v c n w w' chain base calls h =
      elim (Bool-cases (leb v.threshold (length (approvals_of rid w'.base)))) [
        | inl e ↦
            let same = check_threshold_met req x v c w' e h in
            inr (
              ground (arith, eq_refl rid),
              rw (same, chain)
                  (Signed-complete params req x n w (next w') base calls (rw (same, chain) at h)),
            )
        | inr e ↦ inl (ground (arith, eq_refl rid), ground arith, ground arith)
      ]

  -- An approval that succeeds is of a pending request that its user had not approved yet. If the
  -- vault demands more approvals, it is stored and nothing is signed. Otherwise the services have
  -- been asked to sign once, with the data that all approvals carry, and the request is completed with
  -- their answer.
  pub approve_request_ok :
      (params : ApprovalParams) (w : World)
      → (approve_request env rid params w).0 ≡ ok tt
      → (is_pending rid w.base ≡ true)
        × (has_approval rid params.user_id w.base ≡ false)
        × ((req : SigningRequest) × (x : Wallet) × (v : Vault) × (n : ℕ) × (request_with_id rid
                w.base
              ≡ some req)
            × (wallet_of_request rid w.base ≡ some x)
            × (vault_of_request rid w.base ≡ some v)
            × Decided params req x v n w (approve_request env rid params w).1)
  approve_request_ok params w h =
      let (req, x, v, c, k, l, same) = approve_request_steps params w h in
      let w' : World = (load_request env rid w).1 in
      let w2 : World = (vote env rid params req w').1 in
      let (a, b, d, e) = load_request_found env rid w req x v c k in
      let (f, g, i) = vote_ok env rid params req w' l in
      let (stays, silent) = load_request_world env rid w in
      let ended : (check_threshold env rid req x v c w2).0 ≡ ok tt = rw same at h in
      let (y, z, m, o) = check_threshold_found req x v c w2 ended in
      (
        ground arith,
        ground arith,
        (
          req,
          y,
          z,
          suc w'.asked,
          a,
          ground arith,
          ground arith,
          rw same (
              rw (m, o)
                (check_threshold-Decided params req y z c (suc w'.asked) w w2 e (ground arith)
                  (ground (arith, vote_calls env rid params req w')) (rw (m, o) at ended))),
        ),
      )
