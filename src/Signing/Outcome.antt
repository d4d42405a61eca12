-- ===== src/Signing/Outcome.antt =====
-- ApproveRequest of internal/service/signing/impl.go: what it leaves behind when it returns, with and
-- without an error.
use go_mpc_vault.Prelude.{
  ℕ, suc, String, true, Option, none, some, List, ◌∷◌, [], map, refl, ◌≡◌, ◌≢◌, ◌⊎◌, arith, ◌==◌,
  inl, inr, update_where,
}
use go_mpc_vault.Errors.{Error, ok, err, Result-cases}
use go_mpc_vault.Data.{Database}
use go_mpc_vault.Data.VaultTables.{SigningRequest, Approval, Wallet, Vault, Chain}
use go_mpc_vault.Mpc.{ApprovalParams, InfraToken, ThresholdSignRequest, signs}
use go_mpc_vault.Exec.{
  Env, World, pure, raise, lift, guard, map_error, select, write, send_sign, next, ◌>>=◌,
}
use go_mpc_vault.Signing.{
  approve_request, load_request, check_threshold, sign_if_enough, complete, vote, threshold_sign,
  update_request, has_approval, approvals_of, auth_tokens, infra_token,
}
use go_mpc_vault.Signing.Threshold.{approved, load_request_world, vote_ok, vote_err}

-- The request as UPDATE leaves it, at time `t`.
abbrev pub completed_row : SigningRequest → String → ℕ → SigningRequest → SigningRequest
completed_row req signature t q = record req {
  id = q.id;
  status = some "completed";
  signature = some signature;
  created_at = q.created_at;
  updated_at = some t;
}

abbrev pub completed : SigningRequest → String → ℕ → Database → Database
completed req signature t db = record db {
  custody = record (db.custody) {
    requests =
        update_where (λ q. q.id == req.id) (completed_row req signature t) db.custody.requests;
  };
}

module _ (env : Env) (rid : String) where
  -- What the services are given of an approval, from the text that it carries.
  abbrev pub token_of : String → InfraToken
  token_of text = record {
    passkey_signature = (env.unmarshal text).signature;
    authenticator_data = (env.unmarshal text).authenticator_data;
    client_data_json = (env.unmarshal text).client_data_json;
    credential_id = env.base64_url (env.unmarshal text).credential_id;
  }

  abbrev pub comments : List Approval → List String
  comments [] = []
  comments (a ∷ rest) =
      let later = comments rest in elim a.comment [ none ↦ later | some text ↦ text ∷ later ]

  tokens_sent :
      (approvals : List Approval)
      → map (infra_token env) (auth_tokens env approvals) ≡ map token_of (comments approvals)
  tokens_sent [] = refl
  tokens_sent (a ∷ rest) = ground (arith, tokens_sent rest)

  -- What the services are asked to sign: the transaction with the key of the wallet, for the type of
  -- its chain, with what every approval carries.
  abbrev pub order : SigningRequest → Wallet → Option Chain → List Approval → ThresholdSignRequest
  order req x c approvals = record {
    key_id = x.key_id;
    message_hex = req.tx_data;
    chain_type = elim c [ none ↦ "evm" | some x ↦ x.chain_type ];
    auth_tokens = map token_of (comments approvals);
  }

  pub complete_ok :
      (req : SigningRequest) (x : Wallet) (c : Option Chain) (approvals : List Approval) (w : World)
      → (complete env req x c approvals w).0 ≡ ok tt
      → (signature : String) × (env.threshold_sign w.asked (order req x c approvals) ≡ ok signature)
        × ((complete env req x c approvals w).1.calls ≡ signs (order req x c approvals) ∷ w.calls)
        × ((complete env req x c approvals w).1.base
            ≡ completed req signature (env.wall (suc w.asked)) w.base)
  unfolding complete map_error threshold_sign send_sign write update_request ◌>>=◌
  complete_ok req x c approvals w h =
      elim (Result-cases (env.threshold_sign w.asked (order req x c approvals))) [
        | inr (e, k) ↦ absurd (ground (arith, tokens_sent approvals))
        | inl (s, k) ↦
            (s, k, ground (arith, tokens_sent approvals), ground (arith, tokens_sent approvals))
      ]

  complete_err :
      (req : SigningRequest) (x : Wallet) (c : Option Chain) (approvals : List Approval) (w : World)
      (e : Error)
      → (complete env req x c approvals w).0 ≡ err e
      → (complete env req x c approvals w).1.base ≡ w.base
  unfolding complete map_error threshold_sign send_sign write update_request ◌>>=◌
  complete_err req x c approvals w e h = ground arith

  check_threshold_err :
      (req : SigningRequest) (x : Option Wallet) (v : Option Vault) (c : Option Chain) (w : World)
      (e : Error)
      → (check_threshold env rid req x v c w).0 ≡ err e
      → (check_threshold env rid req x v c w).1.base ≡ w.base
  unfolding check_threshold sign_if_enough select lift pure ◌>>=◌
  check_threshold_err req none v c w e h = ground arith
  check_threshold_err req (some x) none c w e h = ground arith
  check_threshold_err req (some x) (some v) c w e h =
      ground (arith, complete_err req x c (approvals_of rid w.base) (next w) e)

  -- An approval that returns an error has left the tables as they were, or it has stored the
  -- approval and nothing else: the request is not marked as failed.
  pub approve_request_failed :
      (params : ApprovalParams) (w : World) (e : Error)
      → (approve_request env rid params w).0 ≡ err e
      → ((approve_request env rid params w).1.base ≡ w.base)
        ⊎ ((n : ℕ) × ((approve_request env rid params w).1.base ≡ approved env rid params n w.base))
  unfolding approve_request map_error ◌>>=◌
  approve_request_failed params w e h = elim (Result-cases (load_request env rid w).0) [
    | inr (x, k) ↦ inl (ground (arith, load_request_world env rid w))
    | inl ((req, x, v, c), k) ↦
        let w' : World = (load_request env rid w).1 in
        elim (Result-cases (vote env rid params req w').0) [
          | inr (y, l) ↦
              inl (ground (arith, load_request_world env rid w, vote_err env rid params req w' y l))
          | inl (u, l) ↦ inr (
            suc w'.asked,
            ground (
              arith,
              load_request_world env rid w,
              vote_ok env rid params req w' l,
              check_threshold_err req x v c (vote env rid params req w').1 e,
            ),
          )
        ]
  ]

  -- Who has approved a request is refused to approve it again, and nothing is signed or stored. As
  -- an approval stays stored when signing fails, signing is not tried again for them.
  pub approve_request_again :
      (params : ApprovalParams) (w : World)
      → has_approval rid params.user_id w.base ≡ true
      → ((approve_request env rid params w).0 ≢ ok tt)
        × ((approve_request env rid params w).1.base ≡ w.base)
        × ((approve_request env rid params w).1.calls ≡ w.calls)
  unfolding approve_request map_error vote select guard raise pure ◌>>=◌
  approve_request_again params w h = (
    ground (arith, load_request_world env rid w),
    ground (arith, load_request_world env rid w),
    ground (arith, load_request_world env rid w),
  )
