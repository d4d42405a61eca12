-- ===== src/Signing/Settled.antt =====
-- Requests of internal/service/signing/impl.go that are completed or rejected, under later calls.
use go_mpc_vault.Prelude.{
  suc, String, true, false, some, List, [], ◌∷◌, ◌≡◌, refl, arith, find, any, eq_iff, ◌==◌, inl,
  inr, null_text, Bool-cases, Option-cases, update_where,
}
use go_mpc_vault.Prelude.Tables.{find-update_where_ne}
use go_mpc_vault.Errors.{Result-cases}
use go_mpc_vault.Data.{Database}
use go_mpc_vault.Data.VaultTables.{SigningRequest}
use go_mpc_vault.Mpc.{ApprovalParams}
use go_mpc_vault.Exec.{
  Env, World, pure, raise, lift, guard, map_error, new_uuid, select, write, ◌>>=◌,
}
use go_mpc_vault.Signing.{
  create_request, approve_request, reject_request, get_request, insert_request, insert_approval,
  update_request, request_with_id, pending,
}
use go_mpc_vault.Signing.Threshold.{approved}
use go_mpc_vault.Signing.Outcome.{approve_request_failed}
use go_mpc_vault.Signing.Decision.{approve_request_ok}
use go_mpc_vault.Signing.Calls.{
  SigningCall, creating, approving, rejecting, reading, serve, serve_all,
}

find-id :
    (k : String) (rows : List SigningRequest) (r : SigningRequest)
    → find (λ v. v.id == k) rows ≡ some r
    → r.id ≡ k
find-id k [] r h = cc
find-id k (v ∷ rows) r h = ground (arith, find-id k rows r, eq_iff v.id k)

find-any :
    (k : String) (rows : List SigningRequest) (r : SigningRequest)
    → find (λ v. v.id == k) rows ≡ some r
    → any (λ v. v.id == k) rows ≡ true
find-any k [] r h = cc
find-any k (v ∷ rows) r h = ground (arith, find-any k rows r)

module _ (rid : String) (row : SigningRequest) where
  -- The request is stored as `row`, which waits for no approval.
  abbrev pub Settled : Database → Type 0
  Settled db = (request_with_id rid db ≡ some row) × ((null_text row.status == pending) ≡ false)

  other :
      (k : String) (req : SigningRequest) (db : Database)
      → Settled db
      → request_with_id k db ≡ some req
      → (null_text req.status == pending) ≡ true
      → (req.id == rid) ≡ false
  other k req db h found wait =
      ground (arith, eq_iff req.id rid, find-id k db.custody.requests req found)

  update_other :
      (req : SigningRequest) (f : SigningRequest → SigningRequest) (db : Database)
      → Settled db
      → (req.id == rid) ≡ false
      → ((q : SigningRequest) → (f q).id ≡ q.id)
      → Settled (record db {
        custody = record (db.custody) {
          requests = update_where (λ q. q.id == req.id) f db.custody.requests;
        };
      })
  update_other req f db h ne same =
      (rw (find-update_where_ne (λ q. q.id) req.id rid f db.custody.requests same ne) h.0, h.1)

  module _ (env : Env) where
    create_request-Settled :
        (wallet_id tx_data note user_id : String) (w : World)
        → Settled w.base
        → Settled (create_request env wallet_id tx_data note user_id w).1.base
    unfolding create_request map_error new_uuid write insert_request ◌>>=◌
    create_request-Settled wallet_id tx_data note user_id w h = (
      ground (arith, find-any rid w.base.custody.requests row h.0, eq_iff (env.uuid w.asked) rid),
      h.1,
    )

    reject_request-Settled :
        (k uid : String) (w : World) → Settled w.base → Settled (reject_request env k uid w).1.base
    unfolding reject_request select lift guard raise pure new_uuid write insert_approval
        update_request ◌>>=◌
    reject_request-Settled k uid w h = elim (Option-cases (request_with_id k w.base)) [
      | inl e ↦ (ground arith, h.1)
      | inr (req, e) ↦ elim (Bool-cases (null_text req.status == pending)) [
        | inr settled ↦ (ground arith, h.1)
        | inl wait ↦ (
          ground (
            arith,
            find-update_where_ne (λ q. q.id) req.id rid
                (λ (q : SigningRequest). record req {
                  id = q.id;
                  status = some "rejected";
                  created_at = q.created_at;
                  updated_at = some (env.wall (suc (suc (suc w.asked))));
                })
                w.base.custody.requests (λ q. refl) (other k req w.base h e wait),
          ),
          h.1,
        )
      ]
    ]

    approve_request-Settled :
        (k : String) (params : ApprovalParams) (w : World)
        → Settled w.base
        → Settled (approve_request env k params w).1.base
    approve_request-Settled k params w h = elim (Result-cases (approve_request env k params w).0) [
      | inr (e, l) ↦ elim (approve_request_failed env k params w e l) [
        | inl same ↦ rw same h
        | inr (n, same) ↦ rw same h
      ]
      | inl (u, l) ↦
          let (wait, fresh, (req, x, v, n, found, a, b, done)) =
            approve_request_ok env k params w l in
          elim done [
            | inl (few, silent, same) ↦ rw same h
            | inr (enough, signed) ↦ rw signed.base (
                update_other req _ (approved env k params n w.base) h
                  (other k req w.base h found (ground arith)) (λ q. refl))
          ]
    ]

    serve-Settled : (c : SigningCall) (w : World) → Settled w.base → Settled (serve env c w).1.base
    unfolding serve get_request select lift pure ◌>>=◌
    serve-Settled (creating wallet_id tx_data note user_id) w h =
        (ground (arith, create_request-Settled wallet_id tx_data note user_id w h), h.1)
    serve-Settled (approving k params) w h = approve_request-Settled k params w h
    serve-Settled (rejecting k uid) w h = reject_request-Settled k uid w h
    serve-Settled (reading k) w h = (ground arith, h.1)

    -- Whatever calls follow, in whatever order and with whatever failures, a request that is not
    -- pending is neither signed, rejected nor changed in any other way.
    pub serve_all-Settled :
        (cs : List SigningCall) (w : World) → Settled w.base → Settled (serve_all env cs w).base
    unfolding serve_all
    serve_all-Settled [] w h = h
    serve_all-Settled (c ∷ cs) w h = serve_all-Settled cs (serve env c w).1 (serve-Settled c w h)
