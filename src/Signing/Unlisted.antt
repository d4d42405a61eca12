-- ===== src/Signing/Unlisted.antt =====
-- internal/service/signing/impl.go: CreateRequest leaves `vault_id` empty, by which ListRequests
-- finds the requests of a vault.
use go_mpc_vault.Prelude.{
  ℕ, suc, ◌≤◌, String, Bool, none, some, List, [], ◌∷◌, ◌≡◌, refl, arith, find, ◌==◌, inl, inr,
  Option-cases, update_where, All, rows_where, length,
}
use go_mpc_vault.Errors.{ok, Result-cases}
use go_mpc_vault.Data.{Database}
use go_mpc_vault.Data.VaultTables.{SigningRequest}
use go_mpc_vault.Mpc.{ApprovalParams}
use go_mpc_vault.Exec.{
  Env, World, pure, raise, lift, guard, map_error, new_uuid, select, write, ◌>>=◌,
}
use go_mpc_vault.Signing.{
  create_request, approve_request, reject_request, get_request, insert_request, insert_approval,
  update_request, request_with_id,
}
use go_mpc_vault.Signing.Outcome.{completed_row, approve_request_failed}
use go_mpc_vault.Signing.Decision.{approve_request_ok}
use go_mpc_vault.Signing.Calls.{
  SigningCall, creating, approving, rejecting, reading, serve, serve_all,
}
use go_mpc_vault.Signing.Pages.{IsPage-within, list_requests_correct, list_requests_steps}
use go_mpc_vault.Signing.Listing.{list_requests, matches}

-- No request names a vault.
abbrev Unfiled : List SigningRequest → Type 0
Unfiled rows = All (λ r. r.vault_id ≡ none) rows

find-Unfiled :
    (p : SigningRequest → Bool) (rows : List SigningRequest) (r : SigningRequest)
    → find p rows ≡ some r
    → Unfiled rows
    → r.vault_id ≡ none
find-Unfiled p [] r e h = cc
find-Unfiled p (q ∷ rows) r e h = ground (arith, find-Unfiled p rows r)

update-Unfiled :
    (p : SigningRequest → Bool) (f : SigningRequest → SigningRequest) (rows : List SigningRequest)
    → ((q : SigningRequest) → (f q).vault_id ≡ none)
    → Unfiled rows
    → Unfiled (update_where p f rows)
update-Unfiled p f [] same h = tt
update-Unfiled p f (q ∷ rows) same h = ground (arith, same q, update-Unfiled p f rows same h.1)

unmatched :
    (uid vid status : String) (db : Database) (rows : List SigningRequest)
    → Unfiled rows
    → rows_where (matches uid vid status db) rows ≡ []
unmatched uid vid status db [] h = refl
unmatched uid vid status db (r ∷ rows) h = ground (arith, unmatched uid vid status db rows h.1)

length-zero : (items : List SigningRequest) → length items ≤ 0 → items ≡ []
length-zero [] h = refl
length-zero (r ∷ items) h = absurd (omega arith)

module _ (env : Env) where
  create_request-Unfiled :
      (wallet_id tx_data note user_id : String) (w : World)
      → Unfiled w.base.custody.requests
      → Unfiled (create_request env wallet_id tx_data note user_id w).1.base.custody.requests
  unfolding create_request map_error new_uuid write insert_request ◌>>=◌
  create_request-Unfiled wallet_id tx_data note user_id w h = ground arith

  reject_request-Unfiled :
      (k uid : String) (w : World)
      → Unfiled w.base.custody.requests
      → Unfiled (reject_request env k uid w).1.base.custody.requests
  unfolding reject_request select lift guard raise pure new_uuid write insert_approval
      update_request ◌>>=◌
  reject_request-Unfiled k uid w h = elim (Option-cases (request_with_id k w.base)) [
    | inl e ↦ ground arith
    | inr (req, e) ↦ ground (
      arith,
      update-Unfiled (λ q. q.id == req.id)
          (λ (q : SigningRequest). record req {
            id = q.id;
            status = some "rejected";
            created_at = q.created_at;
            updated_at = some (env.wall (suc (suc (suc w.asked))));
          })
          w.base.custody.requests
          (λ q. find-Unfiled (λ r. r.id == k) w.base.custody.requests req e h) h,
    )
  ]

  approve_request-Unfiled :
      (k : String) (params : ApprovalParams) (w : World)
      → Unfiled w.base.custody.requests
      → Unfiled (approve_request env k params w).1.base.custody.requests
  approve_request-Unfiled k params w h = elim (Result-cases (approve_request env k params w).0) [
    | inr (e, l) ↦ elim (approve_request_failed env k params w e l) [
      | inl same ↦ rw same h
      | inr (n, same) ↦ rw same h
    ]
    | inl (u, l) ↦
        let (wait, fresh, (req, x, v, n, found, a, b, done)) =
          approve_request_ok env k params w l in
        elim done [
          | inl (few, silent, same) ↦ rw same h
          | inr (enough, signed) ↦ rw signed.base (
              update-Unfiled (λ q. q.id == req.id)
                (completed_row req signed.signature signed.stored) w.base.custody.requests
                (λ q. find-Unfiled (λ r. r.id == k) w.base.custody.requests req found h) h)
        ]
  ]

  serve-Unfiled :
      (c : SigningCall) (w : World)
      → Unfiled w.base.custody.requests
      → Unfiled (serve env c w).1.base.custody.requests
  unfolding serve get_request select lift pure ◌>>=◌
  serve-Unfiled (creating wallet_id tx_data note user_id) w h =
      ground (arith, create_request-Unfiled wallet_id tx_data note user_id w h)
  serve-Unfiled (approving k params) w h = approve_request-Unfiled k params w h
  serve-Unfiled (rejecting k uid) w h = reject_request-Unfiled k uid w h
  serve-Unfiled (reading k) w h = ground arith

  serve_all-Unfiled :
      (cs : List SigningCall) (w : World)
      → Unfiled w.base.custody.requests
      → Unfiled (serve_all env cs w).base.custody.requests
  unfolding serve_all
  serve_all-Unfiled [] w h = h
  serve_all-Unfiled (c ∷ cs) w h = serve_all-Unfiled cs (serve env c w).1 (serve-Unfiled c w h)

  list_nothing :
      (uid vid status : String) (page limit : ℕ) (w : World) (items : List SigningRequest)
      (total : ℕ)
      → Unfiled w.base.custody.requests
      → (list_requests env uid vid status page limit w).0 ≡ ok (items, total)
      → (items ≡ []) × (total ≡ 0)
  list_nothing uid vid status page limit w items total h k =
      let held = list_requests_correct env uid vid status page limit w items total k in
      let none_left = unmatched uid vid status w.base w.base.custody.requests h in
      let counted = (list_requests_steps env uid vid status page limit w items total k).1 in
      let empty : total ≡ 0 = ground (arith, counted, none_left) in
      (
        length-zero items
            (rw empty at (IsPage-within uid vid status page limit w.base items total held)),
        empty,
      )

  -- Where no request names a vault, as none does at first, the service itself never files one: after
  -- any calls, a listing that succeeds is empty for every user, vault, status and page.
  pub list_after_calls :
      (cs : List SigningCall) (uid vid status : String) (page limit : ℕ) (w : World)
      (items : List SigningRequest) (total : ℕ)
      → Unfiled w.base.custody.requests
      → (list_requests env uid vid status page limit (serve_all env cs w)).0 ≡ ok (items, total)
      → (items ≡ []) × (total ≡ 0)
  list_after_calls cs uid vid status page limit w items total h k =
      list_nothing uid vid status page limit (serve_all env cs w) items total
        (serve_all-Unfiled cs w h) k
