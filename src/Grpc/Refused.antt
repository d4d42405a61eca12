-- ===== src/Grpc/Refused.antt =====
-- internal/api/grpc/server/signing.go and vault.go without the user and the organization that they name.
use go_mpc_vault.Prelude.{String, false, ◌≡◌, ◌≢◌, arith, inl, inr}
use go_mpc_vault.Errors.{ok, Result-cases}
use go_mpc_vault.Data.UserTables.{has_user}
use go_mpc_vault.Data.VaultTables.{SigningRequest}
use go_mpc_vault.Mpc.{ApprovalParams}
use go_mpc_vault.Exec.{Env, World, pure, raise, guard, map_error, new_uuid, select, write, ◌>>=◌}
use go_mpc_vault.Signing.{
  create_request, approve_request, load_request, vote, insert_request, insert_approval,
}
use go_mpc_vault.Signing.Threshold.{load_request_world}
use go_mpc_vault.Grpc.{
  CreateSigningResponse, CreateSigningRequest, ApproveSigningRequest, default_user, approval_params,
  create_signing_request, approve_signing_request,
}

module _ (env : Env) where
  -- The row of a vote has a user who is not stored: the foreign key refuses it.
  vote_unknown :
      (rid : String) (params : ApprovalParams) (req : SigningRequest) (w : World)
      → has_user w.base.accounts.users params.user_id ≡ false
      → ((vote env rid params req w).0 ≢ ok tt)
        × ((vote env rid params req w).1.base ≡ w.base)
        × ((vote env rid params req w).1.calls ≡ w.calls)
  unfolding vote select guard pure raise new_uuid write insert_approval ◌>>=◌
  vote_unknown rid params req w h = (ground arith, ground arith, ground arith)

  approve_unknown :
      (rid : String) (params : ApprovalParams) (w : World)
      → has_user w.base.accounts.users params.user_id ≡ false
      → ((approve_request env rid params w).0 ≢ ok tt)
        × ((approve_request env rid params w).1.base ≡ w.base)
        × ((approve_request env rid params w).1.calls ≡ w.calls)
  unfolding approve_request map_error ◌>>=◌
  approve_unknown rid params w h = elim (Result-cases (load_request env rid w).0) [
    | inr (e, k) ↦ ground (arith, load_request_world env rid w)
    | inl ((req, x, v, c), k) ↦
        let w' : World = (load_request env rid w).1 in
        let refused = vote_unknown rid params req w' (rw (load_request_world env rid w).0 h) in
        elim (Result-cases (vote env rid params req w').0) [
          | inl (u, l) ↦ absurd (refused.0 l)
          | inr (e, l) ↦ (
            ground arith,
            ground (arith, load_request_world env rid w, refused.1),
            ground (arith, load_request_world env rid w, refused.2),
          )
        ]
  ]

  approve_signing_request_unknown :
      (req : ApproveSigningRequest) (w : World) (s : String)
      → has_user w.base.accounts.users default_user ≡ false
      → ((approve_signing_request env req w).0 ≢ ok s)
        × ((approve_signing_request env req w).1.base ≡ w.base)
        × ((approve_signing_request env req w).1.calls ≡ w.calls)
  unfolding approve_signing_request map_error pure ◌>>=◌
  approve_signing_request_unknown req w s h =
      let refused = approve_unknown req.request_id (approval_params req) w h in
      elim (Result-cases (approve_request env req.request_id (approval_params req) w).0) [
        | inl (u, e) ↦ absurd (refused.0 e)
        | inr (e, k) ↦ (ground arith, ground (arith, refused.1), ground (arith, refused.2))
      ]

  create_signing_request_unknown :
      (req : CreateSigningRequest) (w : World) (r : CreateSigningResponse)
      → has_user w.base.accounts.users default_user ≡ false
      → ((create_signing_request env req w).0 ≢ ok r)
        × ((create_signing_request env req w).1.base ≡ w.base)
  unfolding create_signing_request create_request write new_uuid map_error insert_request pure ◌>>=◌
  create_signing_request_unknown req w r h = (ground arith, ground arith)

  -- While no user is stored under the name that the servers give for every caller, a gRPC call that
  -- creates or approves a request fails, whatever it asks for, and changes no table; and the approval
  -- asks for no signature.
  pub signing_server_refused :
      (make : CreateSigningRequest) (req : ApproveSigningRequest) (w : World)
      (made : CreateSigningResponse) (answer : String)
      → has_user w.base.accounts.users default_user ≡ false
      → ((create_signing_request env make w).0 ≢ ok made)
        × ((create_signing_request env make w).1.base ≡ w.base)
        × ((approve_signing_request env req w).0 ≢ ok answer)
        × ((approve_signing_request env req w).1.base ≡ w.base)
        × ((approve_signing_request env req w).1.calls ≡ w.calls)
  signing_server_refused make req w made answer h =
      let (unmade, same) = create_signing_request_unknown make w made h in
      let (unapproved, same', silent) = approve_signing_request_unknown req w answer h in
      (unmade, same, unapproved, same', silent)
