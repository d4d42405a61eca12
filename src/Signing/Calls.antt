-- ===== src/Signing/Calls.antt =====
-- The methods of internal/service/signing/impl.go that change requests, as calls, and histories.
use go_mpc_vault.Prelude.{String, List, [], ◌∷◌}
use go_mpc_vault.Mpc.{ApprovalParams}
use go_mpc_vault.Exec.{Env, World, M, pure, ◌>>=◌}
use go_mpc_vault.Signing.{create_request, approve_request, reject_request, get_request}

pub data SigningCall : Type 0 where
  creating : String → String → String → String → SigningCall
  approving : String → ApprovalParams → SigningCall
  rejecting : String → String → SigningCall
  reading : String → SigningCall

module _ (env : Env) where
  unfoldable pub serve : SigningCall → M (Unit {0})
  serve (creating wallet_id tx_data note user_id) =
      create_request env wallet_id tx_data note user_id >>= λ _. pure tt
  serve (approving rid params) = approve_request env rid params
  serve (rejecting rid user_id) = reject_request env rid user_id
  serve (reading rid) = get_request env rid >>= λ _. pure tt

  unfoldable pub serve_all : List SigningCall → World → World
  serve_all [] w = w
  serve_all (c ∷ cs) w = serve_all cs (serve c w).1
