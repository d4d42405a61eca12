-- ===== src/Tests/SigningRuns.antt =====
-- The results about signing, applied to the sample tables.
use go_mpc_vault.Prelude.{ℕ, suc, ◌≤◌, true, false, some, [], ◌∷◌, ◌≡◌, ◌⊎◌, refl, length}
use go_mpc_vault.Data.VaultTables.{SigningRequest, Wallet, Vault}
use go_mpc_vault.Exec.{
  lift, guard, map_error, new_uuid, select, write, send_sign, pure, raise, ◌>>=◌,
}
use go_mpc_vault.Signing.{
  approve_request, load_request, load, vote, check_threshold, sign_if_enough, complete,
  threshold_sign, insert_approval, update_request, has_approval, approvals_of, request_with_id,
}
use go_mpc_vault.Signing.Threshold.{
  signs_only_at_threshold, approved, is_pending, vault_of_request, wallet_of_request,
}
use go_mpc_vault.Signing.Outcome.{approve_request_failed}
use go_mpc_vault.Signing.Decision.{approve_request_ok, Decided}
use go_mpc_vault.Signing.Calls.{approving, rejecting, serve_all}
use go_mpc_vault.Signing.Settled.{Settled, serve_all-Settled}
use go_mpc_vault.Signing.Votes.{IsOrderly}
use go_mpc_vault.Tests.Samples.{sample_env, sample_world, request_row, params_of, tables}

signs_only_at_threshold_example :
    ((approve_request sample_env "open" (params_of "ann") sample_world).1.calls ≡ [])
    ⊎ ((v : Vault) × (vault_of_request "open" tables ≡ some v)
        × (is_pending "open" tables ≡ true)
        × (has_approval "open" "ann" tables ≡ false)
        × (v.threshold ≤ suc (length (approvals_of "open" tables))))
signs_only_at_threshold_example =
    signs_only_at_threshold sample_env "open" (params_of "ann") sample_world

serve_all-Settled_example :
    Settled "closed"
      (request_row "closed" "rejected")
      (serve_all sample_env
        (approving "closed" (params_of "ann") ∷ rejecting "open" "ann" ∷ [])
        sample_world).base
serve_all-Settled_example =
    serve_all-Settled "closed" (request_row "closed" "rejected") sample_env
      (approving "closed" (params_of "ann") ∷ rejecting "open" "ann" ∷ []) sample_world (refl, refl)

approve_request_ok_example :
    (is_pending "open" tables ≡ true)
    × (has_approval "open" "ann" tables ≡ false)
    × ((req : SigningRequest) × (x : Wallet) × (v : Vault) × (n : ℕ) × (request_with_id "open"
            tables
          ≡ some req)
        × (wallet_of_request "open" tables ≡ some x)
        × (vault_of_request "open" tables ≡ some v)
        × Decided sample_env "open"
            (params_of "ann")
            req
            x
            v
            n
            sample_world
            (approve_request sample_env "open" (params_of "ann") sample_world).1)
unfolding approve_request load_request load map_error vote check_threshold sign_if_enough complete
    threshold_sign insert_approval update_request lift guard new_uuid select write send_sign pure
    raise ◌>>=◌
approve_request_ok_example =
    approve_request_ok sample_env "open" (params_of "ann") sample_world refl

approve_request_failed_example :
    ((approve_request sample_env "closed" (params_of "ann") sample_world).1.base ≡ tables)
    ⊎ ((n : ℕ) × ((approve_request sample_env "closed" (params_of "ann") sample_world).1.base
          ≡ approved sample_env "closed" (params_of "ann") n tables))
unfolding approve_request load_request load map_error vote lift guard select pure raise ◌>>=◌
approve_request_failed_example =
    approve_request_failed sample_env "closed" (params_of "ann") sample_world _ refl

pub orderly : IsOrderly tables
orderly = record { ids = (refl, (refl, tt)); states = (refl, (refl, tt)); votes = (refl, tt) }
