-- ===== src/Tests/Races.antt =====
-- Calls of internal/service/signing/impl.go at the same time, on the sample tables: two approvals that
-- both meet the threshold, and an approval that is overtaken by a rejection.
use go_mpc_vault.Prelude.{
  ℕ, String, Option, true, zero, suc, some, none, List, [], ◌∷◌, ◌≡◌, refl, length,
}
use go_mpc_vault.Exec.{World, new_uuid, select, write, send_sign}
use go_mpc_vault.Exec.Steps
use native.Mathlib.Decide.{ℕ_discrete}
use go_mpc_vault.Data.{Database}
use go_mpc_vault.Exec.Steps.{System, turns, turns-Reach, run, rename, atom}
use go_mpc_vault.Signing.{threshold_sign, insert_approval, update_request, request_with_id}
use go_mpc_vault.Signing.Calls.{SigningCall, approving, rejecting, reading}
use go_mpc_vault.Signing.Steps.{
  load_request_steps, vote_steps, complete_steps, sign_steps, threshold_steps, approve_steps,
  reject_steps, serve_steps,
}
use go_mpc_vault.Signing.Backing.{IsJustified}
use go_mpc_vault.Signing.Interleaved.{serving, interleaved-IsJustified}
use go_mpc_vault.Tests.Samples.{sample_env, sample_world, params_of, tables, accounts, user_row}
use go_mpc_vault.Tests.SigningRuns.{orderly}

-- Carol may vote too, and Bob has approved already.
abbrev with_carol : World
with_carol = record sample_world {
  base = record tables {
    accounts = record accounts { users = user_row "carol" true ∷ accounts.users };
  };
  view = tables;
}

abbrev both_approve : ℕ → SigningCall
both_approve zero = approving "open" (params_of "ann")
both_approve (suc zero) = approving "open" (params_of "carol")
both_approve (suc (suc n)) = reading "open"

-- Each client stores its vote before either counts them.
abbrev in_step : List ℕ
in_step = 0 ∷ 1 ∷ 0 ∷ 1 ∷ 0 ∷ 1 ∷ 0 ∷ 1 ∷ 0 ∷ 1 ∷ 0 ∷ 1 ∷ 0 ∷ 1 ∷ 0 ∷ 1 ∷ 0 ∷ 1 ∷ 0 ∷ 1 ∷ []

-- Ann's vote is stored, then Carol rejects, and then the votes for Ann's call are counted.
abbrev rejected_between : List ℕ
rejected_between = 0 ∷ 0 ∷ 0 ∷ 0 ∷ 0 ∷ 0 ∷ 0 ∷ 1 ∷ 1 ∷ 1 ∷ 1 ∷ 0 ∷ 0 ∷ 0 ∷ []

abbrev one_rejects : ℕ → SigningCall
one_rejects zero = approving "open" (params_of "ann")
one_rejects (suc zero) = rejecting "open" "carol"
one_rejects (suc (suc n)) = reading "open"

abbrev status_of : Database → Option String
status_of db = elim (request_with_id "open" db) [ none ↦ none | some r ↦ r.status ]

-- Two approvals that both count enough votes: the MPC services sign twice.
signed_twice : length (turns in_step (serving sample_env with_carol both_approve)).world.calls ≡ 2
unfolding turns serve_steps approve_steps load_request_steps vote_steps threshold_steps sign_steps
    complete_steps reject_steps threshold_sign insert_approval update_request new_uuid select write
    send_sign atom rename Steps.◌>>=◌ ℕ_discrete
signed_twice = refl

-- The rejection is overwritten, and the transaction is signed.
signed_after_rejection :
    (length (turns rejected_between (serving sample_env with_carol one_rejects)).world.calls ≡ 1)
    × (status_of (turns rejected_between (serving sample_env with_carol one_rejects)).world.base
        ≡ some "completed")
unfolding turns serve_steps approve_steps load_request_steps vote_steps threshold_steps sign_steps
    complete_steps reject_steps threshold_sign insert_approval update_request new_uuid select write
    send_sign atom rename Steps.◌>>=◌ ℕ_discrete
signed_after_rejection = (refl, refl)

justified : IsJustified with_carol
justified =
    (record { ids = orderly.ids; states = orderly.states; votes = orderly.votes }, orderly, tt)

interleaved-IsJustified_example :
    IsJustified (turns in_step (serving sample_env with_carol both_approve)).world
interleaved-IsJustified_example =
    interleaved-IsJustified sample_env with_carol both_approve
      (turns in_step (serving sample_env with_carol both_approve)) justified
      (turns-Reach in_step (serving sample_env with_carol both_approve))
