-- ===== src/Tests/PushRuns.antt =====
-- Push messages on the sample tables: Ann has a token that is too short for the mock provider.
use go_mpc_vault.Prelude.{ℕ, true, false, none, [], ◌∷◌, ◌≡◌, refl, arith, any, rows_where, Option}
use go_mpc_vault.Exec.{pure, raise, guard, map_error, select, write, ◌>>=◌}
use go_mpc_vault.Auth.{User, local_user_to_dto}
use go_mpc_vault.Push.{
  SendMessageRequest, SendError, Provider, mock, fcm, send, fcm_send, send_multicast, send_by,
  send_by_all, send_to_user, delete_tokens,
}
use go_mpc_vault.Push.Answers.{Finds}
use go_mpc_vault.Push.Tokens.{
  is_spared, is_registered_as, is_of_another, send_to_user_others, send_to_user_spares,
  send_to_user_deletes,
}
use go_mpc_vault.Tests.Samples.{sample_env, sample_world, tables, user_row}

abbrev no_transport : ℕ → SendMessageRequest → Option SendError
no_transport n r = none

abbrev ann : User
ann = local_user_to_dto (user_row "ann" true) none

abbrev firebase : Provider
firebase = fcm (record { project_id = "p"; validate_only = false })

fcm_accepts : Finds sample_env no_transport true "phone" firebase
unfolding send fcm_send
fcm_accepts title body w r h = ground arith

mock_refuses : Finds sample_env no_transport false "phone" (mock "fcm")
unfolding send pure
mock_refuses title body w r h = ground arith

send_to_user_spares_example :
    rows_where
      (is_spared "ann" "phone")
      (send_to_user sample_env no_transport
        (firebase ∷ [])
        ann
        "t"
        "b"
        sample_world).1.base.accounts.push_tokens
    ≡ rows_where (is_spared "ann" "phone") tables.accounts.push_tokens
unfolding local_user_to_dto
send_to_user_spares_example =
    send_to_user_spares sample_env no_transport ann "t" "b" (firebase ∷ []) "phone" sample_world
      (fcm_accepts, tt)

send_to_user_others_example :
    rows_where
      (is_of_another "ann")
      (send_to_user sample_env no_transport
        (mock "fcm" ∷ firebase ∷ [])
        ann
        "t"
        "b"
        sample_world).1.base.accounts.push_tokens
    ≡ rows_where (is_of_another "ann") tables.accounts.push_tokens
unfolding local_user_to_dto
send_to_user_others_example =
    send_to_user_others sample_env no_transport ann "t" "b" (mock "fcm" ∷ firebase ∷ [])
      sample_world

send_to_user_deletes_example :
    any
      (is_registered_as "fcm" "ann" "phone")
      (send_to_user sample_env no_transport
        (mock "fcm" ∷ [])
        ann
        "t"
        "b"
        sample_world).1.base.accounts.push_tokens
    ≡ false
unfolding send_to_user send_by_all send_by send_multicast send delete_tokens guard map_error select
    write raise pure local_user_to_dto ◌>>=◌
send_to_user_deletes_example =
    send_to_user_deletes sample_env no_transport ann "t" "b" [] (mock "fcm") [] "phone" sample_world
      mock_refuses refl
