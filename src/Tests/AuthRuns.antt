-- ===== src/Tests/AuthRuns.antt =====
-- The results about accounts and sessions, applied to the sample tables.
use go_mpc_vault.Prelude.{Option, ◌≤◌, String, true, false, none, some, [], ◌∷◌, ◌≡◌, ◌⊎◌, refl}
use go_mpc_vault.Errors.{ok}
use go_mpc_vault.Data.UserTables.{User as UserRow, PasswordResetToken, ConfirmationToken}
use go_mpc_vault.Exec.{
  select, write, now, lift, guard, map_error, pure, hash_new, with_transaction, commit_lost, ◌>>=◌,
}
use go_mpc_vault.Exec.Atomic.{Atomic}
use go_mpc_vault.Auth.{User, local_user_to_dto, to_username_format}
use go_mpc_vault.Auth.Statements.{
  user_named, insert_user, insert_profile, insert_confirmation_token, refresh_token_is,
  reset_token_is, user_with_id, live_confirmation_token, insert_access_token, insert_refresh_token,
  update_user, delete_access_tokens_of, delete_refresh_tokens_of, delete_refresh_token,
  delete_confirmation_token, delete_user, cascade_user,
}
use go_mpc_vault.Auth.Session.{authenticate_user, invalidate_tokens, login, exchange, refresh}
use go_mpc_vault.Auth.Password.{verify_current, store_password, update_password, reset_password}
use go_mpc_vault.Auth.Registration.{
  register, register_named, register_new, new_confirmation, activate, confirm, complete_register,
  delete_user_account,
}
use go_mpc_vault.Auth.Calls.{resetting_password, perform}
use go_mpc_vault.Auth.Failures.{perform-Atomic}
use go_mpc_vault.Auth.Effects.{signed_in, session}
use go_mpc_vault.Auth.Access.{accepts, login_sound, login_effect, login_complete, refresh_once}
use go_mpc_vault.Auth.Revocation.{
  Replaced, verified, update_password_correct, reset_password_correct,
}
use go_mpc_vault.Auth.Registrations.{IsRegistered, register_ok}
use go_mpc_vault.Auth.Lifecycle.{
  Forgotten, Settles, delete_user_account_correct, complete_register_correct,
}
use go_mpc_vault.Tests.Samples.{sample_env, sample_world, tables, accounts, user_row}

abbrev ann : User
ann = record {
  id = "ann";
  username = some "ann";
  password_hash = some "#secret";
  is_active = true;
  scopes = "app" ∷ [];
  last_authenticated_at = some 90;
  updated_at = 1;
  profile = none;
}

perform-Atomic_example : Atomic (perform sample_env (resetting_password "reset" "new"))
perform-Atomic_example = perform-Atomic sample_env (resetting_password "reset" "new")

login_sound_example : accepts sample_env "ann" "secret" tables ≡ true
unfolding to_username_format login map_error select lift guard ◌>>=◌ with_transaction
    authenticate_user invalidate_tokens write now pure insert_access_token insert_refresh_token
    update_user local_user_to_dto
login_sound_example = login_sound sample_env "ann" "secret" sample_world (session sample_env 2) refl

login_effect_example :
    (session sample_env 2 ≡ session sample_env 2)
    × (((commit_lost sample_env (login sample_env "ann" "secret" sample_world).1 ≡ true)
          × ((login sample_env "ann" "secret" sample_world).1.base ≡ tables))
        ⊎ ((login sample_env "ann" "secret" sample_world).1.base
            ≡ record tables { accounts = signed_in sample_env "ann" false 2 accounts }))
unfolding to_username_format login map_error select lift guard ◌>>=◌ with_transaction
    authenticate_user invalidate_tokens write now pure insert_access_token insert_refresh_token
    update_user local_user_to_dto
login_effect_example =
    login_effect sample_env "ann" "secret" (user_row "ann" true) sample_world (session sample_env 2)
      refl refl

login_complete_example :
    (login sample_env "ann" "secret" sample_world).0 ≡ ok (session sample_env 2)
unfolding to_username_format
login_complete_example =
    login_complete sample_env "ann" "secret" sample_world (λ n. refl) refl refl refl

refresh_once_example :
    ((commit_lost sample_env (refresh sample_env "refresh" sample_world).1 ≡ true)
      × ((refresh sample_env "refresh" sample_world).1.base ≡ tables))
    ⊎ (((session sample_env 4).refresh_token ≡ "refresh")
        ⊎ (refresh_token_is "refresh" (refresh sample_env "refresh" sample_world).1.base ≡ none))
unfolding refresh exchange map_error select lift guard ◌>>=◌ with_transaction authenticate_user
    invalidate_tokens write now pure insert_access_token insert_refresh_token update_user
    local_user_to_dto delete_refresh_token
refresh_once_example = refresh_once sample_env "refresh" sample_world (session sample_env 4) refl

update_password_correct_example :
    (true ≡ true)
    × ((false ≡ true) ⊎ (verified sample_env "secret" (some "#secret") ≡ true))
    × ((hash : String) × (sample_env.hash_password 0 "new" ≡ ok hash)
        × (((commit_lost sample_env
                  (update_password sample_env ann "secret" false "new" sample_world).1
                ≡ true)
              × ((update_password sample_env ann "secret" false "new" sample_world).1.base
                  ≡ tables))
            ⊎ Replaced "ann" hash
                (session sample_env 5)
                tables
                (update_password sample_env ann "secret" false "new" sample_world).1.base))
unfolding update_password verify_current store_password hash_new map_error select lift guard ◌>>=◌
    with_transaction authenticate_user invalidate_tokens write now pure insert_access_token
    insert_refresh_token update_user delete_access_tokens_of delete_refresh_tokens_of
update_password_correct_example =
    update_password_correct sample_env ann "secret" "new" false sample_world (session sample_env 5)
      refl

reset_password_correct_example :
    (row : PasswordResetToken) × (reset_token_is "reset" tables ≡ some row)
    × (sample_env.clock 2 ≤ row.valid_until)
    × ((hash : String) × (sample_env.hash_password 3 "new" ≡ ok hash)
        × (((commit_lost sample_env (reset_password sample_env "reset" "new" sample_world).1 ≡ true)
              × ((reset_password sample_env "reset" "new" sample_world).1.base ≡ tables))
            ⊎ Replaced row.user_id hash
                (session sample_env 8)
                tables
                (reset_password sample_env "reset" "new" sample_world).1.base))
unfolding reset_password update_password verify_current store_password hash_new map_error select
    lift guard ◌>>=◌ with_transaction authenticate_user invalidate_tokens write now pure
    insert_access_token insert_refresh_token update_user delete_access_tokens_of
    delete_refresh_tokens_of local_user_to_dto
reset_password_correct_example =
    reset_password_correct sample_env "reset" "new" sample_world (session sample_env 8) refl

delete_user_account_correct_example :
    (true ≡ true)
    × (verified sample_env "secret" (some "#secret") ≡ true)
    × (((commit_lost sample_env (delete_user_account sample_env ann "secret" sample_world).1 ≡ true)
          × ((delete_user_account sample_env ann "secret" sample_world).1.base ≡ tables))
        ⊎ Forgotten "ann" (delete_user_account sample_env ann "secret" sample_world).1.base)
unfolding delete_user_account map_error lift guard ◌>>=◌ with_transaction write delete_user
    cascade_user pure
delete_user_account_correct_example =
    delete_user_account_correct sample_env ann "secret" sample_world refl

complete_register_correct_example :
    (row : ConfirmationToken) × (user : UserRow) × (live_confirmation_token "confirm" 101 tables
      ≡ some row)
    × (user_with_id row.user_id tables ≡ some user)
    × (((commit_lost sample_env (complete_register sample_env "confirm" sample_world).1 ≡ true)
          × ((complete_register sample_env "confirm" sample_world).1.base ≡ tables))
        ⊎ Settles sample_env user row.token tables
            (complete_register sample_env "confirm" sample_world).1.base)
unfolding complete_register confirm activate map_error select lift guard ◌>>=◌ with_transaction
    authenticate_user invalidate_tokens write now pure insert_access_token insert_refresh_token
    update_user delete_confirmation_token local_user_to_dto
complete_register_correct_example =
    complete_register_correct sample_env "confirm" sample_world (session sample_env 6) refl

abbrev mailed : Option String
mailed = some (sample_env.uuid 9)

register_ok_example :
    ((user_named (to_username_format sample_env "cleo") tables ≡ none)
      × ((hash : String) × (sample_env.hash_password 1 "new" ≡ ok hash)
          × (((commit_lost sample_env (register sample_env "cleo" "new" sample_world).1 ≡ true)
                × ((register sample_env "cleo" "new" sample_world).1.base ≡ tables))
              ⊎ IsRegistered sample_env
                  (to_username_format sample_env "cleo")
                  hash
                  (record { requires_confirmation = true; confirmation_token = some "iiiiiiii" })
                  (register sample_env "cleo" "new" sample_world).1.base)))
    ⊎ ((user : UserRow) × (user_named (to_username_format sample_env "cleo") tables ≡ some user)
        × (user.requires_confirmation ≡ true)
        × ((register sample_env "cleo" "new" sample_world).1.base.accounts.users ≡ accounts.users))
unfolding to_username_format register register_named register_new new_confirmation hash_new
    map_error select lift guard ◌>>=◌ with_transaction write now pure insert_user insert_profile
    insert_confirmation_token
register_ok_example =
    register_ok sample_env "cleo" "new" sample_world
      (record { requires_confirmation = true; confirmation_token = some "iiiiiiii" }) refl
