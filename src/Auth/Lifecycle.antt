-- ===== src/Auth/Lifecycle.antt =====
-- DeleteUserAccount and CompleteRegister of internal/auth/service.go: what they leave of a user
-- account.
use go_mpc_vault.Prelude.{
  ℕ, suc, String, Bool, true, false, not, ◌||◌, none, some, ◌≡◌, ◌⊎◌, refl, arith, any,
  delete_where, update_where, map_option, Bool-cases, ◌==◌, Option-cases, inl, inr,
}
use go_mpc_vault.Prelude.Tables.{any-delete_where_self, find-update_where}
use go_mpc_vault.Errors.{ok}
use go_mpc_vault.Data.{Database}
use go_mpc_vault.Data.UserTables.{User as UserRow, ConfirmationToken}
use go_mpc_vault.Exec.{
  Env, World, tx, select, write, now, lift, guard, map_error, begun, next, commit_lost, ◌>>=◌, pure,
}
use go_mpc_vault.Exec.Atomic.{with_transaction_ok, Quiet-write}
use go_mpc_vault.Auth.{User, LoginResult, local_user_to_dto}
use go_mpc_vault.Auth.Statements.{
  user_with_id, live_confirmation_token, update_user, delete_confirmation_token, delete_user,
  cascade_user,
}
use go_mpc_vault.Auth.Registration.{activate, confirm, complete_register, delete_user_account}
use go_mpc_vault.Auth.Failures.{confirm-Quiet}
use go_mpc_vault.Auth.Effects.{signed_in, authenticate_user_ok}
use go_mpc_vault.Auth.Revocation.{verified, find-user}

-- No account, session, token, passkey or membership belongs to the user.
pub record Forgotten (uid : String) (db : Database) : Type 0 where
  pub user : any (λ u. u.id == uid) db.accounts.users ≡ false
  pub profile : any (λ p. p.user_id == uid) db.accounts.profiles ≡ false
  pub access : any (λ t. t.user_id == uid) db.accounts.access_tokens ≡ false
  pub refresh : any (λ t. t.user_id == uid) db.accounts.refresh_tokens ≡ false
  pub reset : any (λ t. t.user_id == uid) db.accounts.reset_tokens ≡ false
  pub confirmation : any (λ t. t.user_id == uid) db.accounts.confirmation_tokens ≡ false
  pub credentials : any (λ c. c.user_id == uid) db.accounts.credentials ≡ false
  pub memberships : any (λ m. m.user_id == uid) db.custody.members ≡ false
  pub push : any (λ t. t.user_id == uid) db.accounts.push_tokens ≡ false

-- The user may log in, and the confirmation token is gone.
pub record IsConfirmed (uid token : String) (db : Database) : Type 0 where
  pub active : map_option (λ u. u.is_active) (user_with_id uid db) ≡ some true
  pub settled : map_option (λ u. u.requires_confirmation) (user_with_id uid db) ≡ some false
  pub spent : any (λ t. t.token == token) db.accounts.confirmation_tokens ≡ false

module _ (env : Env) where
  delete_user-Forgotten :
      (uid : String) (w : World)
      → (write env tx (delete_user uid) w).0 ≡ ok tt
      → Forgotten uid (write env tx (delete_user uid) w).1.view
  unfolding write delete_user cascade_user
  delete_user-Forgotten uid w h = ground (
    arith,
    any-delete_where_self (λ u. u.id == uid) w.view.accounts.users,
    any-delete_where_self (λ u. u.user_id == uid) w.view.accounts.profiles,
    any-delete_where_self (λ u. u.user_id == uid) w.view.accounts.access_tokens,
    any-delete_where_self (λ u. u.user_id == uid) w.view.accounts.refresh_tokens,
    any-delete_where_self (λ u. u.user_id == uid) w.view.accounts.reset_tokens,
    any-delete_where_self (λ u. u.user_id == uid) w.view.accounts.confirmation_tokens,
    any-delete_where_self (λ u. u.user_id == uid) w.view.accounts.push_tokens,
    any-delete_where_self (λ u. u.user_id == uid) w.view.accounts.credentials,
    any-delete_where_self (λ u. u.user_id == uid) w.view.custody.members,
  )

  -- An account is deleted only for an active user who knows the password. Then no account, profile,
  -- session, token, passkey or membership of the user is left, unless the commit meets an outage,
  -- which leaves all tables as they were.
  pub delete_user_account_correct :
      (user : User) (current : String) (w : World)
      → (delete_user_account env user current w).0 ≡ ok tt
      → (user.is_active ≡ true)
        × (verified env current user.password_hash ≡ true)
        × (((commit_lost env (delete_user_account env user current w).1 ≡ true)
              × ((delete_user_account env user current w).1.base ≡ w.base))
            ⊎ Forgotten user.id (delete_user_account env user current w).1.base)
  unfolding delete_user_account map_error lift guard ◌>>=◌
  delete_user_account_correct user current w h = (
    ground arith,
    ground arith,
    ground (
      arith,
      with_transaction_ok env (write env tx (delete_user user.id)) w tt
          (Quiet-write env (delete_user user.id)),
      delete_user-Forgotten user.id (begun w),
    ),
  )

  -- The tables after a confirmation: the user is active, and the token is gone.
  abbrev confirmed : UserRow → String → ℕ → ℕ → Database → Database
  confirmed user token t n db = record db {
    accounts = signed_in env user.id false n (record (db.accounts) {
      users =
          update_where (λ u. u.id == user.id)
            (λ u. record u { is_active = true; requires_confirmation = false; updated_at = t })
            db.accounts.users;
      confirmation_tokens = delete_where (λ t. t.token == token) db.accounts.confirmation_tokens;
    });
  }

  activate_ok :
      (user : UserRow) (token : String) (w : World) (r : LoginResult)
      → (user.is_active || not user.requires_confirmation) ≡ false
      → (activate env user token w).0 ≡ ok r
      → (activate env user token w).1.view
        ≡ confirmed user token (env.wall w.asked) (suc (suc w.asked)) w.view
  unfolding activate write ◌>>=◌ update_user delete_confirmation_token local_user_to_dto
  activate_ok user token w r fresh h = ground (
    arith,
    authenticate_user_ok env
        (local_user_to_dto (record user { is_active = true; requires_confirmation = false }) none)
        false
        (next (
          next (record w {
            view = record (w.view) {
              accounts = record (w.view.accounts) {
                users =
                    update_where (λ u. u.id == user.id)
                      (λ u. record u {
                        is_active = true;
                        requires_confirmation = false;
                        updated_at = env.wall w.asked;
                      })
                      w.view.accounts.users;
                confirmation_tokens =
                    delete_where (λ t. t.token == token) w.view.accounts.confirmation_tokens;
              };
            };
          })))
        r,
  )

  -- What is stored of a user's confirmation.
  confirmed_state :
      (user : UserRow) (token : String) (t n : ℕ) (db : Database)
      → user_with_id user.id db ≡ some user
      → IsConfirmed user.id token (confirmed user token t n db)
  confirmed_state user token t n db found = ground (
    arith,
    find-update_where (λ u. u.id) user.id
        (λ (u : UserRow). record u {
          last_authenticated_at = some (env.clock (suc (suc (suc n))));
          updated_at = env.wall (suc (suc (suc (suc n))));
        })
        (update_where (λ u. u.id == user.id)
          (λ u. record u { is_active = true; requires_confirmation = false; updated_at = t })
          db.accounts.users)
        (λ u. refl),
    find-update_where (λ u. u.id) user.id
        (λ (u : UserRow). record u {
          is_active = true;
          requires_confirmation = false;
          updated_at = t;
        })
        db.accounts.users (λ u. refl),
    any-delete_where_self (λ t. t.token == token) db.accounts.confirmation_tokens,
  )

  confirm_found :
      (token : String) (w : World) (r : LoginResult)
      → (confirm env token w).0 ≡ ok r
      → (row : ConfirmationToken) × (user : UserRow) × (live_confirmation_token token
            (env.clock w.asked)
            w.base
          ≡ some row)
        × (user_with_id row.user_id w.base ≡ some user)
        × (confirm env token w ≡ activate env user row.token (next (next (next w))))
  unfolding confirm select now lift ◌>>=◌
  confirm_found token w r h =
      elim (Option-cases (live_confirmation_token token (env.clock w.asked) w.base)) [
        | inl e ↦ absurd (ground arith)
        | inr (row, e) ↦ elim (Option-cases (user_with_id row.user_id w.base)) [
          | inl f ↦ absurd (ground arith)
          | inr (user, f) ↦ (row, user, e, f, ground arith)
        ]
      ]

  activate_settled :
      (user : UserRow) (token : String) (w : World)
      → (user.is_active || not user.requires_confirmation) ≡ true
      → (activate env user token w).1.view ≡ w.view
  unfolding activate pure
  activate_settled user token w done = ground arith

  -- What a transaction that has committed `db` did for the user: nothing for one who had been
  -- confirmed.
  abbrev pub Settles : UserRow → String → Database → Database → Type 0
  Settles user token old db =
      (((user.is_active || not user.requires_confirmation) ≡ true) × (db ≡ old))
      ⊎ (((user.is_active || not user.requires_confirmation) ≡ false)
          × IsConfirmed user.id token db)

  activate_cases :
      (user : UserRow) (token : String) (w : World) (r : LoginResult)
      → user_with_id user.id w.view ≡ some user
      → (activate env user token w).0 ≡ ok r
      → Settles user token w.view (activate env user token w).1.view
  activate_cases user token w r found h =
      elim (Bool-cases (user.is_active || not user.requires_confirmation)) [
        | inl done ↦ inl (done, activate_settled user token w done)
        | inr fresh ↦ inr (
          fresh,
          rw (activate_ok user token w r fresh h)
              (confirmed_state user token (env.wall w.asked) (suc (suc w.asked)) w.view found),
        )
      ]

  confirm-Settles :
      (token : String) (row : ConfirmationToken) (user : UserRow) (w : World) (r : LoginResult)
      (lost : Bool) (db : Database)
      → user_with_id row.user_id w.base ≡ some user
      → confirm env token (begun w) ≡ activate env user row.token (next (next (next (begun w))))
      → (confirm env token (begun w)).0 ≡ ok r
      → ((lost ≡ true) × (db ≡ w.base))
        ⊎ ((lost ≡ false) × (db ≡ (confirm env token (begun w)).1.view))
      → ((lost ≡ true) × (db ≡ w.base)) ⊎ Settles user row.token w.base db
  confirm-Settles token row user w r lost db f same inside (inl e) = inl e
  confirm-Settles token row user w r lost db f same inside (inr (kept, e)) = inr (
      let mine : user.id ≡ row.user_id = find-user row.user_id w.base.accounts.users user f in
      rw (e, same)
        (activate_cases user row.token (next (next (next (begun w)))) r (rw (← mine) at f)
          (rw same at inside)))

  -- A registration is completed only with a stored confirmation token that has not expired. If its
  -- user is active already, or needs no confirmation, nothing changes. Otherwise the user becomes
  -- active and the token is gone, unless the commit meets an outage: then nothing changes.
  pub complete_register_correct :
      (token : String) (w : World) (r : LoginResult)
      → (complete_register env token w).0 ≡ ok r
      → (row : ConfirmationToken) × (user : UserRow) × (live_confirmation_token token
            (env.clock (suc w.asked))
            w.base
          ≡ some row)
        × (user_with_id row.user_id w.base ≡ some user)
        × (((commit_lost env (complete_register env token w).1 ≡ true)
              × ((complete_register env token w).1.base ≡ w.base))
            ⊎ Settles user row.token w.base (complete_register env token w).1.base)
  unfolding complete_register
  complete_register_correct token w r h =
      let (inside, ended) =
        with_transaction_ok env (confirm env token) w r (confirm-Quiet env token) h in
      let (row, user, e, f, same) = confirm_found token (begun w) r inside in
      (row, user, e, f, confirm-Settles token row user w r _ _ f same inside ended)
