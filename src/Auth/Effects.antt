-- ===== src/Auth/Effects.antt =====
-- What a successful login, refresh, password change or confirmation leaves in the user tables:
-- authenticateUser of internal/auth/service.go against one update of the tables.
use go_mpc_vault.Prelude.{
  ℕ, suc, ◌+◌, ◌/◌, String, Bool, true, false, some, List, ◌≡◌, ◌∷◌, arith, delete_where,
  update_where, ◌==◌,
}
use go_mpc_vault.Errors.{ok}
use go_mpc_vault.Exec.{Env, World, tx, write, now, pure, ◌>>=◌}
use go_mpc_vault.Data.UserTables.{Accounts}
use go_mpc_vault.Auth.{User, LoginResult}
use go_mpc_vault.Auth.Session.{authenticate_user, invalidate_tokens}
use go_mpc_vault.Auth.Statements.{
  insert_access_token, insert_refresh_token, update_user, delete_access_tokens_of,
  delete_refresh_tokens_of,
}

-- The number of answers that the deletions ask for.
abbrev after_deletions : Bool → ℕ → ℕ
after_deletions true n = suc (suc n)
after_deletions false n = n

abbrev remaining {ℓ} : {A : Type ℓ} → Bool → (A → Bool) → List A → List A
remaining true p rows = delete_where p rows
remaining false p rows = rows

module _ (env : Env) where
  -- A new session of a user, issued from answer `n` on, in place of all others or beside them.
  abbrev pub signed_in : String → Bool → ℕ → Accounts → Accounts
  signed_in uid alone n a = record a {
    users =
        update_where (λ u. u.id == uid)
          (λ u. record u {
            last_authenticated_at = some (env.clock (suc (suc (suc n))));
            updated_at = env.wall (suc (suc (suc (suc n))));
          })
          a.users;
    access_tokens =
        record {
          token = env.uuid (suc n);
          valid_until = env.clock n + env.config.access_token_validity;
          user_id = uid;
          created_at = env.wall (suc n);
          updated_at = env.wall (suc n);
        }
        ∷ remaining alone (λ t. t.user_id == uid) a.access_tokens;
    refresh_tokens =
        record {
          token = env.uuid (suc (suc n));
          user_id = uid;
          created_at = env.wall (suc (suc n));
          updated_at = env.wall (suc (suc n));
        }
        ∷ remaining alone (λ t. t.user_id == uid) a.refresh_tokens;
  }

  abbrev pub session : ℕ → LoginResult
  session n = record {
    user_id = "";
    access_token = env.uuid (suc n);
    expires_in = env.config.access_token_validity / 1_000_000_000;
    refresh_token = env.uuid (suc (suc n));
    token_type = "bearer";
  }

  pub authenticate_user_ok :
      (user : User) (alone : Bool) (w : World) (r : LoginResult)
      → (authenticate_user env tx user alone w).0 ≡ ok r
      → (r ≡ session (after_deletions alone w.asked))
        × ((authenticate_user env tx user alone w).1.view ≡ record (w.view) {
          accounts = signed_in user.id alone (after_deletions alone w.asked) w.view.accounts;
        })
  unfolding authenticate_user invalidate_tokens write now pure ◌>>=◌ insert_access_token
      insert_refresh_token update_user delete_access_tokens_of delete_refresh_tokens_of
  authenticate_user_ok user true w r h = ground arith
  authenticate_user_ok user false w r h = ground arith
