-- ===== src/PushTokens/Updates.antt =====
-- UpdatePushToken of internal/data/local/service_push.go: which token is stored after it.
use go_mpc_vault.Prelude.{
  ℕ, suc, String, true, false, none, some, ◌∷◌, ◌≡◌, arith, delete_where, ◌==◌,
}
use go_mpc_vault.Errors.{err, conflict_push_token, not_found_old_push_token, wrapped}
use go_mpc_vault.Data.{Database}
use go_mpc_vault.Exec.{Env, World, lift, select, write, ◌>>=◌, pure, guard, raise, with_transaction}
use go_mpc_vault.PushTokens.{
  UpdatePushTokenRequest, push_token_exists, push_token_of, insert_push_token, delete_push_token,
  delete_existing, replace_token, update_push_token,
}

abbrev pub without : String → Database → Database
without id db = record db {
  accounts = record (db.accounts) {
    push_tokens = delete_where (λ t. t.id == id) db.accounts.push_tokens;
  };
}

module _ (env : Env) (r : UpdatePushTokenRequest) where
  -- The tables with the new token, inserted at answer `n`.
  abbrev pub saved : ℕ → Database → Database
  saved n db = record db {
    accounts = record (db.accounts) {
      push_tokens =
          record {
            id = env.uuid n;
            token = r.token;
            provider = r.provider;
            user_id = r.user.id;
            created_at = env.wall n;
            updated_at = env.wall n;
          }
          ∷ db.accounts.push_tokens;
    };
  }

  -- A token that is stored already is refused.
  pub update_push_token_conflict :
      (w : World)
      → ((n : ℕ) → env.outage n ≡ false)
      → push_token_exists r.token w.base ≡ true
      → ((update_push_token env r w).0
          ≡ err (wrapped "failed to execute transaction" conflict_push_token))
        × ((update_push_token env r w).1.base ≡ w.base)
  unfolding update_push_token with_transaction replace_token select guard raise pure ◌>>=◌
  update_push_token_conflict w up h = ground (arith, up w.asked, up (suc w.asked))

  -- If the token to replace is not stored for the user, an error is returned, but the new token has
  -- been saved, as the text of the error says.
  pub update_push_token_unknown :
      (w : World) (old : String)
      → r.existing_token ≡ some old
      → (update_push_token env r w).0
        ≡ err (wrapped "failed to execute transaction" not_found_old_push_token)
      → (push_token_exists r.token w.base ≡ false)
        × ((update_push_token env r w).1.base ≡ saved (suc (suc w.asked)) w.base)
        × (push_token_of old r.user.id (saved (suc (suc w.asked)) w.base) ≡ none)
  unfolding update_push_token with_transaction replace_token delete_existing insert_push_token
      delete_push_token select guard raise pure lift write ◌>>=◌
  update_push_token_unknown w old e h = (ground arith, ground arith, ground arith)
