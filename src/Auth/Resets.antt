-- ===== src/Auth/Resets.antt =====
-- InitPasswordReset of internal/auth/service.go: who is sent a reset token, and which one.
use go_mpc_vault.Prelude.{
  ℕ, suc, ◌+◌, String, Bool, true, false, Option, none, some, ◌∷◌, ◌≡◌, ◌⊎◌, arith, is_some, any,
  Option-cases, inl, inr, find, List, [], eq_iff, eq_refl, ◌==◌, Bool-cases, not, ◌||◌, ◌&&◌, ltb,
}
use go_mpc_vault.Errors.{ok, Result-cases}
use go_mpc_vault.Data.{Database}
use go_mpc_vault.Data.UserTables.{User as UserRow, PasswordResetToken}
use go_mpc_vault.Exec.{
  Env, World, select, write, now, pure, with_transaction, next, ◌>>=◌, commit_lost,
}
use go_mpc_vault.Auth.{to_username_format}
use go_mpc_vault.Auth.Statements.{user_named, recent_reset_token, insert_reset_token}
use go_mpc_vault.Auth.Password.{
  debounced, reuse_or_insert, issue_reset_token, start_reset, start_reset_of, init_password_reset,
}

-- The token is stored as a reset token of the user.
abbrev pub has_reset_token : String → String → Database → Bool
has_reset_token token uid db =
    any (λ t. t.token == token && t.user_id == uid) db.accounts.reset_tokens

find-any :
    (uid : String) (since span time : ℕ) (rows : List PasswordResetToken) (t : PasswordResetToken)
    → find
        (λ t. t.user_id == uid && (ltb since (t.created_at + span) && ltb time t.valid_until))
        rows
      ≡ some t
    → any (λ s. s.token == t.token && s.user_id == uid) rows ≡ true
find-any uid since span time [] t h = absurd (ground arith)
find-any uid since span time (x ∷ rows) t h =
    ground (arith, find-any uid since span time rows t, eq_iff x.token t.token)

module _ (env : Env) where
  issue_reset_token_ok :
      (uid : String) (w : World) (r : Option String)
      → (issue_reset_token env uid w).0 ≡ ok r
      → ((token : PasswordResetToken) × (recent_reset_token uid
              (env.clock (suc w.asked))
              env.config.password_reset_token_reuse
              (env.clock (suc (suc w.asked)))
              w.base
            ≡ some token)
          × (r ≡ some token.token)
          × ((issue_reset_token env uid w).1.base ≡ w.base))
        ⊎ ((recent_reset_token uid
                (env.clock (suc w.asked))
                env.config.password_reset_token_reuse
                (env.clock (suc (suc w.asked)))
                w.base
              ≡ none)
            × (r ≡ some (env.uuid (suc (suc (suc (suc (suc w.asked)))))))
            × (((commit_lost env (issue_reset_token env uid w).1 ≡ true)
                  × ((issue_reset_token env uid w).1.base ≡ w.base))
                ⊎ ((issue_reset_token env uid w).1.base ≡ record (w.base) {
                  accounts = record (w.base.accounts) {
                    reset_tokens =
                        record {
                          token = env.uuid (suc (suc (suc (suc (suc w.asked)))));
                          valid_until =
                              env.clock (suc (suc (suc (suc w.asked))))
                              + env.config.password_reset_token_validity;
                          user_id = uid;
                          created_at = env.wall (suc (suc (suc (suc (suc w.asked)))));
                          updated_at = env.wall (suc (suc (suc (suc (suc w.asked)))));
                        }
                        ∷ w.base.accounts.reset_tokens;
                  };
                })))
  unfolding issue_reset_token reuse_or_insert with_transaction select now write pure
      insert_reset_token ◌>>=◌
  issue_reset_token_ok uid w r h =
      elim (Option-cases (
        recent_reset_token uid (env.clock (suc w.asked)) env.config.password_reset_token_reuse
          (env.clock (suc (suc w.asked))) w.base)) [
            | inl e ↦ inr (e, ground arith, ground arith)
            | inr (t, e) ↦ inl (t, e, ground arith, ground arith)
          ]

  issue_reset_token_stored :
      (uid : String) (w : World) (r : Option String)
      → (issue_reset_token env uid w).0 ≡ ok r
      → (token : String) × (r ≡ some token)
        × (((commit_lost env (issue_reset_token env uid w).1 ≡ true)
              × ((issue_reset_token env uid w).1.base ≡ w.base))
            ⊎ (has_reset_token token uid (issue_reset_token env uid w).1.base ≡ true))
  issue_reset_token_stored uid w r h = elim (issue_reset_token_ok uid w r h) [
    | inl (t, found, e, same) ↦ (
      t.token,
      e,
      inr (
          rw same (
            find-any uid (env.clock (suc w.asked)) env.config.password_reset_token_reuse
              (env.clock (suc (suc w.asked))) w.base.accounts.reset_tokens t found)),
    )
    | inr (fresh, e, inl lost) ↦ (_, e, inl lost)
    | inr (fresh, e, inr same) ↦ (
      _,
      e,
      inr (
          rw same (
            ground (arith, eq_refl uid, eq_refl (env.uuid (suc (suc (suc (suc (suc w.asked))))))))),
    )
  ]

  debounced_world : (uid : String) (w : World) → (debounced env uid w).1.base ≡ w.base
  unfolding debounced select now pure ◌>>=◌
  debounced_world uid w = ground arith

  start_reset_ok :
      (user : UserRow) (w : World) (r : Option String)
      → (start_reset env user w).0 ≡ ok r
      → ((r ≡ none) × ((start_reset env user w).1.base ≡ w.base))
        ⊎ ((user.is_active ≡ true)
            × (is_some user.password ≡ true)
            × ((token : String) × (r ≡ some token)
                × (((commit_lost env (start_reset env user w).1 ≡ true)
                      × ((start_reset env user w).1.base ≡ w.base))
                    ⊎ (has_reset_token token user.id (start_reset env user w).1.base ≡ true))))
  unfolding start_reset pure ◌>>=◌
  start_reset_ok user w r h = elim (Result-cases (debounced env user.id w).0) [
    | inr (x, e) ↦ inl (ground (arith, debounced_world user.id w))
    | inl (true, e) ↦ inl (ground (arith, debounced_world user.id w))
    | inl (false, e) ↦ elim (Bool-cases (not user.is_active || not (is_some user.password))) [
      | inl f ↦ inl (ground arith)
      | inr f ↦
          let w' : World = (debounced env user.id w).1 in
          let same : start_reset env user w ≡ issue_reset_token env user.id w' = ground arith in
          let (token, g, stored) = issue_reset_token_stored user.id w' r (rw same at h) in
          inr (
            ground arith,
            ground arith,
            (token, g, rw same (rw (debounced_world user.id w) at stored)),
          )
    ]
  ]

  -- A reset token is returned only for the name of an active user with a password. It is then stored
  -- as one of theirs, unless the commit meets an outage. In all other cases nothing changes, and no error
  -- tells the two apart.
  pub init_password_reset_ok :
      (username : String) (w : World) (r : Option String)
      → (init_password_reset env username w).0 ≡ ok r
      → ((r ≡ none) × ((init_password_reset env username w).1.base ≡ w.base))
        ⊎ ((user : UserRow) × (token : String) × (user_named
                (to_username_format env username)
                w.base
              ≡ some user)
            × (user.is_active ≡ true)
            × (is_some user.password ≡ true)
            × (r ≡ some token)
            × (((commit_lost env (init_password_reset env username w).1 ≡ true)
                  × ((init_password_reset env username w).1.base ≡ w.base))
                ⊎ (has_reset_token token user.id (init_password_reset env username w).1.base
                    ≡ true)))
  unfolding init_password_reset start_reset_of select pure ◌>>=◌
  init_password_reset_ok username w r h =
      elim (Option-cases (user_named (to_username_format env username) w.base)) [
        | inl e ↦ inl (ground arith)
        | inr (user, e) ↦
            let same : init_password_reset env username w ≡ start_reset env user (next w) =
              ground arith in
            elim (start_reset_ok user (next w) r (rw same at h)) [
              | inl (f, g) ↦ inl (f, rw same g)
              | inr (active, has, (token, f, stored)) ↦
                  inr (user, token, e, active, has, f, rw same stored)
            ]
      ]
