-- ===== src/Auth/Access.antt =====
-- Login and Refresh of internal/auth/service.go: who gets a session, and what it leaves behind.
use go_mpc_vault.Prelude.{
  ℕ, suc, String, Bool, true, false, none, some, List, [], ◌∷◌, ◌≡◌, ◌⊎◌, refl, ◌&&◌, arith, any,
  find, delete_where, eq_refl, eq_iff, ◌==◌, Option-cases, inl, inr,
}
use go_mpc_vault.Errors.{ok, err}
use go_mpc_vault.Data.{Database}
use go_mpc_vault.Data.UserTables.{User as UserRow, has_user, RefreshToken}
use go_mpc_vault.Exec.{
  commit_lost, Env, World, tx, select, write, now, lift, guard, map_error, pure, with_transaction,
  begun, next, ◌>>=◌,
}
use go_mpc_vault.Exec.Atomic.{with_transaction_ok}
use go_mpc_vault.Auth.{User, LoginResult, local_user_to_dto, to_username_format}
use go_mpc_vault.Auth.Statements.{
  user_named, user_with_id, refresh_token_is, insert_access_token, insert_refresh_token,
  update_user, delete_refresh_token,
}
use go_mpc_vault.Auth.Session.{authenticate_user, invalidate_tokens, login, exchange, refresh}
use go_mpc_vault.Auth.Failures.{authenticate_user-Quiet, exchange-Quiet}
use go_mpc_vault.Auth.Effects.{signed_in, session, authenticate_user_ok}

-- A user of this name is active, and has a password whose hash the given one matches.
abbrev pub accepts : Env → String → String → Database → Bool
accepts env username password db = elim (user_named (to_username_format env username) db) [
  | none ↦ false
  | some user ↦ user.is_active && (elim user.password [
    | none ↦ false
    | some hash ↦ elim (env.compare_hash password hash) [ ok b ↦ b | err e ↦ false ]
  ])
]

find-has_user :
    (p : UserRow → Bool) (us : List UserRow) (u : UserRow)
    → find p us ≡ some u
    → has_user us u.id ≡ true
find-has_user p [] u h = cc
find-has_user p (v ∷ us) u h = ground (arith, find-has_user p us u, eq_refl u.id)

find-token :
    (token : String) (rows : List RefreshToken) (row : RefreshToken)
    → find (λ t. t.token == token) rows ≡ some row
    → row.token ≡ token
find-token token [] row h = cc
find-token token (t ∷ rows) row h = ground (arith, find-token token rows row, eq_iff t.token token)

find-delete_where :
    (token : String) (rows : List RefreshToken)
    → find (λ t. t.token == token) (delete_where (λ t. t.token == token) rows) ≡ none
find-delete_where token [] = refl
find-delete_where token (t ∷ rows) = ground (arith, find-delete_where token rows)

module _ (env : Env) where
  -- Login succeeds only for the credentials of an active user.
  pub login_sound :
      (username password : String) (w : World) (r : LoginResult)
      → (login env username password w).0 ≡ ok r
      → accepts env username password w.base ≡ true
  unfolding login map_error select lift guard ◌>>=◌
  login_sound username password w r h = ground arith

  -- It then adds one session of that user to what is committed, unless the commit meets an outage: then nothing changes.
  pub login_effect :
      (username password : String) (user : UserRow) (w : World) (r : LoginResult)
      → user_named (to_username_format env username) w.base ≡ some user
      → (login env username password w).0 ≡ ok r
      → (r ≡ session env (suc (suc w.asked)))
        × (((commit_lost env (login env username password w).1 ≡ true)
              × ((login env username password w).1.base ≡ w.base))
            ⊎ ((login env username password w).1.base ≡ record (w.base) {
              accounts = signed_in env user.id false (suc (suc w.asked)) w.base.accounts;
            }))
  unfolding login map_error select lift guard ◌>>=◌ local_user_to_dto
  login_effect username password user w r found h = ground (
    arith,
    with_transaction_ok env (authenticate_user env tx (local_user_to_dto user none) false) (next w)
        r (authenticate_user-Quiet env (local_user_to_dto user none) false),
    authenticate_user_ok env (local_user_to_dto user none) false (begun (next w)) r,
  )

  -- A working database refuses no session to a user it holds.
  authenticate_user_complete :
      (user : User) (w : World)
      → ((n : ℕ) → env.outage n ≡ false)
      → has_user w.view.accounts.users user.id ≡ true
      → any (λ t. t.token == env.uuid (suc w.asked)) w.view.accounts.access_tokens ≡ false
      → any (λ t. t.token == env.uuid (suc (suc w.asked))) w.view.accounts.refresh_tokens ≡ false
      → (authenticate_user env tx user false w).0 ≡ ok (session env w.asked)
  unfolding authenticate_user invalidate_tokens write now pure ◌>>=◌ insert_access_token
      insert_refresh_token update_user
  authenticate_user_complete user w up has fresh fresh' =
      ground (arith, up (suc w.asked), up (suc (suc w.asked)), up (suc (suc (suc (suc w.asked)))))

  -- With a working database and with identifiers that are no tokens yet, a login with accepted
  -- credentials succeeds.
  pub login_complete :
      (username password : String) (w : World)
      → ((n : ℕ) → env.outage n ≡ false)
      → accepts env username password w.base ≡ true
      → any (λ t. t.token == env.uuid (suc (suc (suc w.asked)))) w.base.accounts.access_tokens
        ≡ false
      → any
          (λ t. t.token == env.uuid (suc (suc (suc (suc w.asked)))))
          w.base.accounts.refresh_tokens
        ≡ false
      → (login env username password w).0 ≡ ok (session env (suc (suc w.asked)))
  unfolding login map_error select lift guard ◌>>=◌ with_transaction local_user_to_dto
  login_complete username password w up good fresh fresh' =
      elim (Option-cases (user_named (to_username_format env username) w.base)) [
        | inl e ↦ absurd (ground arith)
        | inr (user, e) ↦ ground (
          arith,
          up w.asked,
          up (suc w.asked),
          find-has_user _ w.base.accounts.users user e,
          authenticate_user_complete (local_user_to_dto user none) (begun (next w)) up,
        )
      ]

  exchange_ok :
      (old : String) (user : User) (w : World) (r : LoginResult)
      → (exchange env old user w).0 ≡ ok r
      → (r ≡ session env (suc w.asked))
        × ((exchange env old user w).1.view ≡ record (w.view) {
          accounts = signed_in env user.id false (suc w.asked) (record (w.view.accounts) {
            refresh_tokens = delete_where (λ t. t.token == old) w.view.accounts.refresh_tokens;
          });
        })
  unfolding exchange write ◌>>=◌ delete_refresh_token
  exchange_ok old user w r h = ground (
    arith,
    authenticate_user_ok env user false
        (next (record w {
          view = record (w.view) {
            accounts = record (w.view.accounts) {
              refresh_tokens = delete_where (λ t. t.token == old) w.view.accounts.refresh_tokens;
            };
          };
        }))
        r,
  )

  refresh_tx :
      (token : String) (old : RefreshToken) (user : UserRow) (w : World) (r : LoginResult)
      → refresh_token_is token w.base ≡ some old
      → user_with_id old.user_id w.base ≡ some user
      → (refresh env token w).0 ≡ ok r
      → refresh env token w
        ≡ with_transaction env
            (exchange env old.token (local_user_to_dto user none))
            (next (next w))
  unfolding refresh select lift guard ◌>>=◌
  refresh_tx token old user w r e f h = ground arith

  -- Refresh succeeds only for a stored token of an active user.
  pub refresh_sound :
      (token : String) (w : World) (r : LoginResult)
      → (refresh env token w).0 ≡ ok r
      → (old : RefreshToken) × (user : UserRow) × (refresh_token_is token w.base ≡ some old)
        × (user_with_id old.user_id w.base ≡ some user)
        × (user.is_active ≡ true)
  unfolding refresh select lift guard ◌>>=◌
  refresh_sound token w r h = elim (Option-cases (refresh_token_is token w.base)) [
    | inl e ↦ absurd (ground arith)
    | inr (old, e) ↦ elim (Option-cases (user_with_id old.user_id w.base)) [
      | inl f ↦ absurd (ground arith)
      | inr (user, f) ↦ (old, user, e, f, ground arith)
    ]
  ]

  -- A refresh token serves once: after a refresh it is no longer stored, unless the new refresh token
  -- is the same text, or the commit meets an outage: then nothing changes.
  pub refresh_once :
      (token : String) (w : World) (r : LoginResult)
      → (refresh env token w).0 ≡ ok r
      → ((commit_lost env (refresh env token w).1 ≡ true) × ((refresh env token w).1.base ≡ w.base))
        ⊎ ((r.refresh_token ≡ token) ⊎ (refresh_token_is token (refresh env token w).1.base ≡ none))
  refresh_once token w r h =
      let (old, user, e, f, active) = refresh_sound token w r h in
      let u : User = local_user_to_dto user none in
      let same : old.token ≡ token = find-token token w.base.accounts.refresh_tokens old e in
      ground (
        arith,
        refresh_tx token old user w r e f h,
        with_transaction_ok env (exchange env old.token u) (next (next w)) r
            (exchange-Quiet env old.token u),
        exchange_ok old.token u (begun (next (next w))) r,
        find-delete_where token w.base.accounts.refresh_tokens,
        eq_iff r.refresh_token token,
      )
