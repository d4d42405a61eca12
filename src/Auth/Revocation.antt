-- ===== src/Auth/Revocation.antt =====
-- UpdatePassword and ResetPassword of internal/auth/service.go: who may change a password, and what
-- becomes of the sessions of the user.
use go_mpc_vault.Prelude.{
  ℕ, suc, ◌≤◌, String, Bool, true, false, Option, none, some, List, [], ◌∷◌, map, ◌≡◌, ◌≢◌, ◌⊎◌,
  refl, arith, rows_where, find, update_where, map_option, eq_refl, eq_iff, ◌==◌, Option-cases, inl,
  inr,
}
use go_mpc_vault.Prelude.Tables.{rows_where-delete_where, find-update_where}
use go_mpc_vault.Errors.{Error, ok, err, Result-cases}
use go_mpc_vault.Data.{Database}
use go_mpc_vault.Data.UserTables.{User as UserRow, PasswordResetToken}
use go_mpc_vault.Exec.{
  Env, World, select, write, now, lift, guard, map_error, hash_new, with_transaction, begun, next,
  commit_lost, ◌>>=◌, pure,
}
use go_mpc_vault.Exec.Atomic.{with_transaction_ok}
use go_mpc_vault.Auth.{User, LoginResult, local_user_to_dto}
use go_mpc_vault.Auth.Statements.{user_with_id, reset_token_is, update_user}
use go_mpc_vault.Auth.Password.{verify_current, store_password, update_password, reset_password}
use go_mpc_vault.Auth.Failures.{store_password-Quiet}
use go_mpc_vault.Auth.Effects.{signed_in, session, authenticate_user_ok}

-- The access tokens, the refresh tokens and the password that are stored for a user.
abbrev access_tokens_of : String → Database → List String
access_tokens_of uid db =
    map (λ t. t.token) (rows_where (λ t. t.user_id == uid) db.accounts.access_tokens)

abbrev refresh_tokens_of : String → Database → List String
refresh_tokens_of uid db =
    map (λ t. t.token) (rows_where (λ t. t.user_id == uid) db.accounts.refresh_tokens)

abbrev password_of : String → Database → Option (Option String)
password_of uid db = map_option (λ u. u.password) (user_with_id uid db)

-- The password given matches the stored hash.
abbrev pub verified : Env → String → Option String → Bool
verified env current none = false
verified env current (some hash) = elim (env.compare_hash current hash) [ ok b ↦ b | err e ↦ false ]

-- What a password change is to leave of the user's credentials.
pub record Replaced (uid hash : String) (r : LoginResult) (old new : Database) : Type 0 where
  pub access : access_tokens_of uid new ≡ r.access_token ∷ []
  pub refresh : refresh_tokens_of uid new ≡ r.refresh_token ∷ []
  pub password : password_of uid new ≡ map_option (λ u. some hash) (user_with_id uid old)
  pub reset_tokens : new.accounts.reset_tokens ≡ old.accounts.reset_tokens

module _ (env : Env) (uid hash : String) where
  -- The user's row with the new hash, as UPDATE leaves it at time `t`.
  abbrev rehashed : ℕ → UserRow → UserRow
  rehashed t u = record u { password = some hash; updated_at = t }

  abbrev stored : ℕ → ℕ → Database → Database
  stored t n db = record db {
    accounts = signed_in env uid true n (record (db.accounts) {
      users = update_where (λ u. u.id == uid) (rehashed t) db.accounts.users;
    });
  }

  password-stored :
      (t n : ℕ) (db : Database)
      → password_of uid (stored t n db) ≡ map_option (λ u. some hash) (user_with_id uid db)
  password-stored t n db = ground (
    arith,
    find-update_where (λ u. u.id) uid
        (λ (u : UserRow). record u {
          last_authenticated_at = some (env.clock (suc (suc (suc n))));
          updated_at = env.wall (suc (suc (suc (suc n))));
        })
        (update_where (λ u. u.id == uid) (rehashed t) db.accounts.users) (λ u. refl),
    find-update_where (λ u. u.id) uid (rehashed t) db.accounts.users (λ u. refl),
  )

  Replaced-stored : (t n : ℕ) (db : Database) → Replaced uid hash (session env n) db (stored t n db)
  Replaced-stored t n db = record {
    access = ground (
      arith,
      eq_refl uid,
      rows_where-delete_where (λ t. t.user_id == uid) db.accounts.access_tokens,
    );
    refresh = ground (
      arith,
      eq_refl uid,
      rows_where-delete_where (λ t. t.user_id == uid) db.accounts.refresh_tokens,
    );
    password = password-stored t n db;
    reset_tokens = refl;
  }

pub find-user :
    (k : String) (us : List UserRow) (u : UserRow) → find (λ v. v.id == k) us ≡ some u → u.id ≡ k
find-user k [] u h = cc
find-user k (v ∷ us) u h = ground (arith, find-user k us u, eq_iff v.id k)

module _ (env : Env) (user : User) where
  store_password_ok :
      (hash : String) (w : World) (r : LoginResult)
      → (store_password env user hash w).0 ≡ ok r
      → (r ≡ session env (suc (suc (suc w.asked))))
        × ((store_password env user hash w).1.view
            ≡ stored env user.id hash (env.wall w.asked) (suc (suc (suc w.asked))) w.view)
  unfolding store_password write ◌>>=◌ update_user
  store_password_ok hash w r h = ground (
    arith,
    authenticate_user_ok env (record user { password_hash = some hash }) true
        (next (record w {
          view = record (w.view) {
            accounts = record (w.view.accounts) {
              users =
                  update_where (λ u. u.id == user.id) (rehashed env user.id hash (env.wall w.asked))
                    w.view.accounts.users;
            };
          };
        }))
        r,
  )

  update_password_tx :
      (current new hash : String) (skip : Bool) (w : World) (r : LoginResult)
      → env.hash_password w.asked new ≡ ok hash
      → (update_password env user current skip new w).0 ≡ ok r
      → update_password env user current skip new w
        ≡ with_transaction env (store_password env user hash) (next w)
  unfolding update_password verify_current map_error hash_new lift guard ◌>>=◌ pure
  update_password_tx current new hash true w r e h = ground arith
  update_password_tx current new hash false w r e h = ground arith

  update_password_sound :
      (current new : String) (skip : Bool) (w : World) (r : LoginResult)
      → (update_password env user current skip new w).0 ≡ ok r
      → (user.is_active ≡ true) × ((skip ≡ true) ⊎ (verified env current user.password_hash ≡ true))
  unfolding update_password verify_current map_error hash_new lift guard ◌>>=◌ pure
  update_password_sound current new true w r h = (ground arith, inl refl)
  update_password_sound current new false w r h = (ground arith, inr (ground arith))

  update_password_refused :
      (current new : String) (skip : Bool) (w : World) (r : LoginResult) (x : Error)
      → env.hash_password w.asked new ≡ err x
      → (update_password env user current skip new w).0 ≢ ok r
  unfolding update_password verify_current map_error hash_new lift guard ◌>>=◌ pure
  update_password_refused current new true w r x e h = ground arith
  update_password_refused current new false w r x e h = ground arith

  update_password_hash :
      (current new : String) (skip : Bool) (w : World) (r : LoginResult)
      → (update_password env user current skip new w).0 ≡ ok r
      → (hash : String) × (env.hash_password w.asked new ≡ ok hash)
  update_password_hash current new skip w r h =
      elim (Result-cases (env.hash_password w.asked new)) [
        | inl found ↦ found
        | inr (x, e) ↦ absurd (update_password_refused current new skip w r x e h)
      ]

  update_password_replaces :
      (current new hash : String) (skip : Bool) (w : World) (r : LoginResult)
      → env.hash_password w.asked new ≡ ok hash
      → (update_password env user current skip new w).0 ≡ ok r
      → ((commit_lost env (update_password env user current skip new w).1 ≡ true)
          × ((update_password env user current skip new w).1.base ≡ w.base))
        ⊎ Replaced user.id hash r w.base (update_password env user current skip new w).1.base
  update_password_replaces current new hash skip w r e h = ground (
    arith,
    update_password_tx current new hash skip w r e h,
    with_transaction_ok env (store_password env user hash) (next w) r
        (store_password-Quiet env user hash),
    store_password_ok hash (begun (next w)) r,
    Replaced-stored env user.id hash (env.wall (suc (suc w.asked)))
        (suc (suc (suc (suc (suc w.asked))))) w.base,
  )

  -- A password is changed only for an active user who knows the current one, where that is asked
  -- for. The change leaves the hash of the new password, no session of the user but the new one, and
  -- the reset tokens as they were; if the commit meets an outage, all tables are as they were.
  pub update_password_correct :
      (current new : String) (skip : Bool) (w : World) (r : LoginResult)
      → (update_password env user current skip new w).0 ≡ ok r
      → (user.is_active ≡ true)
        × ((skip ≡ true) ⊎ (verified env current user.password_hash ≡ true))
        × ((hash : String) × (env.hash_password w.asked new ≡ ok hash)
            × (((commit_lost env (update_password env user current skip new w).1 ≡ true)
                  × ((update_password env user current skip new w).1.base ≡ w.base))
                ⊎ Replaced user.id hash r w.base
                    (update_password env user current skip new w).1.base))
  update_password_correct current new skip w r h =
      let (active, known) = update_password_sound current new skip w r h in
      let (hash, e) = update_password_hash current new skip w r h in
      (active, known, (hash, e, update_password_replaces current new hash skip w r e h))

module _ (env : Env) where
  reset_password_tx :
      (token new : String) (row : PasswordResetToken) (user : UserRow) (w : World) (r : LoginResult)
      → reset_token_is token w.base ≡ some row
      → user_with_id row.user_id w.base ≡ some user
      → (reset_password env token new w).0 ≡ ok r
      → (env.clock (suc (suc w.asked)) ≤ row.valid_until)
        × (reset_password env token new w
            ≡ update_password env (local_user_to_dto user none) "" true new (next (next (next w))))
  unfolding reset_password select now lift guard ◌>>=◌
  reset_password_tx token new row user w r e f h = (ground arith, ground arith)

  -- ResetPassword goes on to UpdatePassword for the owner of a stored token that has not expired.
  reset_password_found :
      (token new : String) (w : World) (r : LoginResult)
      → (reset_password env token new w).0 ≡ ok r
      → (row : PasswordResetToken) × (user : UserRow) × (reset_token_is token w.base ≡ some row)
        × (user_with_id row.user_id w.base ≡ some user)
  unfolding reset_password select now lift guard ◌>>=◌
  reset_password_found token new w r h = elim (Option-cases (reset_token_is token w.base)) [
    | inl e ↦ absurd (ground arith)
    | inr (row, e) ↦ elim (Option-cases (user_with_id row.user_id w.base)) [
      | inl f ↦ absurd (ground arith)
      | inr (user, f) ↦ (row, user, e, f)
    ]
  ]

  -- A reset needs a stored token that has not expired. It leaves its owner with the hash of the new
  -- password and no session but the new one; if the commit meets an outage, all tables are as they were. The
  -- token itself stays stored, so that it serves again until it expires.
  pub reset_password_correct :
      (token new : String) (w : World) (r : LoginResult)
      → (reset_password env token new w).0 ≡ ok r
      → (row : PasswordResetToken) × (reset_token_is token w.base ≡ some row)
        × (env.clock (suc (suc w.asked)) ≤ row.valid_until)
        × ((hash : String) × (env.hash_password (suc (suc (suc w.asked))) new ≡ ok hash)
            × (((commit_lost env (reset_password env token new w).1 ≡ true)
                  × ((reset_password env token new w).1.base ≡ w.base))
                ⊎ Replaced row.user_id hash r w.base (reset_password env token new w).1.base))
  unfolding local_user_to_dto
  reset_password_correct token new w r h =
      let (row, user, e, f) = reset_password_found token new w r h in
      let (live, same) = reset_password_tx token new row user w r e f h in
      let owned : user.id ≡ row.user_id = find-user row.user_id w.base.accounts.users user f in
      let (active, known, (hash, hashed, change)) =
        update_password_correct env (local_user_to_dto user none) "" new true (next (next (next w)))
          r (rw same at h) in
      (row, e, live, (hash, hashed, rw (same, ← owned) change))
