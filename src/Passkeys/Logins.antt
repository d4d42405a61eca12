-- ===== src/Passkeys/Logins.antt =====
-- Login of internal/service/auth/impl.go: what it changes of a credential.
use go_mpc_vault.Prelude.{
  ℕ, String, some, ◌≡◌, ◌⊎◌, refl, arith, update_where, ◌==◌, inl, inr, ◌∙◌, sym,
}
use go_mpc_vault.Errors.{Error, Result, ok, err, Result-cases}
use go_mpc_vault.Data.{Database}
use go_mpc_vault.Data.UserTables.{User, UserCredential}
use go_mpc_vault.Exec.{Env, World, pure, lift, attempt, as_value, select, write, ◌>>=◌}
use go_mpc_vault.Auth.Statements.{user_named}
use go_mpc_vault.Passkeys.{
  Credential, WebAuthnUser, WebAuthn, stored_credential, update_credential, get_user, store_count,
  find_credential, finish_login,
}
use go_mpc_vault.Passkeys.Registered.{get_user_ok, get_user_world}

module _ (env : Env) (lib : WebAuthn) where
  abbrev counted : UserCredential → ℕ → ℕ → Database → Database
  counted row count n db = record db {
    accounts = record (db.accounts) {
      credentials =
          update_where (λ x. x.id == row.id)
            (λ x. record row {
              id = x.id;
              created_at = x.created_at;
              sign_count = some count;
              updated_at = some (env.wall n);
            })
            db.accounts.credentials;
    };
  }

  store_count_world :
      (count : ℕ) (r : Result UserCredential) (w : World)
      → (store_count env lib count r w).0 ≡ ok tt
      → ((r' : UserCredential) × (r ≡ ok r')
          × ((store_count env lib count r w).1.base ≡ counted r' count w.asked w.base))
        ⊎ ((e : Error) × (r ≡ err e) × ((store_count env lib count r w).1.base ≡ w.base))
  unfolding store_count write update_credential pure
  store_count_world count (ok row) w h = inl (row, refl, ground arith)
  store_count_world count (err e) w h = inr (e, refl, refl)

  -- What a login leaves behind: the counter of the credential that was used, if its row was found.
  pub record LoggedIn (email : String) (c : Credential) (w w' : World) : Type 0 where
    pub user : User
    pub named : user_named email w.base ≡ some user
    pub stored :
        (w'.base ≡ w.base)
        ⊎ ((row : UserCredential) × (n : ℕ) × (stored_credential user.id c.id w.base ≡ some row)
            × (w'.base ≡ counted row c.sign_count n w.base))

  find_credential_ok :
      (uid cid : String) (w : World) (row : UserCredential)
      → (find_credential env lib uid cid w).0 ≡ ok row
      → stored_credential uid cid w.base ≡ some row
  unfolding find_credential select lift pure ◌>>=◌
  find_credential_ok uid cid w row h = ground arith

  find_credential_world :
      (uid cid : String) (w : World) → (find_credential env lib uid cid w).1.base ≡ w.base
  unfolding find_credential select lift pure ◌>>=◌
  find_credential_world uid cid w = ground arith

  find_credential_value :
      (uid cid : String) (w : World)
      → as_value (find_credential env lib uid cid w).0 ≡ ok (find_credential env lib uid cid w).0
  unfolding find_credential select lift ◌>>=◌
  find_credential_value uid cid w = ground arith

  after_login :
      (email session body : String) (w : World) (u : WebAuthnUser) (c : Credential)
      → (get_user env lib email w).0 ≡ ok u
      → lib.finish_login u session body ≡ ok c
      → (found : Result UserCredential) (v : World)
      → find_credential env lib u.user.id c.id (get_user env lib email w).1 ≡ (found, v)
      → ((c' : Credential)
          → (finish_login env lib email session body w).0 ≡ ok c'
          → ((store_count env lib c.sign_count found v).0 ≡ ok tt) × (c' ≡ c))
        × ((finish_login env lib email session body w).1.base
            ≡ (store_count env lib c.sign_count found v).1.base)
  unfolding finish_login attempt lift pure ◌>>=◌
  after_login email session body w u c got accepted found v e =
      let value = find_credential_value u.user.id c.id (get_user env lib email w).1 in
      (λ c' h. (ground (arith, value), ground (arith, value)), ground (arith, value))

  login_stored :
      (email session body : String) (w : World) (u : WebAuthnUser) (c c' : Credential)
      → (get_user env lib email w).0 ≡ ok u
      → lib.finish_login u session body ≡ ok c
      → (finish_login env lib email session body w).0 ≡ ok c'
      → LoggedIn email c' w (finish_login env lib email session body w).1
  login_stored email session body w u c c' got accepted h =
      let w1 : World = (get_user env lib email w).1 in
      let found = find_credential env lib u.user.id c.id w1 in
      let (answers, base) =
        after_login email session body w u c got accepted found.0 found.1 refl in
      let (counted_ok, same) = answers c' h in
      let seen : found.1.base ≡ w.base =
        find_credential_world u.user.id c.id w1 ∙ get_user_world env lib email w in
      record {
        user = u.user;
        named = (get_user_ok env lib email w u got).0;
        stored = elim (store_count_world c.sign_count found.0 found.1 counted_ok) [
          | inr (e, missing, kept) ↦ inl (base ∙ kept ∙ seen)
          | inl (row, is, kept) ↦
              let known : stored_credential u.user.id c.id w1.base ≡ some row =
                find_credential_ok u.user.id c.id w1 row is in
              inr (
                row,
                found.1.asked,
                rw (same, sym (get_user_world env lib email w)) known,
                ground (arith, same, base, kept, seen),
              )
        ];
      }

  refused :
      (email session body : String) (w : World) (c : Credential) (x : Error)
      → (finish_login env lib email session body w).0 ≡ ok c
      → (get_user env lib email w).0 ≡ err x
      → ⊥
  unfolding finish_login ◌>>=◌
  refused email session body w c x h e = ground arith

  rejected :
      (email session body : String) (w : World) (u : WebAuthnUser) (c : Credential) (x : Error)
      → (finish_login env lib email session body w).0 ≡ ok c
      → (get_user env lib email w).0 ≡ ok u
      → lib.finish_login u session body ≡ err x
      → ⊥
  unfolding finish_login lift ◌>>=◌
  rejected email session body w u c x h e f = ground arith

  -- A login that succeeds is of a stored user. It changes at most the counter of the credential that
  -- the library has found to be used, and the time of its change: if the row of that credential is
  -- found, which is one of this user's, its counter is what the authenticator says.
  pub finish_login_ok :
      (email session body : String) (w : World) (c : Credential)
      → (finish_login env lib email session body w).0 ≡ ok c
      → LoggedIn email c w (finish_login env lib email session body w).1
  finish_login_ok email session body w c h = elim (Result-cases (get_user env lib email w).0) [
    | inr (x, e) ↦ absurd (refused email session body w c x h e)
    | inl (u, e) ↦ elim (Result-cases (lib.finish_login u session body)) [
      | inr (x, f) ↦ absurd (rejected email session body w u c x h e f)
      | inl (c', f) ↦ login_stored email session body w u c' c e f h
    ]
  ]
