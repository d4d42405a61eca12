-- ===== src/Auth/Registrations.antt =====
-- Register of internal/auth/service.go: what a registration leaves of a new account.
use go_mpc_vault.Prelude.{
  ℕ, suc, ◌+◌, String, true, false, not, Option, none, some, ◌∷◌, ◌≡◌, ◌⊎◌, arith, is_some, any,
  map_option, Option-cases, inl, inr, eq_refl, ◌==◌, Bool-cases,
}
use go_mpc_vault.Errors.{ok, Result-cases}
use go_mpc_vault.Data.{Database}
use go_mpc_vault.Data.UserTables.{User as UserRow}
use go_mpc_vault.Exec.{
  commit_lost, Env, World, select, write, now, pure, hash_new, map_error, guard, raise,
  with_transaction, next, ◌>>=◌,
}
use go_mpc_vault.Auth.{to_username_format}
use go_mpc_vault.Auth.Statements.{
  user_named, user_with_id, profile_of, insert_user, insert_profile, insert_confirmation_token,
  new_user,
}
use go_mpc_vault.Auth.Registration.{
  RegisterResult, new_confirmation, register_again, register_new, register_named, register,
}

-- The account of a new user, with the hash of the password. It waits for confirmation, and a
-- confirmation token is stored, if the configuration says so; otherwise it is active.
pub record IsRegistered (env : Env) (name hash : String) (r : RegisterResult) (db : Database)
    : Type 0 where
  pub id : String
  pub named : map_option (λ u. u.id) (user_named name db) ≡ some id
  pub password : map_option (λ u. u.password) (user_with_id id db) ≡ some (some hash)
  pub active :
      map_option (λ u. u.is_active) (user_with_id id db)
      ≡ some (not env.config.registration_requires_confirmation)
  pub waiting :
      map_option (λ u. u.requires_confirmation) (user_with_id id db)
      ≡ some env.config.registration_requires_confirmation
  pub profile : is_some (profile_of id db) ≡ true
  pub confirmation : is_some r.confirmation_token ≡ env.config.registration_requires_confirmation
  pub token :
      (t : String)
      → r.confirmation_token ≡ some t
      → any (λ c. c.token == t) db.accounts.confirmation_tokens ≡ true

module _ (env : Env) where
  abbrev registered : String → String → ℕ → Database → Database
  registered name hash n db = record db {
    accounts = record (db.accounts) {
      users =
          new_user name hash (env.clock n) (not env.config.registration_requires_confirmation)
            env.config.registration_requires_confirmation env.config.default_user_scopes
            (record { wall = env.wall (suc n); uuid = env.uuid (suc n) })
          ∷ db.accounts.users;
      profiles =
          record {
            user_id = env.uuid (suc n);
            legal_accepted_at = Option.none;
            created_at = env.wall (suc (suc n));
            updated_at = env.wall (suc (suc n));
          }
          ∷ db.accounts.profiles;
    };
  }

  abbrev with_confirmation : ℕ → Database → Database
  with_confirmation n db = record db {
    accounts = record (db.accounts) {
      confirmation_tokens =
          record {
            token = env.uuid (suc (suc (suc (suc n))));
            valid_until = env.clock (suc (suc (suc n))) + env.config.confirmation_token_validity;
            user_id = env.uuid (suc n);
            created_at = env.wall (suc (suc (suc (suc n))));
            updated_at = env.wall (suc (suc (suc (suc n))));
          }
          ∷ db.accounts.confirmation_tokens;
    };
  }

  register_new_ok :
      (name password : String) (w : World) (r : RegisterResult)
      → env.config.registration_requires_confirmation ≡ true
      → (register_new env name password w).0 ≡ ok r
      → (hash : String) × (env.hash_password w.asked password ≡ ok hash)
        × (r.confirmation_token ≡ some (env.uuid (suc (suc (suc (suc (suc (suc w.asked))))))))
        × (((commit_lost env (register_new env name password w).1 ≡ true)
              × ((register_new env name password w).1.base ≡ w.base))
            ⊎ ((register_new env name password w).1.base
                ≡ with_confirmation
                    (suc (suc w.asked))
                    (registered name hash (suc (suc w.asked)) w.base)))
  unfolding register_new new_confirmation map_error hash_new with_transaction now write pure
      insert_user insert_profile insert_confirmation_token ◌>>=◌
  register_new_ok name password w r conf h =
      elim (Result-cases (env.hash_password w.asked password)) [
        | inr (e, l) ↦ absurd (ground arith)
        | inl (hash, l) ↦ (hash, l, ground arith, ground arith)
      ]

  register_new_ok_active :
      (name password : String) (w : World) (r : RegisterResult)
      → env.config.registration_requires_confirmation ≡ false
      → (register_new env name password w).0 ≡ ok r
      → (hash : String) × (env.hash_password w.asked password ≡ ok hash)
        × (r.confirmation_token ≡ none)
        × (((commit_lost env (register_new env name password w).1 ≡ true)
              × ((register_new env name password w).1.base ≡ w.base))
            ⊎ ((register_new env name password w).1.base
                ≡ registered name hash (suc (suc w.asked)) w.base))
  unfolding register_new new_confirmation map_error hash_new with_transaction now write pure
      insert_user insert_profile insert_confirmation_token ◌>>=◌
  register_new_ok_active name password w r conf h =
      elim (Result-cases (env.hash_password w.asked password)) [
        | inr (e, l) ↦ absurd (ground arith)
        | inl (hash, l) ↦ (hash, l, ground arith, ground arith)
      ]

  registered-IsRegistered :
      (name hash : String) (r : RegisterResult) (n : ℕ) (db : Database)
      → env.config.registration_requires_confirmation ≡ false
      → r.confirmation_token ≡ none
      → IsRegistered env name hash r (registered name hash n db)
  registered-IsRegistered name hash r n db conf quiet = record {
    id = env.uuid (suc n);
    named = ground (arith, eq_refl name);
    password = ground (arith, eq_refl (env.uuid (suc n)));
    active = ground (arith, eq_refl (env.uuid (suc n)));
    waiting = ground (arith, eq_refl (env.uuid (suc n)));
    profile = ground (arith, eq_refl (env.uuid (suc n)));
    confirmation = ground arith;
    token = λ t e. absurd (ground arith);
  }

  confirmation-IsRegistered :
      (name hash : String) (r : RegisterResult) (n : ℕ) (db : Database)
      → env.config.registration_requires_confirmation ≡ true
      → r.confirmation_token ≡ some (env.uuid (suc (suc (suc (suc n)))))
      → IsRegistered env name hash r (with_confirmation n (registered name hash n db))
  confirmation-IsRegistered name hash r n db conf token = record {
    id = env.uuid (suc n);
    named = ground (arith, eq_refl name);
    password = ground (arith, eq_refl (env.uuid (suc n)));
    active = ground (arith, eq_refl (env.uuid (suc n)));
    waiting = ground (arith, eq_refl (env.uuid (suc n)));
    profile = ground (arith, eq_refl (env.uuid (suc n)));
    confirmation = ground arith;
    token = λ t e. ground (arith, eq_refl t);
  }

  register_again_ok :
      (user : UserRow) (w : World) (r : RegisterResult)
      → (register_again env user w).0 ≡ ok r
      → (user.requires_confirmation ≡ true)
        × ((register_again env user w).1.base.accounts.users ≡ w.base.accounts.users)
  unfolding register_again new_confirmation guard raise select now pure write
      insert_confirmation_token ◌>>=◌
  register_again_ok user w r h = (ground arith, ground arith)

  register_new-IsRegistered :
      (name password : String) (w : World) (r : RegisterResult)
      → (register_new env name password w).0 ≡ ok r
      → (hash : String) × (env.hash_password w.asked password ≡ ok hash)
        × (((commit_lost env (register_new env name password w).1 ≡ true)
              × ((register_new env name password w).1.base ≡ w.base))
            ⊎ IsRegistered env name hash r (register_new env name password w).1.base)
  register_new-IsRegistered name password w r h =
      elim (Bool-cases env.config.registration_requires_confirmation) [
        | inl conf ↦
            let (hash, e, token, ended) = register_new_ok name password w r conf h in
            (
              hash,
              e,
              elim ended [
                | inl lost ↦ inl lost
                | inr same ↦ inr (
                    rw same
                      (confirmation-IsRegistered name hash r (suc (suc w.asked)) w.base conf token))
              ],
            )
        | inr active ↦
            let (hash, e, token, ended) = register_new_ok_active name password w r active h in
            (
              hash,
              e,
              elim ended [
                | inl lost ↦ inl lost
                | inr same ↦ inr (
                    rw same
                      (registered-IsRegistered name hash r (suc (suc w.asked)) w.base active token))
              ],
            )
      ]

  -- A registration that succeeds is of a name that is free, and then the account is there, unless the
  -- commit meets an outage; or the name is that of a user who waits for confirmation, and then no user and no
  -- password changes.
  pub register_ok :
      (username password : String) (w : World) (r : RegisterResult)
      → (register env username password w).0 ≡ ok r
      → ((user_named (to_username_format env username) w.base ≡ none)
          × ((hash : String) × (env.hash_password (suc w.asked) password ≡ ok hash)
              × (((commit_lost env (register env username password w).1 ≡ true)
                    × ((register env username password w).1.base ≡ w.base))
                  ⊎ IsRegistered env
                      (to_username_format env username)
                      hash
                      r
                      (register env username password w).1.base)))
        ⊎ ((user : UserRow) × (user_named (to_username_format env username) w.base ≡ some user)
            × (user.requires_confirmation ≡ true)
            × ((register env username password w).1.base.accounts.users ≡ w.base.accounts.users))
  unfolding register register_named select ◌>>=◌
  register_ok username password w r h =
      elim (Option-cases (user_named (to_username_format env username) w.base)) [
        | inl e ↦
            let same : register env username password w
                ≡ register_new env (to_username_format env username) password (next w) =
              ground arith in
            inl (
              e,
              rw same (
                  register_new-IsRegistered (to_username_format env username) password (next w) r
                    (rw same at h)),
            )
        | inr (user, e) ↦
            let same : register env username password w ≡ register_again env user (next w) =
              ground arith in
            let (waits, kept) = register_again_ok user (next w) r (rw same at h) in
            inr (user, e, waits, rw same kept)
      ]
