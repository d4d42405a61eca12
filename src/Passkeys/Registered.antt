-- ===== src/Passkeys/Registered.antt =====
-- The user that the ceremonies of internal/service/auth/impl.go load, and what becomes of a
-- registration.
use go_mpc_vault.Prelude.{String, some, ◌≡◌, arith, map}
use go_mpc_vault.Errors.{ok}
use go_mpc_vault.Exec.{Env, World, pure, lift, select, ◌>>=◌}
use go_mpc_vault.Auth.Statements.{user_named}
use go_mpc_vault.Passkeys.{WebAuthnUser, WebAuthn, credential_of, credentials_of, get_user}

module _ (env : Env) (lib : WebAuthn) where
  pub get_user_ok :
      (email : String) (w : World) (u : WebAuthnUser)
      → (get_user env lib email w).0 ≡ ok u
      → (user_named email w.base ≡ some u.user)
        × (u.credentials ≡ map credential_of (credentials_of u.user.id w.base))
  unfolding get_user select lift pure ◌>>=◌
  get_user_ok email w u h = (ground arith, ground arith)

  pub get_user_world : (email : String) (w : World) → (get_user env lib email w).1.base ≡ w.base
  unfolding get_user select lift pure ◌>>=◌
  get_user_world email w = ground arith
