-- ===== src/Handlers.antt =====
-- The HTTP handlers (internal/api/handlers): what each takes from its request, which services it
-- calls, and what it answers. A body arrives as the result of `BindAndValidateBody`, which binds it
-- and checks it by the code that is generated from the API's description; so does a response leave.
pub mod Signing
pub mod Vaults
pub mod Organizations
pub mod Accounts
pub mod Tokens
pub mod Approving
pub mod Guards
pub mod Mails
pub mod Ownership
use go_mpc_vault.Prelude.{Option}
use go_mpc_vault.Errors.{unauthorized, panic}
use go_mpc_vault.Exec.{M, lift, require}
use go_mpc_vault.Auth.{User}
use go_mpc_vault.Middleware.{Request}

-- auth.UserFromContext and a test for nil
unfoldable pub signed_in : Request → M User
signed_in c = lift (require c.user unauthorized)

-- The same without the test: a nil is dereferenced.
unfoldable current_user : Request → M User
current_user c = lift (require c.user panic)
