-- ===== src/Passkeys.antt =====
-- The passkey service (internal/service/auth/impl.go). The library that checks what an authenticator
-- sends (go-webauthn) is a parameter; its sessions, options and answers are texts here.
pub mod Registered
pub mod Logins
use go_mpc_vault.Prelude.{
  ℕ, String, Bool, not, ◌&&◌, ◌||◌, Option, none, some, List, ◌∷◌, map, find, any, rows_where,
  update_where, null_text, default_to, if◌then◌else◌, ◌==◌,
}
use go_mpc_vault.Errors.{Error, Result, ok, err, constraint, no_rows, message}
use go_mpc_vault.Data.{Database}
use go_mpc_vault.Data.UserTables.{User, UserCredential, has_user}
use go_mpc_vault.Exec.{
  Env, M, Stamp, pool, pure, lift, require, attempt, select, write, ◌>>=◌, ◌>>◌,
}
use go_mpc_vault.Auth.Statements.{user_named}

-- webauthn.Credential, the fields that are stored or read
pub record Credential : Type 0 where
  pub id : String
  pub public_key : String
  pub attestation_type : String
  pub aaguid : String
  pub sign_count : ℕ

-- WebAuthnUser
pub record WebAuthnUser : Type 0 where
  pub user : User
  pub credentials : List Credential

-- webauthn.WebAuthn: the options and the session of a ceremony, and the credential that ends it
pub record WebAuthn : Type 0 where
  pub begin_registration : WebAuthnUser → Result (String × String)
  pub finish_registration : WebAuthnUser → String → String → Result Credential
  pub begin_login : WebAuthnUser → Result (String × String)
  pub finish_login : WebAuthnUser → String → String → Result Credential

-- A credential as it is made of its row; the counter is not read.
abbrev credential_of : UserCredential → Credential
credential_of c = record {
  id = c.credential_id;
  public_key = c.public_key;
  attestation_type = null_text c.attestation_type;
  aaguid = "";
  sign_count = 0;
}

abbrev is_credential : String → String → UserCredential → Bool
is_credential uid cid c = c.user_id == uid && c.credential_id == cid

abbrev stored_credential : String → String → Database → Option UserCredential
stored_credential uid cid db = find (is_credential uid cid) db.accounts.credentials

abbrev credentials_of : String → Database → List UserCredential
credentials_of uid db = rows_where (λ c. c.user_id == uid) db.accounts.credentials

abbrev credential_row : String → Credential → Stamp → UserCredential
credential_row uid c s = record {
  id = s.uuid;
  user_id = uid;
  credential_id = c.id;
  public_key = c.public_key;
  attestation_type = some c.attestation_type;
  aaguid = some c.aaguid;
  sign_count = some c.sign_count;
  device_name = none;
  last_used_at = none;
  created_at = some s.wall;
  updated_at = some s.wall;
}

-- INSERT INTO user_credentials, with UNIQUE (user_id, credential_id); the database makes the key. The
-- column aaguid is of type uuid, and is given the bytes of the AAGUID as a text.
unfoldable pub insert_credential :
    (String → Bool) → String → Credential → Stamp → Database → Result (Unit {0} × Database)
insert_credential is_uuid uid c s db =
    if any (λ x. x.id == s.uuid) db.accounts.credentials
      || (any (is_credential uid c.id) db.accounts.credentials
          || not (has_user db.accounts.users uid && is_uuid c.aaguid))
    then err constraint
    else ok (
      tt,
      record db {
        accounts = record (db.accounts) {
          credentials = credential_row uid c s ∷ db.accounts.credentials;
        };
      },
    )

-- UPDATE user_credentials with every column of the row that was loaded, but for its key and its time
-- of creation
unfoldable pub update_credential : UserCredential → Stamp → Database → Result (Unit {0} × Database)
update_credential r s db = ok (
  tt,
  record db {
    accounts = record (db.accounts) {
      credentials =
          update_where (λ c. c.id == r.id)
            (λ c. record r { id = c.id; created_at = c.created_at; updated_at = some s.wall })
            db.accounts.credentials;
    };
  },
)

module _ (env : Env) (lib : WebAuthn) where
  unfoldable pub get_user : String → M WebAuthnUser
  get_user email = do
    found ← select env pool (user_named email)
    user ← lift (require found (message "user not found"))
    rows ← select env pool (credentials_of user.id)
    pure (record { user = user; credentials = map credential_of rows })

  unfoldable pub begin_registration : String → M (String × String)
  begin_registration email = do user ← get_user email; lift (lib.begin_registration user)

  unfoldable pub finish_registration : String → String → String → M Credential
  finish_registration email session body = do
    user ← get_user email
    credential ← lift (lib.finish_registration user session body)
    write env pool (insert_credential env.is_uuid user.user.id credential)
    pure credential

  unfoldable pub begin_login : String → M (String × String)
  begin_login email = do user ← get_user email; lift (lib.begin_login user)

  -- The row of the credential, if it is found: its counter is stored. An error of the query is ignored.
  unfoldable pub store_count : ℕ → Result UserCredential → M (Unit {0})
  store_count count (ok row) =
      write env pool (update_credential (record row { sign_count = some count }))
  store_count count (err e) = pure tt

  unfoldable pub find_credential : String → String → M UserCredential
  find_credential uid cid = do
    found ← select env pool (stored_credential uid cid)
    lift (require found no_rows)

  unfoldable pub finish_login : String → String → String → M Credential
  finish_login email session body = do
    user ← get_user email
    credential ← lift (lib.finish_login user session body)
    row ← attempt (find_credential user.user.id credential.id)
    store_count credential.sign_count row
    pure credential
