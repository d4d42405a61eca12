-- ===== src/PushTokens.antt =====
-- UpdatePushToken (internal/data/local/service_push.go).
pub mod Updates
use go_mpc_vault.Prelude.{
  String, Bool, not, ◌&&◌, ◌||◌, Option, none, some, ◌∷◌, find, any, delete_where, if◌then◌else◌,
  ◌==◌,
}
use go_mpc_vault.Errors.{
  Error, Result, ok, err, constraint, no_rows, conflict_push_token, not_found_old_push_token,
  is_no_rows,
}
use go_mpc_vault.Data.{Database}
use go_mpc_vault.Data.UserTables.{PushToken, Accounts, has_user}
use go_mpc_vault.Exec.{
  Env, M, Stamp, pool, tx, pure, lift, guard, require, map_error, select, write, with_transaction,
  ◌>>=◌, ◌>>◌,
}
use go_mpc_vault.Auth.{User}

-- dto.UpdatePushTokenRequest
pub record UpdatePushTokenRequest : Type 0 where
  pub user : User
  pub token : String
  pub provider : String
  pub existing_token : Option String

abbrev pub push_token_exists : String → Database → Bool
push_token_exists token db = any (λ t. t.token == token) db.accounts.push_tokens

abbrev pub push_token_of : String → String → Database → Option PushToken
push_token_of token uid db =
    find (λ t. t.token == token && t.user_id == uid) db.accounts.push_tokens

-- INSERT INTO push_tokens; the token is unique.
unfoldable pub insert_push_token :
    UpdatePushTokenRequest → Stamp → Database → Result (Unit {0} × Database)
insert_push_token r s db =
    if any (λ t. t.id == s.uuid) db.accounts.push_tokens
      || (push_token_exists r.token db || not (has_user db.accounts.users r.user.id))
    then err constraint
    else ok (
      tt,
      record db {
        accounts = record (db.accounts) {
          push_tokens =
              record {
                id = s.uuid;
                token = r.token;
                provider = r.provider;
                user_id = r.user.id;
                created_at = s.wall;
                updated_at = s.wall;
              }
              ∷ db.accounts.push_tokens;
        };
      },
    )

-- DELETE FROM push_tokens WHERE id = ?
unfoldable pub delete_push_token : String → Stamp → Database → Result (Unit {0} × Database)
delete_push_token id s db = ok (
  tt,
  record db {
    accounts = record (db.accounts) {
      push_tokens = delete_where (λ t. t.id == id) db.accounts.push_tokens;
    };
  },
)

module _ (env : Env) where
  -- `IsZero` is of a value that is not NULL; an empty text is looked for.
  unfoldable pub delete_existing : String → Option String → M (Unit {0})
  delete_existing uid none = pure tt
  delete_existing uid (some token) = do
    found ← select env tx (push_token_of token uid)
    old ← lift (require found not_found_old_push_token)
    write env tx (delete_push_token old.id)

  -- The new token is inserted on the pool, not in the transaction.
  unfoldable pub replace_token : UpdatePushTokenRequest → M (Unit {0})
  replace_token r = do
    exists ← select env tx (push_token_exists r.token)
    guard (not exists) conflict_push_token
    write env pool (insert_push_token r)
    delete_existing r.user.id r.existing_token

  unfoldable pub update_push_token : UpdatePushTokenRequest → M (Unit {0})
  update_push_token r = with_transaction env (replace_token r)
