-- ===== src/Auth/Statements.antt =====
-- The queries that the authentication service sends, as functions of the tables.
use go_mpc_vault.Prelude.{
  ℕ, ◌+◌, String, Bool, not, ◌&&◌, ◌||◌, Option, some, List, ◌∷◌, any, find, delete_where,
  update_where, null_eq, ltb, if◌then◌else◌, ◌==◌,
}
use go_mpc_vault.Errors.{Result, ok, err, constraint}
use go_mpc_vault.Data.{Database}
use go_mpc_vault.Data.UserTables.{
  User, AppUserProfile, AccessToken, RefreshToken, PasswordResetToken, ConfirmationToken, Accounts,
  has_user,
}
use go_mpc_vault.Exec.{Stamp}

abbrev pub user_named : String → Database → Option User
user_named name db = find (λ u. null_eq u.username name) db.accounts.users

abbrev pub user_with_id : String → Database → Option User
user_with_id uid db = find (λ u. u.id == uid) db.accounts.users

abbrev pub profile_of : String → Database → Option AppUserProfile
profile_of uid db = find (λ p. p.user_id == uid) db.accounts.profiles

abbrev pub access_token_is : String → Database → Option AccessToken
access_token_is t db = find (λ a. a.token == t) db.accounts.access_tokens

abbrev pub refresh_token_is : String → Database → Option RefreshToken
refresh_token_is t db = find (λ a. a.token == t) db.accounts.refresh_tokens

abbrev pub reset_token_is : String → Database → Option PasswordResetToken
reset_token_is t db = find (λ a. a.token == t) db.accounts.reset_tokens

-- The user's reset token that was created after `since - span` and is valid after `now`.
abbrev pub recent_reset_token : String → ℕ → ℕ → ℕ → Database → Option PasswordResetToken
recent_reset_token uid since span now db =
    find (λ t. t.user_id == uid && (ltb since (t.created_at + span) && ltb now t.valid_until))
      db.accounts.reset_tokens

abbrev pub recent_reset_exists : String → ℕ → ℕ → ℕ → Database → Bool
recent_reset_exists uid since span now db =
    any (λ t. t.user_id == uid && (ltb since (t.created_at + span) && ltb now t.valid_until))
      db.accounts.reset_tokens

abbrev pub recent_confirmation_exists : String → ℕ → ℕ → ℕ → Database → Bool
recent_confirmation_exists uid since span now db =
    any (λ t. t.user_id == uid && (ltb since (t.created_at + span) && ltb now t.valid_until))
      db.accounts.confirmation_tokens

abbrev pub live_confirmation_token : String → ℕ → Database → Option ConfirmationToken
live_confirmation_token token now db =
    find (λ t. t.token == token && ltb now t.valid_until) db.accounts.confirmation_tokens

-- A statement on the user tables, as one on the database.
abbrev pub on_accounts :
    {A : Type 0}
    → (Stamp → Accounts → Result (A × Accounts))
    → Stamp
    → Database
    → Result (A × Database)
on_accounts f s db = elim (f s db.accounts) [
  | ok (a, accounts) ↦ ok (a, record db { accounts = accounts })
  | err e ↦ err e
]

-- Each INSERT checks its primary key, and the foreign key to `users`.
unfoldable pub insert_access_token : ℕ → String → Stamp → Accounts → Result (String × Accounts)
insert_access_token valid_until uid s a =
    if has_user a.users uid && not (any (λ t. t.token == s.uuid) a.access_tokens)
    then ok (s.uuid, record a { access_tokens = row ∷ a.access_tokens })
    else err constraint
  where
    row : AccessToken
    row = record {
      token = s.uuid;
      valid_until = valid_until;
      user_id = uid;
      created_at = s.wall;
      updated_at = s.wall;
    }

unfoldable pub insert_refresh_token : String → Stamp → Accounts → Result (String × Accounts)
insert_refresh_token uid s a =
    if has_user a.users uid && not (any (λ t. t.token == s.uuid) a.refresh_tokens)
    then ok (s.uuid, record a { refresh_tokens = row ∷ a.refresh_tokens })
    else err constraint
  where
    row : RefreshToken
    row = record { token = s.uuid; user_id = uid; created_at = s.wall; updated_at = s.wall }

unfoldable pub insert_reset_token : ℕ → String → Stamp → Accounts → Result (String × Accounts)
insert_reset_token valid_until uid s a =
    if has_user a.users uid && not (any (λ t. t.token == s.uuid) a.reset_tokens)
    then ok (s.uuid, record a { reset_tokens = row ∷ a.reset_tokens })
    else err constraint
  where
    row : PasswordResetToken
    row = record {
      token = s.uuid;
      valid_until = valid_until;
      user_id = uid;
      created_at = s.wall;
      updated_at = s.wall;
    }

unfoldable pub insert_confirmation_token :
    ℕ → String → Stamp → Accounts → Result (String × Accounts)
insert_confirmation_token valid_until uid s a =
    if has_user a.users uid && not (any (λ t. t.token == s.uuid) a.confirmation_tokens)
    then ok (s.uuid, record a { confirmation_tokens = row ∷ a.confirmation_tokens })
    else err constraint
  where
    row : ConfirmationToken
    row = record {
      token = s.uuid;
      valid_until = valid_until;
      user_id = uid;
      created_at = s.wall;
      updated_at = s.wall;
    }

-- The row of a new user; the identifier is the database's.
abbrev pub new_user : String → String → ℕ → Bool → Bool → List String → Stamp → User
new_user name hash last_authenticated active unconfirmed scopes s = record {
  id = s.uuid;
  username = some name;
  password = some hash;
  is_active = active;
  scopes = scopes;
  last_authenticated_at = some last_authenticated;
  created_at = s.wall;
  updated_at = s.wall;
  requires_confirmation = unconfirmed;
}

-- User names are unique too.
unfoldable pub insert_user :
    String → String → ℕ → Bool → Bool → List String → Stamp → Accounts → Result (String × Accounts)
insert_user name hash last_authenticated active unconfirmed scopes s a =
    if any (λ u. u.id == s.uuid) a.users || any (λ u. null_eq u.username name) a.users
    then err constraint
    else ok (
      s.uuid,
      record a {
        users = new_user name hash last_authenticated active unconfirmed scopes s ∷ a.users;
      },
    )

unfoldable pub insert_profile : String → Stamp → Accounts → Result (Unit {0} × Accounts)
insert_profile uid s a =
    if has_user a.users uid && not (any (λ p. p.user_id == uid) a.profiles)
    then ok (tt, record a { profiles = row ∷ a.profiles })
    else err constraint
  where
    row : AppUserProfile
    row = record {
      user_id = uid;
      legal_accepted_at = Option.none;
      created_at = s.wall;
      updated_at = s.wall;
    }

-- UPDATE users SET … WHERE id = uid
unfoldable pub update_user :
    String → (User → User) → Stamp → Accounts → Result (Unit {0} × Accounts)
update_user uid change s a = ok (
  tt,
  record a {
    users =
        update_where (λ u. u.id == uid) (λ u. record (change u) { id = u.id; updated_at = s.wall })
          a.users;
  },
)

unfoldable pub delete_access_tokens_of : String → Stamp → Accounts → Result (Unit {0} × Accounts)
delete_access_tokens_of uid s a =
    ok (tt, record a { access_tokens = delete_where (λ t. t.user_id == uid) a.access_tokens })

unfoldable pub delete_refresh_tokens_of : String → Stamp → Accounts → Result (Unit {0} × Accounts)
delete_refresh_tokens_of uid s a =
    ok (tt, record a { refresh_tokens = delete_where (λ t. t.user_id == uid) a.refresh_tokens })

unfoldable pub delete_access_token : String → Stamp → Accounts → Result (Unit {0} × Accounts)
delete_access_token token s a =
    ok (tt, record a { access_tokens = delete_where (λ t. t.token == token) a.access_tokens })

unfoldable pub delete_refresh_token : String → Stamp → Accounts → Result (Unit {0} × Accounts)
delete_refresh_token token s a =
    ok (tt, record a { refresh_tokens = delete_where (λ t. t.token == token) a.refresh_tokens })

unfoldable pub delete_confirmation_token : String → Stamp → Accounts → Result (Unit {0} × Accounts)
delete_confirmation_token token s a = ok (
  tt,
  record a { confirmation_tokens = delete_where (λ t. t.token == token) a.confirmation_tokens },
)

-- What ON DELETE CASCADE takes with a user.
unfoldable pub cascade_user : String → Accounts → Accounts
cascade_user uid a = record {
  users = delete_where (λ u. u.id == uid) a.users;
  profiles = delete_where (λ p. p.user_id == uid) a.profiles;
  access_tokens = delete_where (λ t. t.user_id == uid) a.access_tokens;
  refresh_tokens = delete_where (λ t. t.user_id == uid) a.refresh_tokens;
  reset_tokens = delete_where (λ t. t.user_id == uid) a.reset_tokens;
  confirmation_tokens = delete_where (λ t. t.user_id == uid) a.confirmation_tokens;
  push_tokens = delete_where (λ t. t.user_id == uid) a.push_tokens;
  credentials = delete_where (λ t. t.user_id == uid) a.credentials;
}

-- DELETE FROM users: refused while an organization, a signing request, an approval, an entry of the
-- address book or of the audit log refers to the user, whose foreign keys do not cascade.
unfoldable pub delete_user : String → Stamp → Database → Result (Unit {0} × Database)
unfolding cascade_user
delete_user uid s db =
    if any (λ o. o.owner_id == uid) db.custody.organizations
      || (any (λ r. null_eq r.initiator_id uid) db.custody.requests
          || (any (λ p. null_eq p.user_id uid) db.custody.approvals
              || (any (λ b. null_eq b.created_by uid) db.custody.address_book
                  || any (λ l. null_eq l.user_id uid) db.custody.audit_logs)))
    then err constraint
    else ok (
      tt,
      record {
        accounts = cascade_user uid db.accounts;
        custody = record (db.custody) {
          members = delete_where (λ m. m.user_id == uid) db.custody.members;
        };
      },
    )
