-- ===== src/Auth.antt =====
-- The local authentication service (internal/auth) and its requests (internal/data/dto/users.go).
-- The statements, the service's methods and the proofs are in the modules below.
pub mod Statements
pub mod Effects
pub mod Lifecycle
pub mod Revocation
pub mod Access
pub mod Resets
pub mod Registrations
pub mod Failures
pub mod Calls
pub mod Session
pub mod Password
pub mod Registration
use go_mpc_vault.Prelude.{ℕ, String, Bool, Option, none, some, List, ltb, if◌then◌else◌}
use go_mpc_vault.Data.UserTables.{User as UserRow, AppUserProfile as ProfileRow}
use go_mpc_vault.Exec.{Env}

pub record AppUserProfile : Type 0 where
  pub user_id : String
  pub legal_accepted_at : Option ℕ
  pub updated_at : ℕ

pub record User : Type 0 where
  pub id : String
  pub username : Option String
  pub password_hash : Option String
  pub is_active : Bool
  pub scopes : List String
  pub last_authenticated_at : Option ℕ
  pub updated_at : ℕ
  pub profile : Option AppUserProfile

-- User.LastUpdatedAt
unfoldable pub last_updated_at : User → ℕ
last_updated_at u = elim u.profile [
  | none ↦ u.updated_at
  | some p ↦ if ltb u.updated_at p.updated_at then p.updated_at else u.updated_at
]

unfoldable local_app_user_profile_to_dto : ProfileRow → AppUserProfile
local_app_user_profile_to_dto p = record {
  user_id = p.user_id;
  legal_accepted_at = p.legal_accepted_at;
  updated_at = p.updated_at;
}

-- mapper.LocalUserToDTO; the profile is there if the query loaded it
unfoldable pub local_user_to_dto : UserRow → Option ProfileRow → User
unfolding local_app_user_profile_to_dto
local_user_to_dto u loaded = record {
  id = u.id;
  username = u.username;
  password_hash = u.password;
  is_active = u.is_active;
  scopes = u.scopes;
  last_authenticated_at = u.last_authenticated_at;
  updated_at = u.updated_at;
  profile = elim loaded [ none ↦ none | some p ↦ some (local_app_user_profile_to_dto p) ];
}

pub record LoginResult : Type 0 where
  pub user_id : String
  pub access_token : String
  pub expires_in : ℕ
  pub refresh_token : String
  pub token_type : String

abbrev empty_result : LoginResult
empty_result = record {
  user_id = "";
  access_token = "";
  expires_in = 0;
  refresh_token = "";
  token_type = "";
}

-- util.ToUsernameFormat, which dto.Username applies whenever it is read
unfoldable pub to_username_format : Env → String → String
to_username_format env s = env.trim_space (env.to_lower s)
