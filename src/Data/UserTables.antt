-- ===== src/Data/UserTables.antt =====
-- The rows about users (internal/models/*.go; the constraints are those of migrations/*.sql).
use go_mpc_vault.Prelude.{ℕ, String, Bool, Option, List, any, ◌==◌}

-- `null.String` and `null.Time` are options. A time is a number of nanoseconds.
pub record User : Type 0 where
  pub id : String
  pub username : Option String
  pub password : Option String
  pub is_active : Bool
  pub scopes : List String
  pub last_authenticated_at : Option ℕ
  pub created_at : ℕ
  pub updated_at : ℕ
  pub requires_confirmation : Bool

pub record AppUserProfile : Type 0 where
  pub user_id : String
  pub legal_accepted_at : Option ℕ
  pub created_at : ℕ
  pub updated_at : ℕ

pub record AccessToken : Type 0 where
  pub token : String
  pub valid_until : ℕ
  pub user_id : String
  pub created_at : ℕ
  pub updated_at : ℕ

pub record RefreshToken : Type 0 where
  pub token : String
  pub user_id : String
  pub created_at : ℕ
  pub updated_at : ℕ

pub record PasswordResetToken : Type 0 where
  pub token : String
  pub valid_until : ℕ
  pub user_id : String
  pub created_at : ℕ
  pub updated_at : ℕ

pub record ConfirmationToken : Type 0 where
  pub token : String
  pub valid_until : ℕ
  pub user_id : String
  pub created_at : ℕ
  pub updated_at : ℕ

pub record PushToken : Type 0 where
  pub id : String
  pub token : String
  pub provider : String
  pub user_id : String
  pub created_at : ℕ
  pub updated_at : ℕ

pub record UserCredential : Type 0 where
  pub id : String
  pub user_id : String
  pub credential_id : String
  pub public_key : String
  pub attestation_type : Option String
  pub aaguid : Option String
  pub sign_count : Option ℕ
  pub device_name : Option String
  pub last_used_at : Option ℕ
  pub created_at : Option ℕ
  pub updated_at : Option ℕ

pub record Accounts : Type 0 where
  pub users : List User
  pub profiles : List AppUserProfile
  pub access_tokens : List AccessToken
  pub refresh_tokens : List RefreshToken
  pub reset_tokens : List PasswordResetToken
  pub confirmation_tokens : List ConfirmationToken
  pub push_tokens : List PushToken
  pub credentials : List UserCredential

-- The foreign key of the token tables refers to this.
abbrev pub has_user : List User → String → Bool
has_user us uid = any (λ u. u.id == uid) us
