-- ===== src/Data/VaultTables.antt =====
-- The rows about organizations, vaults and signing (internal/models/*.go).
use go_mpc_vault.Prelude.{ℕ, String, Option, List}

pub record Organization : Type 0 where
  pub id : String
  pub name : String
  pub owner_id : String
  pub created_at : Option ℕ
  pub updated_at : Option ℕ

pub record OrganizationMember : Type 0 where
  pub organization_id : String
  pub user_id : String
  pub role : String
  pub created_at : Option ℕ

-- The columns that the services read.
pub record Chain : Type 0 where
  pub id : String
  pub name : String
  pub chain_type : String
  pub algorithm : String
  pub curve : String

pub record Vault : Type 0 where
  pub id : String
  pub organization_id : Option String
  pub name : String
  pub threshold : ℕ
  pub created_at : Option ℕ
  pub updated_at : Option ℕ

pub record Wallet : Type 0 where
  pub id : String
  pub vault_id : Option String
  pub chain_id : Option String
  pub key_id : String
  pub address : String
  pub derive_path : String
  pub derive_index : ℕ
  pub created_at : Option ℕ
  pub updated_at : Option ℕ

pub record SigningRequest : Type 0 where
  pub id : String
  pub vault_id : Option String
  pub wallet_id : Option String
  pub initiator_id : Option String
  pub tx_data : String
  pub tx_hash : Option String
  pub amount : Option String
  pub to_address : Option String
  pub note : Option String
  pub status : Option String
  pub mpc_session_id : Option String
  pub signature : Option String
  pub created_at : Option ℕ
  pub updated_at : Option ℕ

pub record Approval : Type 0 where
  pub id : String
  pub request_id : Option String
  pub user_id : Option String
  pub action : String
  pub comment : Option String
  pub created_at : Option ℕ
  pub updated_at : Option ℕ

-- What refers to a user in the tables address_book and audit_logs, which the services modelled here
-- do not write.
pub record AddressBook : Type 0 where
  pub id : String
  pub created_by : Option String

pub record AuditLog : Type 0 where
  pub id : String
  pub user_id : Option String

pub record Custody : Type 0 where
  pub organizations : List Organization
  pub members : List OrganizationMember
  pub chains : List Chain
  pub vaults : List Vault
  pub wallets : List Wallet
  pub requests : List SigningRequest
  pub approvals : List Approval
  pub address_book : List AddressBook
  pub audit_logs : List AuditLog
