-- ===== src/Data.antt =====
-- The tables of the database, and the database as one value.
pub mod UserTables
pub mod VaultTables
use go_mpc_vault.Data.UserTables.{Accounts}
use go_mpc_vault.Data.VaultTables.{Custody}

-- The tables of one database: those about users, and those about vaults and signing.
pub record Database : Type 0 where
  pub accounts : Accounts
  pub custody : Custody
