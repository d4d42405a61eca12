-- ===== src/Mpc.antt =====
-- The messages to the MPC infrastructure (internal/infra/mpc/*.go), mails, and what an approval carries
-- (internal/service/signing/service.go). The infrastructure itself is a parameter.
use go_mpc_vault.Prelude.{ℕ, String, List}

-- signing.ApprovalParams; `[]byte` is a list of numbers
pub record ApprovalParams : Type 0 where
  pub user_id : String
  pub credential_id : List ℕ
  pub signature : List ℕ
  pub authenticator_data : List ℕ
  pub client_data_json : List ℕ

-- mpc.AuthToken
pub record AuthToken : Type 0 where
  pub passkey_signature : List ℕ
  pub authenticator_data : List ℕ
  pub client_data_json : List ℕ
  pub credential_id : List ℕ

-- infra.AuthToken, with the credential in base64
pub record InfraToken : Type 0 where
  pub passkey_signature : List ℕ
  pub authenticator_data : List ℕ
  pub client_data_json : List ℕ
  pub credential_id : String

pub record ThresholdSignRequest : Type 0 where
  pub key_id : String
  pub message_hex : String
  pub chain_type : String
  pub auth_tokens : List InfraToken

pub record CreateRootKeyRequest : Type 0 where
  pub key_id : String
  pub algorithm : String
  pub curve : String

-- email.Email, the fields that the mailer sets
pub record Email : Type 0 where
  pub sender : String
  pub to : List String
  pub subject : String
  pub html : String

-- What leaves the program: the calls of the MPC infrastructure, and mails.
pub data Outgoing : Type 0 where
  signs : ThresholdSignRequest → Outgoing
  creates : CreateRootKeyRequest → Outgoing
  mails : Email → Outgoing
