-- ===== src/Handlers/Signing.antt =====
-- internal/api/handlers/signing/*.go
use Prim.Native.Nat.{◌%◌}
use go_mpc_vault.Prelude.{
  ℕ, ◌-◌, String, Bool, true, false, ◌||◌, Option, List, map, null_text, ltb, map_option,
  if◌then◌else◌, ◌==◌,
}
use go_mpc_vault.Errors.{Result, bad_request, wrapped}
use go_mpc_vault.Data.VaultTables.{SigningRequest}
use go_mpc_vault.Mpc.{ApprovalParams}
use go_mpc_vault.Exec.{Env, M, pure, guard, lift, map_error, ◌>>=◌, ◌>>◌}
use go_mpc_vault.Middleware.{Request}
use go_mpc_vault.Signing.{create_request, approve_request, reject_request}
use go_mpc_vault.Signing.Listing.{list_requests}
use go_mpc_vault.Handlers.{signed_in}

-- int and int32
pub data ℤ : Type 0 where
  pos : ℕ → ℤ
  negsuc : ℕ → ℤ

abbrev pub is_negative : ℤ → Bool
is_negative (pos n) = false
is_negative (negsuc n) = true

abbrev pub magnitude : ℤ → ℕ
magnitude (pos n) = n
magnitude (negsuc n) = 0

-- int32(total): the low 32 bits, in two's complement
abbrev signed32 : ℕ → ℤ
signed32 low = if ltb low 2_147_483_648 then pos low else negsuc (4_294_967_295 - low)

unfoldable pub to_int32 : ℕ → ℤ
to_int32 total = signed32 (total % 4_294_967_296)

-- ListSigningRequestsParams
pub record ListSigningRequestsParams : Type 0 where
  pub status : String
  pub vault_id : String
  pub page : ℤ
  pub limit : ℤ

-- SigningRequestItem and ListSigningRequestsResponse
pub record SigningRequestItem : Type 0 where
  pub id : String
  pub vault_id : String
  pub wallet_id : String
  pub to_address : String
  pub status : String
  pub created_at : String

pub record ListSigningRequestsResponse : Type 0 where
  pub requests : List SigningRequestItem
  pub total : ℤ

-- types.ApproveSigningRequestPayload and types.CreateSigningRequestPayload, the fields that are read
pub record ApprovePayload : Type 0 where
  pub action : Option String
  pub credential_id : List ℕ
  pub signature : List ℕ
  pub authenticator_data : List ℕ
  pub client_data_json : List ℕ

record CreatePayload : Type 0 where
  pub wallet_id : String
  pub tx_data : String
  pub note : String

record CreateSigningResponse : Type 0 where
  pub request_id : String
  pub status : String

unfoldable pub known_status : String → Bool
known_status s = s == "" || (s == "pending" || (s == "completed" || s == "rejected"))

-- ListSigningRequestsParams.Validate
unfoldable pub validate_params : ListSigningRequestsParams → M (Unit {0})
validate_params p = do
  guard (known_status p.status) (bad_request "invalid status")
  guard (if is_negative p.page || is_negative p.limit then false else true)
      (bad_request "invalid pagination")

-- mapSigningRequest; the time is written by `time.Format`.
unfoldable pub map_signing_request : (ℕ → String) → SigningRequest → SigningRequestItem
map_signing_request format r = record {
  id = r.id;
  vault_id = null_text r.vault_id;
  wallet_id = null_text r.wallet_id;
  to_address = null_text r.to_address;
  status = null_text r.status;
  created_at = null_text (map_option format r.created_at);
}

abbrev pub approval_params : String → ApprovePayload → ApprovalParams
approval_params uid body = record {
  user_id = uid;
  credential_id = body.credential_id;
  signature = body.signature;
  authenticator_data = body.authenticator_data;
  client_data_json = body.client_data_json;
}

module _ (env : Env) where
  -- getListSigningRequestsHandler
  unfoldable pub get_list_signing_requests :
      (ℕ → String) → Request → ListSigningRequestsParams → M ListSigningRequestsResponse
  get_list_signing_requests format c params = do
    map_error (validate_params params) (wrapped "failed to validate payload")
    user ← signed_in c
    (items, total) ←
        list_requests env user.id params.vault_id params.status (magnitude params.page)
          (magnitude params.limit)
    pure (record { requests = map (map_signing_request format) items; total = to_int32 total })

  -- postApproveSigningRequestHandler: every action but "reject" approves
  unfoldable pub decide : String → String → ApprovePayload → M String
  decide rid uid body =
      if null_text body.action == "reject"
      then (do reject_request env rid uid; pure "rejected")
      else (do approve_request env rid (approval_params uid body); pure "approved")

  unfoldable pub post_approve_signing_request : Request → String → Result ApprovePayload → M String
  post_approve_signing_request c rid bound = do
    body ← lift bound
    user ← signed_in c
    decide rid user.id body

  -- postCreateSigningRequestHandler; the vault in the path is not read.
  unfoldable post_create_signing_request : Request → Result CreatePayload → M CreateSigningResponse
  post_create_signing_request c bound = do
    body ← lift bound
    user ← signed_in c
    req ← create_request env body.wallet_id body.tx_data body.note user.id
    pure (record { request_id = req.id; status = null_text req.status })
