-- ===== src/Push.antt =====
-- Push messages: the service (internal/push/service.go) and its providers (internal/push/provider/*.go).
-- The call of Firebase is a parameter.
pub mod Answers
pub mod Tokens
use Prim.Native.String.{len, ◌++◌}
use go_mpc_vault.Prelude.{
  ℕ, String, Bool, true, false, not, ◌&&◌, ◌||◌, Option, none, some, List, [], ◌∷◌, map, length,
  rows_where, any, delete_where, is_some, ltb, same_number, if◌then◌else◌, ◌==◌,
}
use go_mpc_vault.Errors.{Error, Result, ok, err, message, remote, wrapped}
use go_mpc_vault.Data.{Database}
use go_mpc_vault.Data.UserTables.{PushToken}
use go_mpc_vault.Exec.{
  Env, World, M, Stamp, pool, pure, guard, map_error, next, select, write, ◌>>=◌, ◌>>◌,
}
use go_mpc_vault.Auth.{User}

-- push.ProviderSendResponse
pub record ProviderSendResponse : Type 0 where
  pub token : String
  pub valid : Bool
  pub error : Option Error

-- provider.FCMConfig
pub record FcmConfig : Type 0 where
  pub project_id : String
  pub validate_only : Bool

-- fcm.SendMessageRequest, with the parent of the resource
pub record SendMessageRequest : Type 0 where
  pub parent : String
  pub validate_only : Bool
  pub token : String
  pub title : String
  pub body : String

-- An error of the call: of the API, with its code, or any other.
pub data SendError : Type 0 where
  google_error : ℕ → SendError
  other_error : SendError

-- provider.Mock and provider.FCM
pub data Provider : Type 0 where
  mock : String → Provider
  fcm : FcmConfig → Provider

abbrev provider_type : Provider → String
provider_type (mock t) = t
provider_type (fcm c) = "fcm"

-- The map from types to providers, in the order of an iteration.
abbrev register_provider : Provider → List Provider → List Provider
register_provider p ps = p ∷ delete_where (λ q. provider_type q == provider_type p) ps

-- Mock.Send
abbrev mock_send : String → String → ProviderSendResponse
mock_send token title =
    let valid = not (ltb (len token) 40) in
    record {
      token = token;
      valid = valid;
      error =
          if title == "other error"
          then some (message "other error")
          else if valid
          then none
          else some (message "invalid token");
    }

-- An error of the API with 404 or 400 is the token's fault.
abbrev fcm_valid : Option SendError → Bool
fcm_valid (some (google_error code)) = not (same_number code 404) && not (same_number code 400)
fcm_valid _ = true

abbrev fcm_error : Option SendError → Option Error
fcm_error none = none
fcm_error (some e) = some remote

abbrev invalid_tokens : List ProviderSendResponse → List String
invalid_tokens [] = []
invalid_tokens (r ∷ rest) =
    let tokens = invalid_tokens rest in if r.valid then tokens else r.token ∷ tokens

abbrev is_registered : String → String → PushToken → Bool
is_registered provider uid t = t.provider == provider && t.user_id == uid

abbrev registered : String → String → Database → List PushToken
registered provider uid db = rows_where (is_registered provider uid) db.accounts.push_tokens

abbrev is_one_of : List String → String → PushToken → Bool
is_one_of tokens uid t = any (λ k. t.token == k) tokens && t.user_id == uid

-- DELETE FROM push_tokens WHERE token IN (…) AND user_id = ?; no token is in an empty list
unfoldable pub delete_tokens :
    List String → String → Stamp → Database → Result (Unit {0} × Database)
delete_tokens tokens uid s db = ok (
  tt,
  record db {
    accounts = record (db.accounts) {
      push_tokens = delete_where (is_one_of tokens uid) db.accounts.push_tokens;
    };
  },
)

module _ (env : Env) (transport : ℕ → SendMessageRequest → Option SendError) where
  -- FCM.Send
  unfoldable pub fcm_send : FcmConfig → String → String → String → M ProviderSendResponse
  fcm_send c token title body w =
      let answer = transport w.asked (record {
        parent = "projects/" ++ c.project_id;
        validate_only = c.validate_only;
        token = token;
        title = title;
        body = body;
      }) in
      (ok (record { token = token; valid = fcm_valid answer; error = fcm_error answer }), next w)

  unfoldable pub send : Provider → String → String → String → M ProviderSendResponse
  send (mock t) token title body = pure (mock_send token title)
  send (fcm c) token title body = fcm_send c token title body

  -- sendMulticastWithProvider
  unfoldable pub send_multicast :
      Provider → List String → String → String → M (List ProviderSendResponse)
  send_multicast p [] title body = pure []
  send_multicast p (token ∷ rest) title body = do
    response ← send p token title body
    responses ← send_multicast p rest title body
    pure (response ∷ responses)

  -- The loop's body, for one provider.
  unfoldable pub send_by : User → String → String → Provider → M (Unit {0})
  send_by user title body p = do
    rows ←
        map_error (select env pool (registered (provider_type p) user.id))
          (wrapped "failed to get push tokens")
    responses ← send_multicast p (map (λ t. t.token) rows) title body
    write env pool (delete_tokens (invalid_tokens responses) user.id)

  unfoldable pub send_by_all : User → String → String → List Provider → M (Unit {0})
  send_by_all user title body [] = pure tt
  send_by_all user title body (p ∷ ps) = do
    send_by user title body p
    send_by_all user title body ps

  unfoldable pub send_to_user : List Provider → User → String → String → M (Unit {0})
  send_to_user providers user title body = do
    guard (not (ltb (length providers) 1)) (message "no provider found")
    send_by_all user title body providers
