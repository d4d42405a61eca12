-- ===== src/Grpc/Sessions.antt =====
-- The session that a ceremony of internal/api/grpc/server/auth.go gives, at
-- internal/api/middleware/auth.go.
use go_mpc_vault.Prelude.{String, Bool, false, none, ◌≡◌, ◌≢◌, ◌⊎◌, inl, inr, refl, arith}
use go_mpc_vault.Errors.{Result, ok, Result-cases}
use go_mpc_vault.Exec.{Env, World, pure, map_error, ◌>>=◌}
use go_mpc_vault.Passkeys.{WebAuthn, finish_registration, finish_login}
use go_mpc_vault.Middleware.{Request, default_auth_config, presented, authorize}
use go_mpc_vault.Middleware.Checks.{authorize_sound}
use go_mpc_vault.Grpc.Ceremonies.{
  VerifyResponse, no_session, dummy_token, register_verify, login_verify,
}

module _ (env : Env) (lib : WebAuthn) (marshal : String → Result String) where
  register_verify_token :
      (email body : String) (w : World) (r : VerifyResponse)
      → (register_verify env lib marshal email body w).0 ≡ ok r
      → r.access_token ≡ dummy_token
  unfolding register_verify map_error pure ◌>>=◌
  register_verify_token email body w r h =
      elim (Result-cases (finish_registration env lib email no_session body w).0) [
        | inl (c, e) ↦ ground arith
        | inr (x, e) ↦ ground arith
      ]

  login_verify_token :
      (email body : String) (w : World) (r : VerifyResponse)
      → (login_verify env lib marshal email body w).0 ≡ ok r
      → r.access_token ≡ dummy_token
  unfolding login_verify map_error pure ◌>>=◌
  login_verify_token email body w r h =
      elim (Result-cases (finish_login env lib email no_session body w).0) [
        | inl (c, e) ↦ ground arith
        | inr (x, e) ↦ ground arith
      ]

  -- The access token that a registration or a login with a passkey over gRPC returns opens no route:
  -- whoever presents it is refused by the middleware with its default configuration, whatever the
  -- tables hold, as it is no UUID.
  pub verified_token_refused :
      (email body : String) (w w' : World) (r : VerifyResponse) (is_uuid4 : String → Bool)
      (c c' : Request)
      → is_uuid4 "dummy-token" ≡ false
      → ((register_verify env lib marshal email body w).0 ≡ ok r)
        ⊎ ((login_verify env lib marshal email body w).0 ≡ ok r)
      → c.user ≡ none
      → (presented default_auth_config c).0 ≡ r.access_token
      → (authorize env is_uuid4 default_auth_config c w').0 ≢ ok c'
  verified_token_refused email body w w' r is_uuid4 c c' no_uuid given fresh same passed =
      let token : r.access_token ≡ dummy_token = elim given [
        | inl h ↦ register_verify_token email body w r h
        | inr h ↦ login_verify_token email body w r h
      ] in
      elim (authorize_sound env default_auth_config c is_uuid4 w' c' refl refl passed) [
        | inl (user, e, kept, checked) ↦ absurd (ground arith)
        | inr (res, formed, known, live, gains) ↦ absurd (ground arith)
      ]
