-- ===== src/Handlers/Approving.antt =====
-- A vote by HTTP from the token to the MPC services: the middleware (internal/api/middleware/auth.go), the
-- handler (internal/api/handlers/signing/post_approve_request.go) and the service.
use go_mpc_vault.Prelude.{
  suc, ◌≤◌, String, Bool, true, false, none, some, ◌≡◌, ◌⊎◌, refl, arith, length, inl, inr,
  null_text, ◌==◌, Bool-cases, Option-cases, sym,
}
use go_mpc_vault.Errors.{Result, ok, Result-cases}
use go_mpc_vault.Data.UserTables.{AccessToken, User as UserRow}
use go_mpc_vault.Data.VaultTables.{Vault}
use go_mpc_vault.Exec.{
  Env, World, pure, raise, lift, guard, map_error, attempt, now, wall_now, select, write, new_uuid,
  ◌>>=◌,
}
use go_mpc_vault.Auth.{User, local_user_to_dto}
use go_mpc_vault.Auth.Statements.{access_token_is, user_with_id, profile_of}
use go_mpc_vault.Middleware.{
  Request, AuthResult, authorize, authenticate, auth_with_config, validate, validated, check_expiry,
  admit, check_user, check_last_authenticated_at, default_token_validator, default_auth_config,
  presented, enrich, check_user_scopes,
}
use go_mpc_vault.Middleware.Checks.{authorize_sound}
use go_mpc_vault.Signing.{
  reject_request, approvals_of, has_approval, insert_approval, update_request,
}
use go_mpc_vault.Signing.Threshold.{signs_only_at_threshold, is_pending, vault_of_request}
use go_mpc_vault.Handlers.{signed_in}
use go_mpc_vault.Handlers.Signing.{
  ApprovePayload, approval_params, decide, post_approve_signing_request,
}

-- The token that the request presents is stored and has not expired, and its user is active.
-- The clock is read after the three queries for the token, its user and the profile.
pub record SignedIn (env : Env) (token : String) (user : User) (w : World) : Type 0 where
  pub row : AccessToken
  pub owner : UserRow
  pub known : access_token_is token w.base ≡ some row
  pub owned : user_with_id row.user_id w.base ≡ some owner
  pub active : owner.is_active ≡ true
  pub live : (row.valid_until ≡ 0) ⊎ (env.clock (suc (suc (suc w.asked))) ≤ row.valid_until)
  pub same : user ≡ local_user_to_dto owner (profile_of row.user_id w.base)
  pub scoped : check_user_scopes default_auth_config.scopes user ≡ true

module _ (env : Env) (is_uuid4 : String → Bool) where
  authorize_quiet :
      (c : Request) (w : World)
      → ((authorize env is_uuid4 default_auth_config c w).1.base ≡ w.base)
        × ((authorize env is_uuid4 default_auth_config c w).1.calls ≡ w.calls)
  unfolding authorize authenticate attempt validate validated check_expiry admit check_user
      check_last_authenticated_at default_token_validator map_error select lift guard raise pure now
      wall_now ◌>>=◌
  authorize_quiet c w = ground arith

  default_validator_ok :
      (token : String) (w : World) (res : AuthResult)
      → (default_token_validator env token w).0 ≡ ok res
      → (row : AccessToken) × (owner : UserRow) × (access_token_is token w.base ≡ some row)
        × (user_with_id row.user_id w.base ≡ some owner)
        × (res.user ≡ local_user_to_dto owner (profile_of row.user_id w.base))
        × (res.valid_until ≡ row.valid_until)
        × ((default_token_validator env token w).1.asked ≡ suc (suc (suc w.asked)))
  unfolding default_token_validator map_error select lift pure ◌>>=◌
  default_validator_ok token w res h = elim (Option-cases (access_token_is token w.base)) [
    | inl e ↦ absurd (ground arith)
    | inr (row, e) ↦ elim (Option-cases (user_with_id row.user_id w.base)) [
      | inl f ↦ absurd (ground arith)
      | inr (owner, f) ↦ (row, owner, e, f, ground arith, ground arith, ground arith)
    ]
  ]

  -- A request without credentials that the middleware lets through is of a user who is signed in.
  authorize-SignedIn :
      (c c' : Request) (w : World)
      → c.user ≡ none
      → (authorize env is_uuid4 default_auth_config c w).0 ≡ ok c'
      → (user : User) × (c'.user ≡ some user)
        × SignedIn env (presented default_auth_config c).0 user w
  unfolding validate enrich local_user_to_dto
  authorize-SignedIn c c' w fresh h =
      elim (authorize_sound env default_auth_config c is_uuid4 w c' refl refl h) [
        | inl (user, e, same, checked) ↦ absurd (ground arith)
        | inr (res, formed, valid, until, (same, active, (scoped, recent))) ↦
            let (row, owner, known, owned, same_user, ends, asked) =
              default_validator_ok (presented default_auth_config c).0 w res valid in
            (
              res.user,
              ground arith,
              record {
                row = row;
                owner = owner;
                known = known;
                owned = owned;
                active = ground arith;
                live = rw (sym ends, sym asked) until;
                same = same_user;
                scoped = scoped;
              },
            )
      ]

  reject_calls : (rid uid : String) (w : World) → (reject_request env rid uid w).1.calls ≡ w.calls
  unfolding reject_request select lift guard raise pure new_uuid write insert_approval
      update_request ◌>>=◌
  reject_calls rid uid w = ground arith

  -- What a vote that leads to a signature was given by.
  pub record Authorized (rid : String) (c : Request) (bound : Result ApprovePayload) (w : World)
      : Type 0 where
    pub user : User
    pub vault : Vault
    pub body : ApprovePayload
    pub signed_in : SignedIn env (presented default_auth_config c).0 user w
    pub payload : bound ≡ ok body
    pub approves : (null_text body.action == "reject") ≡ false
    pub of_request : vault_of_request rid w.base ≡ some vault
    pub waiting : is_pending rid w.base ≡ true
    pub first : has_approval rid user.id w.base ≡ false
    pub met : vault.threshold ≤ suc (length (approvals_of rid w.base))

  handler_signs :
      (c : Request) (rid : String) (bound : Result ApprovePayload) (user : User) (w : World)
      → c.user ≡ some user
      → ((post_approve_signing_request env c rid bound w).1.calls ≡ w.calls)
        ⊎ ((body : ApprovePayload) × (vault : Vault) × (bound ≡ ok body)
            × ((null_text body.action == "reject") ≡ false)
            × (vault_of_request rid w.base ≡ some vault)
            × (is_pending rid w.base ≡ true)
            × (has_approval rid user.id w.base ≡ false)
            × (vault.threshold ≤ suc (length (approvals_of rid w.base))))
  unfolding post_approve_signing_request signed_in decide lift pure ◌>>=◌
  handler_signs c rid bound user w e = elim (Result-cases bound) [
    | inr (x, f) ↦ inl (ground arith)
    | inl (body, f) ↦ elim (Bool-cases (null_text body.action == "reject")) [
      | inl r ↦ inl (ground (arith, reject_calls rid user.id w))
      | inr r ↦ elim (signs_only_at_threshold env rid (approval_params user.id body) w) [
        | inl same ↦ inl (ground arith)
        | inr (vault, of_request, waiting, first, met) ↦
            inr (body, vault, f, r, of_request, waiting, first, met)
      ]
    ]
  ]

  -- A request by HTTP to vote, without credentials of an earlier check, makes the MPC services sign
  -- only if it presents a stored token that has not expired, of an active user with the scope of the
  -- application; and only if its action is not to reject, the request that it names is pending, the
  -- user has not voted on it yet, and with this vote it has as many approvals as its vault demands.
  pub approve_route_signs :
      (c : Request) (rid : String) (bound : Result ApprovePayload) (w : World)
      → c.user ≡ none
      → ((auth_with_config env is_uuid4 default_auth_config
            (λ c'. post_approve_signing_request env c' rid bound)
            c
            w).1.calls
          ≡ w.calls)
        ⊎ Authorized rid c bound w
  unfolding auth_with_config ◌>>=◌
  approve_route_signs c rid bound w fresh =
      let w' : World = (authorize env is_uuid4 default_auth_config c w).1 in
      elim (Result-cases (authorize env is_uuid4 default_auth_config c w).0) [
        | inr (x, e) ↦ inl (ground (arith, authorize_quiet c w))
        | inl (c', e) ↦
            let (user, given, signed) = authorize-SignedIn c c' w fresh e in
            elim (handler_signs c' rid bound user w' given) [
              | inl same ↦ inl (ground (arith, authorize_quiet c w))
              | inr (body, vault, payload, approves, of_request, waiting, first, met) ↦
                  let here = sym (authorize_quiet c w).0 in
                  inr (record {
                    user = user;
                    vault = vault;
                    body = body;
                    signed_in = signed;
                    payload = payload;
                    approves = approves;
                    of_request = rw here of_request;
                    waiting = rw here waiting;
                    first = rw here first;
                    met = rw here met;
                  })
            ]
      ]
