-- ===== src/Handlers/Guards.antt =====
-- What the handlers of internal/api/handlers/vault and internal/api/handlers/signing check before they
-- call the services, and what a listing shows.
use go_mpc_vault.Prelude.{
  ℕ, ◌<◌, String, true, false, some, ◌≡◌, ◌⊎◌, arith, List, map, inl, inr, Bool-cases, Option,
  Option-cases,
}
use go_mpc_vault.Errors.{Result, ok, Result-cases}
use go_mpc_vault.Data.{Database}
use go_mpc_vault.Data.VaultTables.{Vault, SigningRequest}
use go_mpc_vault.Exec.{Env, World, pure, raise, lift, guard, map_error, select, ◌>>=◌}
use go_mpc_vault.Auth.{User}
use go_mpc_vault.Middleware.{Request}
use go_mpc_vault.Signing.{vault_with_id}
use go_mpc_vault.Signing.Listing.{list_requests}
use go_mpc_vault.Signing.Pages.{IsPage, list_requests_correct}
use go_mpc_vault.Handlers.{signed_in}
use go_mpc_vault.Handlers.Vaults.{is_member, post_create_wallet}
use go_mpc_vault.Handlers.Signing.{
  pos, to_int32, is_negative, magnitude, ListSigningRequestsParams, ListSigningRequestsResponse,
  known_status, validate_params, map_signing_request, get_list_signing_requests,
}

-- A user who may add a wallet to the vault.
pub record MayAdd (c : Request) (vid : String) (db : Database) : Type 0 where
  pub user : User
  pub vault : Vault
  pub given : c.user ≡ some user
  pub stored : vault_with_id vid db ≡ some vault
  pub organization : String
  pub owned : vault.organization_id ≡ some organization
  pub member : is_member (some organization) user.id db ≡ true

module _ (env : Env) where
  -- A request by HTTP for a wallet changes a table or makes the MPC services create a key only for a
  -- user who is signed in and a vault that is stored, and only if the vault belongs to an organization
  -- that the user is a member of.
  pub post_create_wallet_guarded :
      (c : Request) (vid : String) (bound : Result (Option String)) (w : World)
      → (((post_create_wallet env c vid bound w).1.base ≡ w.base)
          × ((post_create_wallet env c vid bound w).1.calls ≡ w.calls))
        ⊎ MayAdd c vid w.base
  unfolding post_create_wallet signed_in map_error select guard lift raise pure ◌>>=◌
  post_create_wallet_guarded c vid bound w = elim (Option-cases c.user) [
    | inl e ↦ inl (ground arith, ground arith)
    | inr (user, e) ↦ elim (Option-cases (vault_with_id vid w.base)) [
      | inl f ↦ inl (ground arith, ground arith)
      | inr (vault, f) ↦ elim (Option-cases vault.organization_id) [
        | inl n ↦ inl (ground arith, ground arith)
        | inr (oid, n) ↦ elim (Bool-cases (is_member (some oid) user.id w.base)) [
          | inr m ↦ inl (ground arith, ground arith)
          | inl m ↦ inr (record {
            user = user;
            vault = vault;
            given = e;
            stored = f;
            organization = oid;
            owned = n;
            member = m;
          })
        ]
      ]
    ]
  ]

-- A total below 2^31 is kept.
to_int32_small : (total : ℕ) → total < 2_147_483_648 → to_int32 total ≡ pos total
unfolding to_int32
to_int32_small total h = ground arith

module _ (env : Env) (format : ℕ → String) (c : Request) (p : ListSigningRequestsParams) where
  -- What a listing answers, in terms of the page that the service answers.
  pub record Listed (response : ListSigningRequestsResponse) (w : World) : Type 0 where
    pub user : User
    pub items : List SigningRequest
    pub count : ℕ
    pub given : c.user ≡ some user
    pub status : known_status p.status ≡ true
    pub page : is_negative p.page ≡ false
    pub limit : is_negative p.limit ≡ false
    pub answered :
        (list_requests env user.id p.vault_id p.status (magnitude p.page) (magnitude p.limit) w).0
        ≡ ok (items, count)
    pub found :
        IsPage user.id p.vault_id p.status (magnitude p.page) (magnitude p.limit) w.base items count
    pub shown : response.requests ≡ map (map_signing_request format) items
    pub exact : count < 2_147_483_648 → response.total ≡ pos count

  handler_lists :
      (user : User) (items : List SigningRequest) (total : ℕ) (w : World)
      (response : ListSigningRequestsResponse)
      → c.user ≡ some user
      → (list_requests env user.id p.vault_id p.status (magnitude p.page) (magnitude p.limit) w).0
        ≡ ok (items, total)
      → (get_list_signing_requests env format c p w).0 ≡ ok response
      → Listed response w
  unfolding get_list_signing_requests validate_params signed_in map_error guard lift raise pure
      ◌>>=◌
  handler_lists user items total w response given listed h = record {
    user = user;
    items = items;
    count = total;
    given = given;
    status = ground arith;
    page = ground arith;
    limit = ground arith;
    answered = listed;
    found =
        list_requests_correct env user.id p.vault_id p.status (magnitude p.page) (magnitude p.limit)
          w items total listed;
    shown = ground arith;
    exact = λ small. ground (arith, to_int32_small total small);
  }

  -- A listing by HTTP that succeeds was asked for by a user who is signed in, with a status that is known
  -- and no negative page or limit. It shows, in their order, the requests that the service answers for
  -- this user, and their number is exact below 2^31.
  pub get_list_signing_requests_ok :
      (w : World) (response : ListSigningRequestsResponse)
      → (get_list_signing_requests env format c p w).0 ≡ ok response
      → Listed response w
  unfolding get_list_signing_requests validate_params signed_in map_error guard lift raise pure
      ◌>>=◌
  get_list_signing_requests_ok w response h = elim (Option-cases c.user) [
    | inl e ↦ absurd (ground arith)
    | inr (user, e) ↦
        elim (Result-cases
          (list_requests env user.id p.vault_id p.status (magnitude p.page) (magnitude p.limit)
            w).0) [
              | inr (x, f) ↦ absurd (ground arith)
              | inl ((items, total), f) ↦ handler_lists user items total w response e f h
            ]
  ]
