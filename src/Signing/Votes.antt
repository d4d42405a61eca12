-- ===== src/Signing/Votes.antt =====
-- Invariants of the tables that internal/service/signing/impl.go writes: one approval for each user
-- and request, and what the status of a request says of its signature.
use go_mpc_vault.Prelude.{
  String, Bool, true, false, Option, none, some, List, [], ◌∷◌, ◌≡◌, refl, arith, any, is_some,
  ◌==◌, null_text, update_where, All, ◌&&◌, ◌||◌,
}
use go_mpc_vault.Prelude.Tables.{Distinct, Distinct-update_where}
use go_mpc_vault.Data.{Database}
use go_mpc_vault.Data.VaultTables.{SigningRequest, Approval, Wallet, Vault, Chain}
use go_mpc_vault.Mpc.{ApprovalParams, AuthToken}
use go_mpc_vault.Exec.{Env, World}
use go_mpc_vault.Exec.Keeps.{Holds, Keeps, Sound, keeps_rules}
use go_mpc_vault.Signing.{
  create_request, load, load_request, threshold_sign, complete, sign_if_enough, check_threshold,
  vote, approve_request, reject_request, get_request, insert_request, insert_approval,
  update_request, by_user, pending,
}
use go_mpc_vault.Signing.Calls.{
  SigningCall, creating, approving, rejecting, reading, serve, serve_all,
}

-- No user has two approvals of one request.
abbrev VotesOnce : List Approval → Type 0
VotesOnce [] = Unit
VotesOnce (a ∷ rest) =
    (any (by_user (null_text a.request_id) (null_text a.user_id)) rest ≡ false) × VotesOnce rest

-- A request that is completed has a signature, and there are no other states than these.
abbrev pub is_lawful : SigningRequest → Bool
is_lawful r =
    (null_text r.status == pending)
    || ((null_text r.status == "rejected")
        || ((null_text r.status == "completed") && is_some r.signature))

pub record IsOrderly (db : Database) : Type 0 where
  pub ids : Distinct (λ r. r.id) db.custody.requests
  pub states : All (λ r. is_lawful r ≡ true) db.custody.requests
  pub votes : VotesOnce db.custody.approvals

All-update_where :
    (p : SigningRequest → Bool) (f : SigningRequest → SigningRequest) (rows : List SigningRequest)
    → ((r : SigningRequest) → is_lawful (f r) ≡ true)
    → All (λ r. is_lawful r ≡ true) rows
    → All (λ r. is_lawful r ≡ true) (update_where p f rows)
All-update_where p f [] good h = tt
All-update_where p f (r ∷ rows) good h =
    (ground (arith, good r), All-update_where p f rows good h.1)

pub insert_request-Sound :
    (r : SigningRequest) → is_lawful r ≡ true → Sound IsOrderly (insert_request r)
unfolding insert_request
insert_request-Sound r good = record { at = λ s db h. ground arith }

pub insert_approval-Sound : (a : Approval) → Sound IsOrderly (insert_approval a)
unfolding insert_approval
insert_approval-Sound a = record { at = λ s db h. ground arith }

pub update_request-Sound :
    (r : SigningRequest) → is_lawful r ≡ true → Sound IsOrderly (update_request r)
unfolding update_request
update_request-Sound r good = record {
  at = λ s db h.
      let row = λ (q : SigningRequest). record r {
        id = q.id;
        created_at = q.created_at;
        updated_at = some s.wall;
      } in
      record {
        ids =
            Distinct-update_where (λ q. q.id) (λ q. q.id == r.id) row db.custody.requests
              (λ q. refl) h.ids;
        states = All-update_where (λ q. q.id == r.id) row db.custody.requests (λ q. good) h.states;
        votes = h.votes;
      };
}

module _ (env : Env) where
  create_request-Keeps :
      (wallet_id tx_data note user_id : String)
      → Keeps IsOrderly (create_request env wallet_id tx_data note user_id)
  unfolding create_request
  create_request-Keeps wallet_id tx_data note user_id =
      search (keeps_rules, insert_request-Sound) depth 20

  load-Keeps :
      {A : Type 0} (f : String → Database → Option A) (k : Option String)
      → Keeps IsOrderly (load env f k)
  unfolding load
  load-Keeps f none = search (keeps_rules) depth 20
  load-Keeps f (some k) = search (keeps_rules) depth 20

  load_request-Keeps : (rid : String) → Keeps IsOrderly (load_request env rid)
  unfolding load_request
  load_request-Keeps rid = search (keeps_rules, load-Keeps) depth 20

  threshold_sign-Keeps :
      (key_id message_hex chain_type : String) (tokens : List AuthToken)
      → Keeps IsOrderly (threshold_sign env key_id message_hex chain_type tokens)
  unfolding threshold_sign
  threshold_sign-Keeps key_id message_hex chain_type tokens = search (keeps_rules) depth 20

  complete-Keeps :
      (req : SigningRequest) (x : Wallet) (c : Option Chain) (approvals : List Approval)
      → Keeps IsOrderly (complete env req x c approvals)
  unfolding complete
  complete-Keeps req x c approvals =
      search (keeps_rules, threshold_sign-Keeps, update_request-Sound) depth 20

  sign_if_enough-Keeps :
      (req : SigningRequest) (x : Wallet) (v : Vault) (c : Option Chain) (approvals : List Approval)
      → Keeps IsOrderly (sign_if_enough env req x v c approvals)
  unfolding sign_if_enough
  sign_if_enough-Keeps req x v c approvals = search (keeps_rules, complete-Keeps) depth 20

  check_threshold-Keeps :
      (rid : String) (req : SigningRequest) (x : Option Wallet) (v : Option Vault)
      (c : Option Chain)
      → Keeps IsOrderly (check_threshold env rid req x v c)
  unfolding check_threshold
  check_threshold-Keeps rid req x v c = search (keeps_rules, sign_if_enough-Keeps) depth 20

  vote-Keeps :
      (rid : String) (params : ApprovalParams) (req : SigningRequest)
      → Keeps IsOrderly (vote env rid params req)
  unfolding vote
  vote-Keeps rid params req = search (keeps_rules, insert_approval-Sound) depth 20

  approve_request-Keeps :
      (rid : String) (params : ApprovalParams) → Keeps IsOrderly (approve_request env rid params)
  unfolding approve_request
  approve_request-Keeps rid params =
      search (keeps_rules, load_request-Keeps, vote-Keeps, check_threshold-Keeps) depth 20

  reject_request-Keeps : (rid uid : String) → Keeps IsOrderly (reject_request env rid uid)
  unfolding reject_request
  reject_request-Keeps rid uid =
      search (keeps_rules, insert_approval-Sound, update_request-Sound) depth 20

  get_request-Keeps : (rid : String) → Keeps IsOrderly (get_request env rid)
  unfolding get_request
  get_request-Keeps rid = search (keeps_rules) depth 20

  serve-Keeps : (c : SigningCall) → Keeps IsOrderly (serve env c)
  unfolding serve
  serve-Keeps (creating wallet_id tx_data note user_id) =
      search (keeps_rules, create_request-Keeps) depth 20
  serve-Keeps (approving rid params) = approve_request-Keeps rid params
  serve-Keeps (rejecting rid uid) = reject_request-Keeps rid uid
  serve-Keeps (reading rid) = search (keeps_rules, get_request-Keeps) depth 20

  -- Whatever calls follow, and whatever fails in them: no two requests have the same identifier, no
  -- user has two votes on one request, and every request is pending, rejected, or completed with a
  -- signature.
  serve_all-IsOrderly :
      (cs : List SigningCall) (w : World) → Holds IsOrderly w → Holds IsOrderly (serve_all env cs w)
  unfolding serve_all
  serve_all-IsOrderly [] w h = h
  serve_all-IsOrderly (c ∷ cs) w h =
      serve_all-IsOrderly cs (serve env c w).1 ((serve-Keeps c).at w h)
