-- ===== src/Exec.antt =====
-- Requests against the database: statements that may fail, the clock, and transactions
-- (internal/util/db/db.go). What the code does not implement is the record `Env`.
pub mod Keeps
pub mod Atomic
pub mod Steps
pub mod Rely
use go_mpc_vault.Prelude.{
  ℕ, zero, suc, String, Bool, true, false, Option, none, some, List, ◌∷◌, if◌then◌else◌,
}
use go_mpc_vault.Errors.{Error, Result, ok, err, driver, no_rows, panic, wrapped}
use go_mpc_vault.Data.{Database}
use go_mpc_vault.Mpc.{
  ThresholdSignRequest, CreateRootKeyRequest, ApprovalParams, Email, Outgoing, signs, creates,
  mails,
}

-- config.AuthServer; durations are not negative
pub record AuthConfig : Type 0 where
  pub access_token_validity : ℕ
  pub password_reset_token_validity : ℕ
  pub password_reset_token_debounce : ℕ
  pub password_reset_token_reuse : ℕ
  pub default_user_scopes : List String
  pub last_authenticated_at_threshold : ℕ
  pub registration_requires_confirmation : Bool
  pub confirmation_token_validity : ℕ
  pub confirmation_token_debounce : ℕ

-- The answers from outside. Each is a function of the number of answers asked for before, so that
-- two questions may have two answers: `outage` says which statements fail in the driver.
pub record Env : Type 0 where
  pub config : AuthConfig
  pub clock : ℕ → ℕ
  pub wall : ℕ → ℕ
  pub uuid : ℕ → String
  pub outage : ℕ → Bool
  pub hash_password : ℕ → String → Result String
  pub compare_hash : String → String → Result Bool
  pub to_lower : String → String
  pub trim_space : String → String
  -- the MPC services, encoding/json on `ApprovalParams`, and base64.RawURLEncoding
  pub threshold_sign : ℕ → ThresholdSignRequest → Result String
  pub create_root_key : ℕ → CreateRootKeyRequest → Result String
  pub marshal : ApprovalParams → String
  pub unmarshal : String → ApprovalParams
  pub base64_url : List ℕ → String
  -- PostgreSQL reads the text as a value of type uuid.
  pub is_uuid : String → Bool

-- `base` is what is committed, and `view` what the open transaction sees; they agree outside one.
-- `calls` are the requests sent to the MPC infrastructure and the mails, newest first.
pub record World : Type 0 where
  pub base : Database
  pub view : Database
  pub asked : ℕ
  pub calls : List Outgoing

abbrev pub M : Type 0 → Type 0
M A = World → Result A × World

-- The time and the identifier that an INSERT or UPDATE uses.
pub record Stamp : Type 0 where
  pub wall : ℕ
  pub uuid : String

-- Where a statement runs: on the pool of connections (`s.db`), or in the transaction (`exec`).
pub data Executor : Type 0 where
  pool tx : Executor

abbrev seen_by : Executor → World → Database
seen_by pool w = w.base
seen_by tx w = w.view

abbrev pub next : World → World
next w = record w { asked = suc w.asked }

module _ {A : Type 0} where
  unfoldable pub pure : A → M A
  pure a w = (ok a, w)

  unfoldable pub raise : Error → M A
  raise e w = (err e, w)

  unfoldable pub lift : Result A → M A
  lift r w = (r, w)

module _ {A B : Type 0} where
  abbrev pub continue : Result A → (A → M B) → M B
  continue (ok a) f w = f a w
  continue (err e) f w = (err e, w)

  infixl 5 ◌>>=◌ ◌>>◌
  unfoldable pub ◌>>=◌ : M A → (A → M B) → M B
  ◌>>=◌ m f w = let (r, w') = m w in continue r f w'

  abbrev pub ◌>>◌ : M A → M B → M B
  m >> n = m >>= λ _. n

-- The rows that a write touches, put back where its executor writes. A write on the pool is
-- committed at once, and an open transaction sees it (READ COMMITTED).
abbrev pub written : {A : Type 0} → Result (A × Database) → Database → Database
written (ok (_, db)) old = db
written (err _) old = old

abbrev answer : {A : Type 0} → Result (A × Database) → Result A
answer (ok (a, _)) = ok a
answer (err e) = err e

abbrev put : Executor → {A : Type 0} → (Database → Result (A × Database)) → World → World
put pool f w = record w { base = written (f w.base) w.base; view = written (f w.view) w.view }
put tx f w = record w { view = written (f w.view) w.view }

module _ (env : Env) where
  abbrev stamp : World → Stamp
  stamp w = record { wall = env.wall w.asked; uuid = env.uuid w.asked }

  -- s.clock.Now()
  unfoldable pub now : M ℕ
  now w = (ok (env.clock w.asked), next w)

  -- time.Now()
  unfoldable pub wall_now : M ℕ
  wall_now w = (ok (env.wall w.asked), next w)

  -- hashing.HashPassword; the salt is drawn anew for each call
  unfoldable pub hash_new : String → M String
  hash_new password w = (env.hash_password w.asked password, next w)

  -- uuid.New().String()
  unfoldable pub new_uuid : M String
  new_uuid w = (ok (env.uuid w.asked), next w)

  -- A call of the remote service: it is sent, and then answered.
  unfoldable pub send_sign : ThresholdSignRequest → M String
  send_sign r w = (env.threshold_sign w.asked r, record (next w) { calls = signs r ∷ w.calls })

  unfoldable pub send_create : CreateRootKeyRequest → M String
  send_create r w = (env.create_root_key w.asked r, record (next w) { calls = creates r ∷ w.calls })

  -- A mail is handed to the transport, which is asked once for each.
  unfoldable pub send_mail : (ℕ → Email → Result (Unit {0})) → Email → M (Unit {0})
  send_mail transport m w = (transport w.asked m, record (next w) { calls = mails m ∷ w.calls })

  -- A query for all rows, a count or a test of existence.
  unfoldable pub select : Executor → {A : Type 0} → (Database → A) → M A
  select ex f w =
      if env.outage w.asked then (err driver, next w) else (ok (f (seen_by ex w)), next w)

  -- An INSERT, UPDATE or DELETE, which may break a constraint.
  unfoldable pub write : Executor → {A : Type 0} → (Stamp → Database → Result (A × Database)) → M A
  write ex f w =
      if env.outage w.asked
      then (err driver, next w)
      else (answer (f (stamp w) (seen_by ex w)), next (put ex (f (stamp w)) w))

abbrev pub renamed : {A : Type 0} → Result A → (Error → Error) → Result A
renamed (ok a) f = ok a
renamed (err panic) f = err panic
renamed (err e) f = err (f e)

-- `One` turns a missing row into an error.
abbrev pub require : {A : Type 0} → Option A → Error → Result A
require none e = err e
require (some a) e = ok a

unfoldable pub guard : Bool → Error → M (Unit {0})
unfolding pure raise
guard b e = if b then pure tt else raise e

-- `if err != nil { return …, f(err) }`
unfoldable pub map_error : {A : Type 0} → M A → (Error → Error) → M A
map_error m f w = let (r, w') = m w in (renamed r f, w')

-- A panic is no value: it goes on through the caller.
abbrev pub as_value : {A : Type 0} → Result A → Result (Result A)
as_value (err panic) = err panic
as_value r = ok r

-- The error as a value, `x, err := …`.
unfoldable pub attempt : {A : Type 0} → M A → M (Result A)
attempt m w = let (r, w') = m w in (as_value r, w')

-- A panic goes through the deferred function as it is; an error is wrapped.
abbrev failed : Error → Error
failed panic = panic
failed e = wrapped "failed to execute transaction" e

abbrev committed : Bool → World → World
committed lost w =
    if lost
    then record w { view = w.base; asked = suc w.asked }
    else record w { base = w.view; asked = suc w.asked }

abbrev rolled_back : World → World
rolled_back w = record w { view = w.base; asked = suc w.asked }

abbrev pub begun : World → World
begun w = record w { view = w.base; asked = suc w.asked }

-- The answer before the last one.
abbrev pub before : ℕ → ℕ
before zero = zero
before (suc n) = n

-- The last thing that was asked of the database met an outage; after a transaction that is its commit.
abbrev pub commit_lost : Env → World → Bool
commit_lost env w = env.outage (before w.asked)

module _ (env : Env) {A : Type 0} where
  -- The end of a transaction. The deferred function assigns the error of `Commit` to a variable that
  -- is no named result, so the caller is told of success whether or not the commit was lost.
  abbrev finish : Result A × World → Result A × World
  finish (ok a, w) = (ok a, committed (env.outage w.asked) w)
  finish (err e, w) = (err (failed e), rolled_back w)

  -- db.WithTransaction and db.WithConfiguredTransaction
  unfoldable pub with_transaction : M A → M A
  with_transaction body w =
      if env.outage w.asked
      then (err (wrapped "failed to start transaction" driver), next w)
      else finish (body (begun w))
