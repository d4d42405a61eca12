-- ===== src/Lib.antt =====
-- The vault server go-mpc-vault: accounts and sessions, the authentication of requests, vaults,
-- wallets and organizations, and the approval of transactions that an MPC service signs.
--
-- Parts and files. All paths are those of the repository.
--   Data/UserTables, Data/VaultTables: the rows of internal/models/*.go as records. A database is two
--     groups of tables, `Accounts` and `Custody`. The constraints are those of migrations/*.sql.
--   Errors: internal/api/httperrors, the errors of internal/auth, of echo and gRPC, and those of the
--     database.
--   Mpc: what leaves the process: messages to the MPC services (internal/infra/mpc), and mails.
--   Exec: statements, the clock, and db.WithTransaction (internal/util/db/db.go). Exec/Keeps and
--     Exec/Atomic have one rule for each way to build a request, for invariants and for failures.
--     Exec/Steps has requests as sequences of steps and systems of clients that take turns; Exec/Rely
--     has the rules for what such a client may do while others act.
--   Auth: internal/auth/service.go. Auth/Statements are its queries, Auth/Session is login, refresh and
--     logout, Auth/Password the change and the reset of a password, Auth/Registration the registration
--     and the deletion of accounts; Auth/Calls has the methods as calls.
--     Failures, Effects, Access, Revocation, Lifecycle, Resets and Registrations are the proofs.
--   Middleware: internal/api/middleware/auth.go and internal/auth/context.go. It asks the tables for
--     the tokens that the service has issued.
--   Signing: internal/service/signing/impl.go. Its modules are about approvals and signatures
--     (Threshold, Outcome, Decision), terminal states (Settled), invariants (Votes) and the list of
--     requests (Listing, Selected, Pages, Unlisted). Steps has the same methods statement by statement, Alone
--     compares the two, and Backing, Growth, Rules, Known, Loading and Interleaved are about interleavings.
--   Vaults: internal/service/vault/impl.go. Requests are signed with the keys of its wallets.
--   Organizations: internal/service/organization/impl.go. ListRequests joins its members.
--   Passkeys: internal/service/auth/impl.go, the credentials around the WebAuthn ceremonies.
--   PushTokens: UpdatePushToken of internal/data/local/service_push.go.
--   Push: SendToUser and the providers (internal/push).
--   Mailer: internal/mailer/mailer.go.
--   Hashing: internal/util/hashing/argon2.go; Hashing/Scan is what it uses of fmt and strings.
--   Handlers: internal/api/handlers, the routes behind the middleware, which call the services above.
--     A handler takes what its binding of the body gives, and the path's parameters.
--   Grpc: internal/api/grpc/server/signing.go, vault.go and auth.go, which call the same services.
--   Router: the error handler of internal/api/router/handlers.go, which answers for all handlers.
--   Util: ContainsAll, UniqueString and GenerateRandomString (internal/util/string.go and slice.go).
--   Tests: sample tables, and the results applied to them.
--
-- How code is modelled. A method is a function from a world to a result and a world. The world holds the
-- committed tables `base`, the tables `view` that the open transaction sees, a counter `asked` and the
-- messages that have left the process. Code from outside is the record `Env`: time, random identifiers,
-- the outages of the database, the texts that it takes for a uuid, Argon2, the MPC services, JSON and
-- base64. Its answers are functions of
-- the counter, so that each question has an answer of its own, and results hold for every `Env`. A
-- statement that meets an outage fails in the driver; otherwise it is a function of the tables. An
-- executor says whether a statement runs on the pool (`s.db`) or in the transaction (`exec`). A
-- commit that meets an outage is lost, and as in the code the caller is then told of success. A panic
-- ends the request: nothing but the middleware of echo, which is not modelled, recovers from it. A method's early returns are
-- `guard`, `lift` and `map_error`; log lines are left out. An eager load (`qm.Load`) is a further query
-- on the same executor. Where a method is a function, its request runs undisturbed; where it is a
-- program (`Prog`), any other step of any other client may come between two of its steps.
--
-- Bounds. Times and durations are numbers of nanoseconds that are not negative; `CreatedAt > now - d` is
-- written `now < CreatedAt + d`. The offset of a list of requests is a product of 64 bits with its sign,
-- and its total is cut to 32 bits by the handler. The parameters of Argon2 have 32, 32 and 8 bits, which
-- fmt.Sscanf checks. Identifiers are compared as texts, as PostgreSQL compares them in their canonical
-- form. Rows are kept newest first. Every loop of the code is a recursion on a list, but for two: the
-- digits of a number are printed on fuel, as many rounds as the number, each of which divides it by ten;
-- and the rounds of GenerateRandomString, which has no bound of its own, are counted down, `running`
-- being the outcome of too few.
--
-- Not modelled: the probes and the well-known files of the router; the query builders of
-- internal/util/db, configuration, i18n, metrics, and the wiring of the server; of the code that
-- SQLBoiler, go-swagger and protoc generate, all that the services do not use; transactions of the
-- authentication service that overlap.
pub mod Prelude
pub mod Errors
pub mod Data
pub mod Mpc
pub mod Exec
pub mod Auth
pub mod Middleware
pub mod Signing
pub mod Vaults
pub mod PushTokens
pub mod Push
pub mod Organizations
pub mod Passkeys
pub mod Mailer
pub mod Hashing
pub mod Handlers
pub mod Grpc
pub mod Router
pub mod Util
pub mod Tests
