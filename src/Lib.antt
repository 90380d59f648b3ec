-- ===== src/Lib.antt =====
-- Z-Shield: a dashboard for game servers, its gateway for agents and its API for users.
--
-- The agents on the game servers sign their requests with a secret of their server; the gateway
-- authenticates each request and answers with a signed reply. Users log in and act on the
-- organizations that they are members of, through the guard of the API. Paths below are from
-- apps/api/src, the one of the migrations from the root.
--
-- Gateway.Protocol (agent-gateway/protocol.ts): the texts that are signed.
-- Gateway.Replay (replay.ts): `ReplayGuard.claim` and `AgentRateLimiter.consume`; Redis is a list of
-- entries with expiries.
-- Gateway.Credentials (credentials.ts): `resolve`, `issue`, `beginRotation`, `commitRotation`,
-- `revoke`, `touch`, over the rows of api_credentials.
-- Gateway.Authenticate (authenticate.ts): `authenticate`, step by step, which uses the three above.
-- Gateway.Respond, Gateway.Handlers (respond.ts, routes.ts): replies, `guard`, `parseEnvelope`,
-- `handle`, and a POST route made of them.
-- Gateway.Commands (service.ts): `claimCommands` and `commandResults`.
-- Rbac (rbac/permissions.ts): the matrix of permissions, `can`, `checkRoleChange` and
-- `checkMemberRemoval`.
-- Auth (auth/sessions.ts): logins, sessions, password resets; Auth.Accounts is `register`, Auth.Discord
-- `loginWithDiscord`, Auth.Totp (auth/totp.ts) the second factor and the recovery codes.
-- Middleware (api/middleware.ts): the guard of the routes for users, as handlers over the database;
-- it resolves sessions with Auth and asks Rbac for permissions.
-- Members (api/routes.ts): the routes of memberships, and two of their transactions interleaved.
-- Invitations (api/routes.ts): the routes of /api/invitations, which join an account to an
-- organization and open a session with Auth.
-- Bans (api/routes.ts): the routes of /api/bans that write, and the index of active bans.
-- Evidence (evidence/upload.ts): the upload of a capture with its token; Evidence.Multipart is
-- `parseUpload`, whose loop runs on one round more than the body has bytes, which it never uses up.
-- Realtime (realtime/websocket.ts): the hub of sockets, which fans out the messages of channels.
-- Crypto (lib/crypto.ts): password hashes, the envelope of secrets, identifiers. What node:crypto
-- and Buffer provide is the record `Node`, its documented behaviour the record `NodeLaws`: a text
-- comes back from UTF-8 if no surrogate stands alone in it.
-- Tenant (lib/db.ts): the transactions framed on an organization or a user, as the components use
-- them, on a database that answers. Tenant.Transaction is `withTenant` statement by statement on a
-- connection that may fail; PostgreSQL and its driver are the record `Server`, what they document
-- the record `Laws`.
-- Db, Table (db/migrations): the tables as lists of rows, and the SQL statements over them.
-- Text, Prelude: JavaScript strings as lists of code units, and shared helpers. Tests runs the model.
--
-- Random tokens, identifiers and the time are arguments. The loop of `randomBase32` runs over the
-- rounds of random bytes that it is given.
-- `String(n)` has n + 1 rounds of fuel, which its digits never use up.
-- Times are milliseconds, of one clock for the process, the database and Redis, and a request reads
-- the clock once. JSON, the schemas that zod runs, the comparison of citext, HMAC-SHA1, UTF-8 and
-- the lower case and decomposition of Unicode are parameters.
-- Not modelled: the sizes and timeouts of the pool, row level security (the statements name their
-- organization themselves), foreign keys, columns of bans that no modelled statement reads, locks
-- but those of Members.Race, logging and publications, the other routes for users, the web front
-- end.
pub mod Prelude
pub mod Table
pub mod Text
pub mod Rbac
pub mod Crypto
pub mod Tenant
pub mod Db
pub mod Auth
pub mod Middleware
pub mod Members
pub mod Invitations
pub mod Bans
pub mod Evidence
pub mod Realtime
pub mod Gateway
mod Tests
