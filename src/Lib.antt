-- ===== src/Lib.antt =====
-- server-central: a panel that manages servers. This library models the part of it that decides who
-- may do what: the registry of permissions, the gate in front of every operation, the accounts with
-- their sessions and roles, the OIDC provider with the tokens it hands to other applications, and two
-- small parts that security rests on, the client's address and the quoting of shell commands.
--
-- How the parts interact. A request reaches `handleRpc` (apps/server/src/http/rpc.ts), which resolves
-- the bearer token to a user by `AuthStore.authenticate` (apps/server/src/auth.ts); what the user may
-- do is merged from the roles held, looked up in `RoleStore` (apps/server/src/roles.ts), and from the
-- account's own nodes, by `effectivePermissions` (shared/src/permissions.ts). `authorize` compares it
-- with the node that the registry asks for the operation. Deleting an account, or resetting its
-- password, drops its sessions and, by a hook that apps/server/src/index.ts sets, its refresh tokens
-- (apps/server/src/features/oidc/refresh.ts). The device flow
-- (apps/server/src/features/oidc/device.ts) keeps requests in memory until a person answers them. In
-- front of these stores stands apps/server/src/features/oidc/feature.ts: a person confirms a request in
-- the browser, and the client's backend exchanges a code, a refresh token or a device code for tokens,
-- whose claims (apps/server/src/features/oidc/tokens.ts) are scoped to the App that the client is linked
-- to (apps/server/src/features/apps/store.ts). Sessions and the login throttle record the address that
-- apps/server/src/client-ip.ts finds behind trusted proxies.
--
-- The files:
-- - Prelude, tests, results, texts as JavaScript has them (`trim`, `startsWith`, UTF-16 length), lists,
--   dictionaries in order of insertion (a `Map`, or a plain object used as one), and the loop that
--   cleans a list of nodes or ids.
-- - Permission, shared/src/permissions.ts. Registry is `PANEL_PERMISSIONS`, Api the names that
--   `ApiOperations`, `TaskKind` and `EventKind` declare (shared/src/domain, shared/src/tasks.ts,
--   shared/src/index.ts), Seeds is `SEED_ROLES`, Match the functions on nodes, Requirements the tables
--   built from the registry, Subject the checks on a user. Where the source throws while it builds a
--   table, the builder returns an error, and the table takes the result, which is none.
-- - Rpc, apps/server/src/http/rpc.ts, `authorize` and `handleRpc`. The answer carries what was done on
--   the way to it: whether the body was read and which handler ran.
-- - Roles, apps/server/src/roles.ts, a function for each method of `RoleStore`.
-- - Auth, apps/server/src/auth.ts. Auth has the records, the migration and the start; Sessions,
--   Accounts and Login the methods of `AuthStore`; Checks the shapes that regular expressions test.
-- - Oidc/Refresh, `RefreshTokenStore`. Oidc/Device: Code has `normalizeUserCode`, `differsEnough` and
--   the drawing of a code, Store the methods of `DeviceCodeStore`. Oidc/Clients: `OidcStore`.
--   Oidc/Claims: groups, claims and the payloads of the tokens. Oidc/Front: the operations of the
--   feature that a signed-in user calls. Oidc/Endpoint and Oidc/Endpoint/Routes: the endpoints that a
--   client's backend calls, a function for each step between two early returns.
-- - Apps, apps/server/src/features/apps/store.ts, a function for each method of `AppStore`
--   but `list`, which sorts by the locale.
-- - ExecLines, apps/server/src/exec-lines.ts: the output of a command, passed on a line at a time.
-- - Cors, apps/server/src/cors.ts: the origins that may read an answer, and the rule that the
--   dispatcher asks; what `new URL` makes of a text is a parameter.
-- - ClientIp, apps/server/src/client-ip.ts: addresses read and printed; Trusted has the CIDR blocks, the
--   chain of a forwarded header and `resolveClientIp`.
-- - Shell, apps/server/src/shell-quote.ts; Shell/Reader describes on its own how a POSIX shell reads
--   quotes, blanks, assignments and `cd DIR &&` for a directory that does not begin with `-`, and
--   refuses all else.
-- - Tasks, apps/server/src/tasks/store.ts, the runs that `TaskStore` keeps.
--
-- Conventions. A store is a record, and a method a function from it that returns the store it leaves;
-- a method that throws returns an error value, with the store only where it changes it before it
-- throws. Where the source keeps a file, the record has a field for what the file holds, and writes
-- are taken to succeed. A method is one step: while it waits for a file, a hash or a lookup, no other
-- call changes what it has checked. Only `createUser`, with `setupOwner` and `addUser`, also stands in
-- two halves, before and after it waits for the hash of the password. The clock, `randomUUID`, `randomBytes`, `randomInt`, `Bun.password`, SHA-256
-- and the case mappings are arguments. A `Date.now()` is a natural number of milliseconds; a
-- difference of times that would be negative counts as 0, which its comparisons with a limit do not
-- tell apart.
--
-- Bounds. Every loop is structural but one: `generateUserCode` counts its attempts down from 100, as
-- the source does, and fails when none is left.
--
-- Not modelled: parsing of bodies, cookies and headers, which enter the dispatcher and the endpoints as
-- what they answered, as the rule of Cors does the dispatcher; the signing of tokens and the check of a
-- signature, by the crypto library; the runner of tasks, the agents, the hosts' tools (Docker, ZFS,
-- systemd, files), the proxy, and the web application. Ids of roles, apps and clients are taken not to
-- be names of `Object.prototype`. Of permissions.ts `roleMatchesSeed` is left out, and of exec-lines.ts
-- the call without a listener.
pub mod Prelude
pub mod Shell
pub mod ExecLines
pub mod ClientIp
pub mod Cors
pub mod Permission
pub mod Rpc
pub mod Roles
pub mod Auth
pub mod Apps
pub mod Oidc
pub mod Tasks
