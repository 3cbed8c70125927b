-- ===== src/Lib.antt =====
-- The backend of FreeCloud, an identity and device management server: the parts that decide, each
-- in a module of its own. The server stands in backend/internal, below which are all the paths
-- named here; its parts meet in the database.
--
-- Audit models audit/chain.go and audit/retention.go. Every change that an administrator makes is
-- a row of audit_logs. `WriteEntry` chains the row to the one before it by a SHA-256 hash,
-- `VerifyChain` walks the chain, and `Prune` deletes old rows and sets an anchor from which the
-- walk starts afterwards. Audit/Hash has `computeHash`, Audit/Chain the table, `WriteEntry`,
-- `chainHead`, `VerifyChain` and `chainAnchor`, Audit/Retention `Prune`. Audit/Spec says what an
-- intact chain is, with no reference to the loop. PostgreSQL's jsonb and SHA-256 are the record
-- `Engine`. Each call of the database may fail, as an oracle says; an error rolls back all that
-- the call did, so the result of an operation is a new table or an error. A transaction that was
-- rolled back has used up numbers of the column's sequence, which `gap` counts. The rows of the
-- table are listed in the order of seq. The advisory lock makes writers take turns, so that an
-- operation is one step. A walk of `VerifyChain` that breaks off sees a number of rows that is an
-- argument. A duration that is not positive is 0.
--
-- Scim/Filter models handlers/scim_filter.go, the language in which a provisioning client selects
-- users: Token has the tokenizer, Ast the tree and its evaluation, Parser the recursive descent,
-- Strict the two wrappers that the list handlers call. Texts are lists of bytes and ASCII. The
-- parser runs on fuel: `fuel_for` gives six calls and six more for each token, and the depth is
-- one more than the number of "[" of the text, since a bracket starts a parser of its own on a text
-- that has one "[" less. A parse that fuel cuts off has a result of its own, `exhausted`.
--
-- Middleware/RateLimit models middleware/ratelimit.go, the limiter that every request passes: a
-- map of sliding windows, the order in which its keys came, and the collection of idle keys.
-- Middleware/ClientIp models middleware/clientip.go and `clientIP`, which choose the key; net and
-- net/netip are the record `Netip`. A call of `allow` is one step: two requests that race for one
-- entry, and a request that holds an entry which is collected meanwhile, are not modelled.
--
-- Access models handlers/access_eval.go, which Keycloak asks at each login whether a user may come in
-- from a device. Evaluate/Named and Evaluate/Checked describe, without the order of the code's tests,
-- the device that a request names and the devices and the policy that it is checked by. Clock has access_policy_time.go, with what time.Parse does with the three layouts;
-- Ids has validators.go and `isValidUUID`; Conditions has `evalConditions`, Posture
-- `evaluateDevicesPosture` and `conditionTypesFromReasons`, and Evaluate `EvaluateAccess`. What the
-- database answers in a request is the record `Store`, what Fleet answers about a device a
-- function, package net and the GeoIP database the record `Network`, and the verification of the
-- device cookie an argument, for which Evaluate/Signed takes the function of Cookie. A read of the
-- user's devices that breaks off gives the devices read so far, as in the code. Cookie has
-- `MintDeviceCookieValue` and `ParseAndVerifyDeviceCookie` of handlers/device_identity.go, with
-- HMAC-SHA256 and the encodings as the record `Codec`. The reasons to deny are texts, as the labels
-- are read off them.
--
-- Provisioning models provisioning/provisioning.go, which keeps the accounts of users in connected
-- apps. Table has the rows of provisioning_state, Engine `ProvisionUser` and `recordError`,
-- Engine/Deprovision `DeprovisionUser` and `SyncGroupMembership`, Reconcile `ReconcileAll` and
-- `reconcileOne`, Attributes `ApplyAttributeMap`, Registry the connectors by app. An operation
-- takes the table, the time, the answers of the remote app (the record `Connector`), and an oracle
-- that says which calls of the database fail, and gives the new table and what is returned. The
-- order of the rows that ORDER BY asks for is an argument. Durations are seconds. The connectors
-- themselves are HTTP clients and not modelled.
--
-- Leader models leader/leader.go, which picks the replica that runs the background jobs. Lock is
-- what PostgreSQL promises of an advisory lock, as a record of operations and laws; Elector has
-- `tryAcquire`, `releaseIfLeader`, `Run` and the loop, as a machine that moves from one sleep to the
-- next; Cluster has any number of replicas, the moves of which interleave, while sessions end at any
-- time. The pool is taken to give no connection that an elector still keeps.
--
-- Accounts models how users come and go. World has the tables and what Keycloak and Fleet answer, and
-- lists what they did. Onboard has `Onboard` of handlers/onboarding.go, from its look-up of the email
-- on, `persistOnboard`, of which a failure rolls the transaction back, and `CreateUser` of
-- keycloak/client.go. Offboard has handlers/offboarding.go: the steps of `Offboard`,
-- `wipeUserDevices`, and `triggerDeprovisioningForUser` where the server has a provisioning engine,
-- with the operation of Provisioning on the rows of provisioning_state. Approve has `executeApprovedAction` of
-- handlers/approvals.go, and Requests `DecideApproval`, as a machine that moves from one query to the
-- next, so that the calls that decide one request interleave. An action is one step of it. A commit
-- that fails is taken to have left the tables as they were. The entries that `persistOnboard` and
-- `Offboard` write to the audit log are listed with actor, action and target; Audit has the chain.
--
-- Auth models who may do what, and in which organization. Roles has the roles and the matrix of
-- permissions of middleware/auth.go, and the gates that read them; Token `handleAPIToken`, with
-- SHA-256 as a parameter; Org `OrgContextMiddleware` of middleware/org.go; Scope orgscope/orgscope.go.
-- A request carries claims or none, and an org or none (`Identity`); a middleware lets it through or
-- denies it (`Verdict`). Disabled has `isUserDisabled` with its cache: a call reads the cache, queries
-- and writes the cache at three times, and calls come one after the other. Texts are lists of bytes and ASCII. How the claims of a JWT are verified
-- is not modelled.
--
-- Drift models reconcile/reconcile.go, which compares the users of Keycloak with the rows of users.
-- Run has `Run` and the gauges of `runAndRecord`; a Go map is the list of its keys, and the order in
-- which a loop visits them is an argument. Ids are lists of bytes. A row of users that does not scan is
-- passed over, as in the code, so that its user counts as absent from the database.
--
-- Prelude has the names, the tests and the lists that all parts share, texts as bytes, and numbers
-- printed in decimal.
--
-- Not modelled: the HTTP handlers around these parts, their SQL but for what is said above, the
-- clients of Keycloak and Fleet but for `CreateUser`, the commands that wire the server, the front
-- end and the authenticator.
pub mod Prelude
pub mod Audit
pub mod Scim
pub mod Middleware
pub mod Access
pub mod Provisioning
pub mod Leader
pub mod Accounts
pub mod Auth
pub mod Drift
