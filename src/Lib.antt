-- ===== src/Lib.antt =====
-- A model of the decisions of this library for Alibaba Cloud: how it classifies the errors of a
-- control plane, waits for a resource, drains an inventory and deletes, how its providers plan, read,
-- reconcile and delete their resources, and how the gateway of packages/rds-access plans and applies
-- its way to a database.
--
-- The parts of the program and their files here:
--   - Prelude: names of the standard library, Boolean tests, lists over the native numbers.
--   - Effect: the program's effects. An effect is a function from a world `W` to a result and the
--     next world; the world is whatever the control plane, the clock and the process hold. Repeating,
--     retrying and timing out belong to the effect library: they are the record `Runtime`, with the
--     documented behaviour of that library in `IsRuntime`. Effect.Repeat and Effect.Retry describe bounded
--     repetitions by the sequence of their rounds. Effect.Chain has the chain of two effects as an
--     operation of its own, for the long handlers of the providers.
--   - Errors: src/error.ts. The tagged errors are records, and `Failure` is their sum. Errors.Pattern has
--     the regular expressions of that file, on the UTF-8 bytes of a text; Errors.Classify has
--     `fromSdkError` and the classifiers (`is_transient` for `isTransient`, and so on), and Errors.Calls
--     the calls of the SDKs with their retries and the envelope of ACR.
--   - Lifecycle: src/internal/lifecycle.ts and src/internal/identity.ts. Observe has `observeUntil`, Wait
--     the four waits over it, Paginate has `paginate`, Delete has `requestOrContinueDelete`, Identity
--     has the checks of names, regions and owners, and Identity.Tags has `tagsEqual`.
--   - Gateway: packages/rds-access/src/gateway. Model has types of model.ts. For connectivity.ts,
--     Address has `parseCidr`, `cidrContains` and `cidrOverlaps` with 32-bit arithmetic, Route has
--     `planRoute`, Connectivity has `planPeering` and `planConnectivity`. Text and Decimal have the
--     text functions of the language that these use, and Bits has lemmas on masks. Planners is
--     planners.ts, Grants is grants.ts, and Onboard is onboard.ts: Api has its data and the interfaces
--     that it calls, Await its `waitFor`, Steps the four steps, Discover the discovery, Apply the whole,
--     Idle what happens when nothing is left to do, and Password `generatePassword`.
--   - Provider: what the providers share. `Alchemy` is the record of the functions of Alchemy that they
--     call, and `Context` what a provider is made with; Tags has the tag records, Names has
--     `accountName`, `validateDesiredInput` and `modelFields`; Ensures has postconditions of effects that
--     succeed, with a rule for each form of a handler, and Settled the two ends of a handler, the
--     wait for a settled resource and the wait for its absence.
--   - Vpc: src/vpc/internal.ts, eip.ts (Eip), eip-association.ts (Association), nat-gateway.ts (Nat) and
--     snat-entry.ts (Snat). Reconcile and Delete have their theorems.
--   - Rds: src/rds/security-ip-group.ts (IpGroup, with the lists of addresses in IpLists), account.ts
--     (Account), database.ts (Database), account-privilege.ts (Privilege) and configuration.ts
--     (Configuration).
--   - Tair: src/tair/security-ip-group.ts (IpGroup) and account.ts (Account).
--   - Ecs: src/ecs/internal.ts, disk.ts (Disk), disk-attachment.ts (Attachment), and
--     security-group-ingress.ts and security-group-egress.ts (Rules, and Directions for what differs).
--   - Ack: src/ack/task.ts (Task).
--   - Ram: src/ram/internal.ts (Client and Pages), role.ts (Role), policy.ts (Policy) and
--     role-policy-attachment.ts (Attachment).
--     In each of these, Client is the record of the operations of the SDK's client, with their
--     requests; Operations has the operations of a provider by the names of the source: `diff_`, `read_`,
--     `reconcile_`, `delete_` and `list_` before the resource, `get_` for its `get`, `_attributes` after it for
--     its `attrs` or `toAttributes`, and `_settled` for the test of the wait that ends a reconcile.
--   - Models: src/internal/observation.ts, over the values of JSON as mutually recursive data, with
--     Agreement for what `modelMatches` compares, and src/internal/secret-input.ts (Secrets).
--   - Tests: a runtime with a clock and a script of answers, runs of the model on it, and every theorem
--     with hypotheses at an input that meets them.
--
-- How the parts interact: a wait repeats a read and asks Errors.Classify which failures of the read may
-- be repeated; draining and deleting raise the errors of Errors; the connectivity plan asks Address
-- whether the networks overlap and Route for one route of each table; the onboarding plans with
-- Connectivity, Planners and Grants, and then applies these plans step by step.
-- A provider reads with the pagination, compares with the tags of Provider, requests through
-- Errors.Calls and ends with a wait of Lifecycle.
--
-- Bounds: `paginate` recurses on the pages left, which is the bound that the code has. A wait makes
-- at most max(1, attempts) reads and a retried call at most seven requests; attempts and intervals are
-- natural numbers, so that truncation leaves them alone. The lists with markers of ECS and RAM stop
-- after 200 pages, as the code does. Addresses are numbers below 2 ^ 32, with the wrap-around of `>>> 0` written out.
--
-- Parameters: the runtime, every read and request of a control plane or a database, Alchemy's names
-- and tags, `toLowerCase` and `encodeURIComponent`, SHA-256, random bytes, `JSON.parse`, `JSON.stringify`, what the copy of a redacted value gives, the decoding of an input by its schema, and
-- `other_number`, which stands for the texts other than decimal digits that JavaScript's `Number` reads
-- as a natural number.
--
-- Not modelled: the other resource providers (instances of ECS, RDS and Tair, key pairs and security
-- groups, networks and switches, and those under src/acr, ack and
-- kubernetes), the SDK clients, the command line, the SQL client and the files of
-- packages/rds-access, and the simulator under src/protocol, which only tests use.
pub mod Provider
pub mod Vpc
pub mod Rds
pub mod Ack
pub mod Models
pub mod Tair
pub mod Ecs
pub mod Ram
pub mod Prelude
pub mod Effect
pub mod Errors
pub mod Lifecycle
pub mod Gateway
pub mod Tests
