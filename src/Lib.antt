-- ===== src/Lib.antt =====
-- A model of the core of Thaddeus, a version control system whose history is a log of signed
-- operations, and of the theorems that make it correct.
--
-- How the parts interact. An identity signs operations. A log holds operations by id and names heads
-- by views; every answer it gives (trees, conflicts, closures) is a walk over the parents of
-- operations. A repository's owner signs the heads of a view in a chain of records, which a head store
-- keeps, also over a backend that several stores share. A platform repository lands one view on
-- another: it merges their heads, asks a policy about the operations that are new to the target, and
-- moves the target only if the policy allows it. Delegations bound what agents may do. The authority of a
-- service issues credentials under the policy of a tenant, and turns a credential with a signed, fresh
-- proof into an authorization, under which it signs the next head of a view; replay nonces keep a proof
-- from being used twice.
--
-- Files and code (paths from the repository's root):
--   Identity            packages/identity/src/did.ts, identity.ts
--   Json, Uri           JSON.stringify and encodeURIComponent of the language
--   Log.Op              packages/log/src/op.ts
--   Log.Head            packages/log/src/head.ts: records, chains, pinned prefixes
--   Log.Head.Snapshot   packages/log/src/head.ts: verifyHeadSnapshot
--   Log.HeadStore       packages/log/src/headstore.ts
--   Walk                the ancestor walk of packages/log/src/oplog.ts, head.ts and
--                       packages/platform/src/platform.ts
--   Log.OpLog           packages/log/src/oplog.ts; Write is its writing half, Tree is materialize,
--                       Conflicts is conflicts
--   Paths               the path globs of packages/platform/src/policy.ts, packages/agent/src/policy.ts
--   Platform            packages/platform/src/platform.ts; Land is Repo.land, Repair the repair loop of
--                       openDurable, Policy is packages/platform/src/policy.ts
--   Agent               packages/agent/src/delegation.ts; Registry is registry.ts, Policy is policy.ts
--   Authority           packages/authority/src/scope.ts
--   Authority.Wire      packages/authority/src/errors.ts, codec.ts
--   Authority.Proof     packages/authority/src/proof.ts; Token is token.ts, TenantPolicy is policy.ts,
--                       ServiceHead is head.ts
--   Authority.Service   packages/authority/src/authority.ts: the state, the audit, #validate and
--                       #consumeProof. Policies is createTenant and changePolicy, Issuing is issue and
--                       revoke, Use is authorize, check, queue and redeem, History is head and advance,
--                       Opening is the constructor; Calls is any sequence of them
--   Replay              packages/persist/src/replay.ts
--   Prelude             shared lemmas; texts, maps and sorting as the language has them
--   Examples            sample data, tests and concrete instances of the theorems
-- The other modules below these hold the proofs. A name of the code in camelCase is the same name in
-- snake_case; `#name` loses its mark.
--
-- State and errors. A text is the list of its UTF-16 code units. A Map is a list of entries in insertion
-- order, a Set a list of texts. A method that changes state takes the state and gives it back. An
-- exception is `none`, or a constructor of a result type where it matters which one it is; messages
-- are kept only where a result carries them. Asynchronous methods are functions: head stores are
-- serialised by the code, and a landing is not safe for concurrent use, as the code says. The clock
-- and the counter of dry runs are arguments.
--
-- The authority. The keys of its backend begin with one of several prefixes, none of which begins another,
-- so each is a map of its own there, of decoded records. Its calls hold the lock of the tenant, but for
-- issue and authorize: these wait once, while their proof is consumed, and are two functions with the
-- state function `others` between them, which stands for whatever other calls do meanwhile; `Calls` has
-- the two parts as calls of their own, so it has the interleavings too. The clock is read once for each
-- part of a call that does not wait. The store may refuse any write: `put_fails` says which, such a write
-- throws and writes nothing, and the call that awaits it throws with what it had done before. Reads do not
-- throw, and nonces are consumed as packages/persist does it. An audit record has all but its detail, a
-- text for people. The provenance of an Authorization, which the code looks up in a WeakMap, is given by
-- its type.
--
-- Third-party code. libsodium, BLAKE3 and base58 are the record `Identity.Crypto`, and `Date.parse` a
-- field of `Log.Op.Env`. What is documented of them is a hypothesis where it is used: `IsKeypair` (what
-- a key pair signs verifies, base58 decodes what it encoded) and `HasSizes` (a digest is 64 hexadecimal
-- characters, a signature 64 bytes). The authority has them in `Engine`, with TextEncoder and JSON.parse:
-- `IsRead` is that JSON.parse reads back what JSON.stringify wrote, `IsSigner` that a service's signatures
-- verify. The store is the record `StoreApi`, the encoding of head records
-- the record `Codec`; the provenance and veto logs are records too.
--
-- Bounds and fuel. Numbers are natural numbers; those that are signed are checked against 2^53 - 1 as
-- in the code, and an agent's spend is counted in whole units. The ancestor walk runs on `rounds`: one
-- for each head and one for each parent of each operation, which is enough because an operation's
-- parents are pushed when it is first seen (`Walk.Ends`). The cleanup of nonces runs one round for each
-- entry of the heap, each of which pops one. `sift_up` and `sift_down` run on the length of the heap,
-- since an index halves or doubles with each round.
--
-- Not modelled: loading from a backend and the backend of the operation log, the backend of a head store
-- that lacks putIfAbsent (the code then calls get and put, between which another store may write) or
-- that throws, the wire form of heads,
-- sealing, the store's objects and capabilities, the table of repositories, releases, the custody of keys
-- and the reopening of the authority package, the server, the clients, the workspaces, the semantic graph, and
-- whatever only presents or packages.
pub mod Prelude
pub mod Json
pub mod Identity
pub mod Log
pub mod Walk
pub mod Uri
pub mod Paths
pub mod Platform
pub mod Agent
pub mod Authority
pub mod Replay
pub mod Examples
