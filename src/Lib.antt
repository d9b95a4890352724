-- ===== src/Lib.antt =====
-- A verification library for the access control, the offline cache and the service core of
-- DepthFusion, a memory service that several agents, people and devices share.
--
-- The program's parts and how they interact. A caller reaches the service as a principal whose
-- groups name roles. A tool call first passes the rate limiter and then the tool authorization,
-- which asks the policy engine; the engine checks the principal's capabilities, the record's access
-- list and its classification, and keeps its decisions in a cache. A search result passes the ACL
-- verifier last, and what happens is written to an audit log. A device that goes offline takes with
-- it the records that admission lets through, a lease for each, and a signed snapshot of the
-- classification policy; the purge engine removes what has expired. Agents exchange items on a
-- context bus that drops repeated content, and calls of language models run down a chain of
-- backends. A browser session brings a signed token, which is validated against the provider's
-- keys. Documents become chunks, entities and their relations a graph that a reader walks within
-- its rights. A device fills its encrypted cache by a plan and evicts by score, and the server
-- remembers each session's tool calls until a checkpoint. The sync engine replicates records between
-- devices and hub, where the hub decides who reads them. A session saves checkpoints, with the diffs
-- of the files that it touched, and principals query them; memories and events are published to the
-- graph. The rankings of several retrievers are fused, and gates decide which blocks go on.
--
-- Files, and the code that they are about (paths from the repository's root):
--   Authz/Classification    src/depthfusion/authz/classification.py
--   Authz/Roles             src/depthfusion/authz/roles.py: the enumerations, the capability table
--                           and RoleStore, whose rows are a list in insertion order
--   Authz/Principals        src/depthfusion/identity/models.py (Principal) and
--                           src/depthfusion/authz/capability_check.py
--   Authz/Snapshot          src/depthfusion/authz/policy_snapshot.py: signing and verification
--   Authz/DecisionCache     src/depthfusion/authz/policy_engine.py (_DecisionCache): get, put
--                           (here put_decision), invalidate_principal, clear
--   Authz/Engine            src/depthfusion/authz/policy_engine.py (PolicyEngine): decide, with
--                           _evaluate as evaluate_with for either classification check
--   Authz/Export            src/depthfusion/authz/export_controls.py
--   Authz/Labels            src/depthfusion/authz/label_mapping.py
--   Mcp/ToolAccess          src/depthfusion/mcp/authz.py
--   Mcp/SessionActivity     src/depthfusion/mcp/session_activity.py
--   Mcp/RateLimit           src/depthfusion/mcp/ratelimit.py (InMemoryRateLimitBackend)
--   Offline/Lease           src/depthfusion/cache/lease_lifecycle.py (stores and LeaseManager)
--   Offline/Purge           src/depthfusion/cache/lease_lifecycle.py (PurgeEngine, and the subset
--                           of the documents that OfflineQueryEngine searches)
--   Offline/Admission       src/depthfusion/cache/admission.py (admission)
--   Offline/Manager         src/depthfusion/cache/manager.py (CacheManager): put and get are
--                           put_entry and get_entry
--   Offline/Prefetch        src/depthfusion/cache/prefetch_scheduler.py
--   Offline/Signals         src/depthfusion/cache/activity_signals.py and
--                           src/depthfusion/cache/hit_rate.py
--   Identity                src/depthfusion/identity/device_lease.py
--   Identity/Jwks           src/depthfusion/identity/jwks_cache.py
--   Identity/Tokens         src/depthfusion/identity/token_validator.py
--   Identity/Registry       src/depthfusion/identity/principal_store.py and
--                           src/depthfusion/identity/device_registry.py
--   Retrieval               src/depthfusion/retrieval/acl_verifier.py
--   Backends                src/depthfusion/backends/chain.py
--   Router                  src/depthfusion/router/bus.py
--   Audit                   src/depthfusion/audit/log.py (AuditStore)
--   Graph                   src/depthfusion/graph/types.py and src/depthfusion/graph/store.py
--                           (JSONGraphStore)
--   Graph/Traverse          src/depthfusion/graph/traverser.py (traverse)
--   Ingest/Chunking         src/depthfusion/ingest/chunking.py
--   Sync                    src/depthfusion/sync/engine.py
--   Events/Paths            src/depthfusion/core/event_store.py (is_secret_bearing_path and
--                           normalise_diff_path)
--   Events/Capture          src/depthfusion/core/event_store.py (_collect_git_diffs)
--   Events/Records          src/depthfusion/core/event_store.py (CheckpointRecord)
--   Events/Checkpoints      src/depthfusion/core/event_store.py: list_checkpoints,
--                           prune_expired_checkpoints, get_checkpoint, get_latest_checkpoint and
--                           the write of publish_checkpoint
--   Events/History          src/depthfusion/api/query.py (query_checkpoints, query_file_diffs)
--   Events/Fabric           src/depthfusion/core/event_store.py (EventStore): publish,
--                           publish_memory and publish_ambient_trace over a graph backend, of which
--                           Events/Fabric/JsonGraph is JSONGraphStore of src/depthfusion/graph/store.py
--   Events/Saving           src/depthfusion/core/event_store.py (publish_checkpoint)
--   Fusion/Rrf              src/depthfusion/fusion/rrf.py
--   Fusion/Gates            src/depthfusion/fusion/gates.py
--   Utils/Expressions       src/depthfusion/utils/expression_eval.py
--   Common                  what the files share: lists, dictionaries, sorting, enumerations
--   Tests                   sample data, and each result applied to it
-- The files below each of these hold the proofs about it.
--
-- How the code is modelled. State is passed explicitly: an operation takes the state and returns
-- the new one with its result. A dict is the list of its items in insertion order, a set that is
-- only searched a list. Times are natural numbers of one unit, whole seconds where a constant gives
-- the unit, or the ISO-8601 texts that the code compares (Events, Sync), and each read of a clock
-- is an argument; nothing is assumed of the reads unless a result says so. Python's integers are
-- unbounded, so are the numbers here. An exception is a value of the result. Texts of denials are
-- constructors that carry the facts that they name. The operations of one object follow one
-- another, as the locks around them see to. Most loops run over a list that shrinks. Three have
-- fuel, and answer none where it runs out: the evictions of Offline/Manager with one pass for each
-- row and one more, the hard split of a sentence with one for each of its characters and one more,
-- and the windows over a text likewise; that this is enough is part of the results on them.
--
-- Parameters: HMAC, JSON and the reading of keys (Signing in Authz/Snapshot), the lower-casing of
-- labels (Authz/Labels), json.loads (Retrieval), the answers of the backends of a chain, the cipher
-- and the floating-point score formula of the cache (Services in Offline/Manager), Python's parser,
-- operators and builtins (Utils/Expressions), the decoding of a token's parts, the check of a
-- signature (Decoding in Identity/Tokens) and the answers of the provider of keys. What git, the
-- clock and the encoder do while diffs are captured (Host in Events/Capture), the reading of times
-- and the deletion of files (PruneHost in Events/Checkpoints), the lower-casing, the decoder and
-- the project's root of a query (QueryHost in Events/History), the digest, the stream and whether a
-- file can be saved (Events/Fabric), and the floating-point numbers with the order of comparable
-- ones and the built-in sum (Scores and Numbers in Fusion).
--
-- Not modelled: logging and metrics, the SQL behind the stores, the SQLite and Chroma graphs, the
-- Redis limiter, floating-point scores of searches, the JSON form of snapshots, the integrity
-- digest of the offline cache, the reading side of the bus file, the streams behind the event
-- store, its seed bundle and recent events, the queries over metrics and discoveries, and the parts
-- of the program that no file above names.
pub mod Common
pub mod Authz
pub mod Mcp
pub mod Offline
pub mod Identity
pub mod Retrieval
pub mod Backends
pub mod Router
pub mod Audit
pub mod Events
pub mod Fusion
pub mod Graph
pub mod Ingest
pub mod Sync
pub mod Utils
pub mod Tests
