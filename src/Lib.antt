-- ===== src/Lib.antt =====
-- Synch keeps Obsidian vaults in sync through a server that stores encrypted entries and blobs. This
-- library models two parts of it. The sync coordinator (apps/api/src/sync-coordinator) is the part of
-- the API that owns a vault's data: one object per vault, with a SQLite database, an object store for
-- the blobs' contents, sockets to the clients, and one alarm. The sync engine of the clients
-- (packages/sync-client/src/sync) keeps a record for every entry, plans what it pulls, merges texts, and
-- takes in what the server acknowledges.
--
-- The parts of the coordinator, from the inside out. Paths without a root are below
-- apps/api/src/sync-coordinator.
--   * Domain: the policies of domain/*.ts, pure functions on facts (BlobPolicy, BlobGcPolicy,
--     EntryPolicy, HealthPolicy, SocketPolicy). `null` is `none`, times and sizes are natural numbers, a
--     difference of times that is compared with a bound is written as a sum.
--   * Storage: the tables of apps/api/src/db/do/index.ts as lists of rows in one record `Database`,
--     and the statements of adapters/outbound/sqlite/*.ts as functions on it (Rows, Table, State, Entries,
--     Versions, Blobs, References, GcQueries, Connections). Table has UPDATE, DELETE and INSERT … ON
--     CONFLICT over any table. Storage.Invariant says what a database is to satisfy between transactions.
--   * Mutation: `commitMutations` and `commitMutation` of application/services/mutation-service.ts. The
--     loop's variables are the record `BatchState`; `crypto.randomUUID` is a function of the number of
--     calls so far. A transaction that throws is `err`, and its caller keeps the database it had.
--   * Protocol: the schema of commit messages in adapters/inbound/websocket/protocol.ts.
--   * Blob: blob-record-operations.ts (Records), blob-service.ts (Service) and blob-gc-service.ts (Gc)
--     of application/services. Calls of the scheduler, the sockets and the object store are listed as
--     values of `Call`; the object store itself is a function that says which keys it fails to delete.
--   * Entry: `listEntryStates`, `listDeletedEntries`, `listEntryVersions` (Listing), the restores
--     (Restore) and the purge (Purge) of application/services/entry-service.ts.
--   * Health: what adapters/outbound/sqlite/health-store.ts tells the policy (Storage.Health), and the status
--     and the next time of `flushSummary` in application/services/health-service.ts.
--   * Maintenance: adapters/outbound/scheduler/maintenance-scheduler.ts, with any handlers.
--   * Vault: the pause, the policy and the repair of application/services/vault-service.ts.
--   * Access: application/services/sync-access-service.ts with its store, at one reading of the clock for
--     each call.
--   * Common: lists, tests, results and texts that the parts share.
--
-- The parts of the client, with paths below packages/sync-client/src/sync.
--   * Client.TextMerge: `mergeText3` of engine/text-merge.ts with its diff. A text is its sequence of code
--     points; a loop over lines is recursion on the lines that are left, with the source's indexes.
--   * Client.EntryRecord: the record of an entry in store/entry-record.ts and what becomes of it, as in
--     `toDirtyEntryRecord`, its rows (Rows, types of store/store.ts), and the acknowledgement of a push
--     (Accepted). Encryption and decryption are functions, decryption may fail.
--   * Client.ConflictFile: the names of conflict copies in core/conflict-file.ts, at a formatted time.
--   * Client.PullPlanner: `PullManifestPlanner` of engine/pull-manifest-planner.ts: the check of the
--     manifest, its sorting into what is valid, skipped and superseded (Sorting), the deferral of items
--     whose path another entry owns (Deferral), the plans (Planning). The local store, the files of the
--     vault and the policies of paths are functions, read as they are when the planning begins; a
--     throw is `none`, the events of rollbacks are a list.
--   * Client.BytesInFlight: `BytesInFlightBudget` of core/bytes-in-flight.ts. A promise that waits is the
--     number of its request, an operation returns those that it settles; a throw is `none`.
--   * Client.AdaptiveConcurrency: remote/adaptive-concurrency-policy.ts, with rates as fractions that are
--     compared exactly and durations in whole milliseconds.
--   * Client.AutoSync: engine/auto-sync-work-queue.ts and engine/auto-sync-state.ts.
-- The modules named after what they prove (Requests, Accounting, Steps, Limit, ThreeWay, Conflicts, Patch,
-- Least, Lines, Symmetric, Pushed, Pending, Results, Safe, Rounds, Outcome, Invariant, Cursor, Retry, Single,
-- Reclaim, Staging, Consistency, Deletion, Collection, Collectability, Pages, Restored, Purged, Gone, Armed,
-- Drained, Keys, Settled, Bounds, Repaired, Denied, Status, Unchanged) hold the theorems; Tests and Examples run the
-- model and the theorems at small vaults.
--
-- How they interact: the services run the stores' statements inside transactions and ask the policies
-- for decisions; the mutation service marks blobs live and retires those that no entry needs; the
-- collection and the repair delete records of blobs that nothing pins; restores commit mutations; the
-- purge hands its blobs to the collection; the scheduler calls the collection and the health flush. In the
-- client, the planner reads the pending mutations of the records to adopt local entries, and takes
-- the names of conflict copies for collisions of paths.
--
-- Bounds: loops are recursion on lists, but for those that are bounded by a number. The drain of jobs
-- runs at most 16 rounds, as in the source. A client that follows page cursors (`follow_pages`) is given a
-- number of requests, and the number of entries in its range and one are enough. The rounds of deferral
-- are one more than there are items, which is proved to be enough. The search for the name of a conflict
-- copy is given a number of attempts; without a free name among them there is no plan. Numbers are
-- unbounded: JavaScript's are exact up to 2^53, which no size or time here reaches.
--
-- Not modelled: the texts of error messages, the fields of a session that only presence and storage status
-- use, row ids and indexes, the errors of SQLite itself, and what happens between the two halves of an
-- operation that waits for the object store (`deleteBlob` and `runGc` are modelled without other
-- operations in between, and no pause is set between two entries of a purge). A budget of bytes
-- whose callers release or resize other than what they hold is followed only up to the point where a count
-- would fall below zero. Of the coordinator, the writing of the health summary, the broadcast of the storage
-- status, presence, and the WebSocket, HTTP and RPC adapters are not modelled; nor is the rest of
-- the API (auth, billing, sharing, vaults, blob transfer). Of the client, the events that the planner
-- reports before it throws, cached blobs, the writing of conflict copies, and the services that run the
-- plans (pull application, push, the scan of local files, auto sync, transfers) are not modelled; nor are
-- the plugin and the command line.
pub mod Common
pub mod Domain
pub mod Storage
pub mod Mutation
pub mod Protocol
pub mod Blob
pub mod Entry
pub mod Maintenance
pub mod Vault
pub mod Health
pub mod Access
pub mod Client
