-- ===== src/Client.antt =====
-- The clients' sync engine, packages/sync-client.
pub mod AdaptiveConcurrency
pub mod AutoSync
pub mod BytesInFlight
pub mod ConflictFile
pub mod EntryRecord
pub mod PullPlanner
pub mod TextMerge
