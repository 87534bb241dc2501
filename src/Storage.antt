-- ===== src/Storage.antt =====
-- The coordinator's SQLite tables (apps/api/src/db/do/index.ts) and the stores over them
-- (apps/api/src/sync-coordinator/adapters/outbound/sqlite). A table is the list of its rows; a
-- store's method is a function on the whole database, so that a transaction is a function into
-- `Result`: on an error the database that it was given is what remains.
pub mod Table
pub mod Rows
pub mod State
pub mod Blobs
pub mod Entries
pub mod Versions
pub mod References
pub mod GcQueries
pub mod Connections
pub mod Health
pub mod Invariant
