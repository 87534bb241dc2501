-- ===== src/Domain.antt =====
-- The coordinator's pure policies (apps/api/src/sync-coordinator/domain).
pub mod BlobPolicy
pub mod BlobGcPolicy
pub mod EntryPolicy
pub mod HealthPolicy
pub mod SocketPolicy
