-- ===== src/Blob.antt =====
-- The life of blobs: upload, retirement and collection
-- (apps/api/src/sync-coordinator/application/services/blob-*.ts).
pub mod Records
pub mod Service
pub mod Gc
pub mod Collectability
pub mod Consistency
pub mod Deletion
pub mod Collection
pub mod Reclaim
pub mod Staging
pub mod Examples
