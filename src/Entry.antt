-- ===== src/Entry.antt =====
-- application/services/entry-service.ts: listing entries and their history, restoring versions and
-- purging deleted entries.
pub mod Listing
pub mod Restore
pub mod Purge
pub mod Restored
pub mod Purged
pub mod Gone
pub mod Pages
pub mod Examples
