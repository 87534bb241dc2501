-- ===== src/Blob/Deletion.antt =====
-- The deletion of a blob by a client, `deleteBlob` of blob-service.ts: what is pinned stays.
