-- ===== src/Blob/Collectability.antt =====
-- The SQL condition of adapters/outbound/sqlite/blob-collectability.ts against the policy of
-- domain/blob-gc-policy.ts, which decides the same question in TypeScript.
use synch.Common.{ℕ, ◌≡◌, arith}
use synch.Domain.BlobGcPolicy.{decide_blob_collection}
use synch.Storage.Rows.{Database, BlobRow}
use synch.Storage.References.{read_blob_reference_facts}
use synch.Storage.Blobs.{collectible_blob, blob_unreferenced}
use synch.Storage.GcQueries.{to_candidate}
use synch.Blob.Gc.{is_collectible}

-- A row meets the SQL condition exactly when the policy, asked with the row's state, its deadline and the
-- references that the database holds for it, says that it may be collected.
pub collectible_blob-policy :
    (db : Database) (now : ℕ) (r : BlobRow)
    → is_collectible now (to_candidate now db r) ≡ collectible_blob db now r
unfolding is_collectible collectible_blob blob_unreferenced decide_blob_collection
    read_blob_reference_facts
collectible_blob-policy db now r = ground arith
