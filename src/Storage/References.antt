-- ===== src/Storage/References.antt =====
-- adapters/outbound/sqlite/blob-reference-facts.ts: what pins a blob.
use synch.Common.{ℕ, String, Bool, ◌&&◌, any, ltb}
use synch.Domain.EntryPolicy.{is_text}
use synch.Domain.BlobGcPolicy.{BlobReferenceFacts}
use synch.Storage.Rows.{Database, EntryRow, EntryVersionRow}

abbrev pub entry_refers : String → EntryRow → Bool
entry_refers blob_id e = is_text e.blob_id blob_id

abbrev pub version_retains : String → ℕ → EntryVersionRow → Bool
version_retains blob_id now v = is_text v.blob_id blob_id && ltb now v.expires_at

unfoldable pub has_current_reference : String → Database → Bool
has_current_reference blob_id db = any (entry_refers blob_id) db.entries

unfoldable pub has_retained_history : String → ℕ → Database → Bool
has_retained_history blob_id now db = any (version_retains blob_id now) db.versions

unfoldable pub read_blob_reference_facts : String → ℕ → Database → BlobReferenceFacts
unfolding has_current_reference has_retained_history
read_blob_reference_facts blob_id now db = record {
  has_current_reference = has_current_reference blob_id db;
  has_retained_history = has_retained_history blob_id now db;
}
