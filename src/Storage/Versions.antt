-- ===== src/Storage/Versions.antt =====
-- adapters/outbound/sqlite/entry-version-store.ts: the sampled history of entries.
use synch.Common.{
  ℕ, String, ◌==◌, Bool, true, false, not, ◌&&◌, ◌||◌, Option, none, some, List, [], ◌∷◌, ◌++◌, leb,
  ltb, eqb, if◌then◌else◌, select, any, find?, take, distinct,
}
use synch.Domain.EntryPolicy.{
  EntryVersionCaptureReason, auto, before_delete, before_restore, manual,
}
use synch.Storage.Table.{delete_where}
use synch.Storage.Rows.{Database, EntryVersionRow}
use synch.Storage.Entries.{is_restorable, order_by, le_text}

pub record EntryVersionPageCursor : Type 0 where
  pub captured_at : ℕ
  pub version_id : String

abbrev pub before_version : Option EntryVersionPageCursor → EntryVersionRow → Bool
before_version none v = true
before_version (some c) v =
    ltb v.captured_at c.captured_at
    || (eqb v.captured_at c.captured_at && not (le_text c.version_id v.version_id))

-- ORDER BY captured_at DESC, version_id DESC
abbrev pub version_order : EntryVersionRow → EntryVersionRow → Bool
version_order a b =
    ltb b.captured_at a.captured_at
    || (eqb a.captured_at b.captured_at && le_text b.version_id a.version_id)

unfoldable pub list_entry_versions :
    String → Option EntryVersionPageCursor → ℕ → ℕ → Database → List EntryVersionRow
unfolding order_by
list_entry_versions entry_id before now limit db = take limit (
    order_by version_order (
      select (λ v. v.entry_id == entry_id && ltb now v.expires_at && before_version before v)
        db.versions))

unfoldable pub read_entry_version : String → String → ℕ → Database → Option EntryVersionRow
read_entry_version entry_id version_id now db =
    find? (λ v. v.entry_id == entry_id && v.version_id == version_id && ltb now v.expires_at)
      db.versions

abbrev pub same_reason : EntryVersionCaptureReason → EntryVersionCaptureReason → Bool
same_reason auto auto = true
same_reason before_delete before_delete = true
same_reason before_restore before_restore = true
same_reason manual manual = true
same_reason _ _ = false

-- Two NULLs do not collide in a unique index.
abbrev pub same_bucket : Option ℕ → Option ℕ → Bool
same_bucket (some a) (some b) = eqb a b
same_bucket _ _ = false

-- The primary key, or the unique index on entry, reason and bucket.
abbrev pub collides : EntryVersionRow → EntryVersionRow → Bool
collides new v =
    v.version_id == new.version_id
    || (v.entry_id == new.entry_id
        && same_reason v.reason new.reason
        && same_bucket v.bucket_start_ms new.bucket_start_ms)

-- INSERT … ON CONFLICT DO NOTHING
unfoldable pub insert_entry_version : EntryVersionRow → Database → Database
insert_entry_version new db = record db {
  versions = if any (collides new) db.versions then db.versions else db.versions ++ new ∷ [];
}

unfoldable pub has_restorable_history : String → ℕ → Database → Bool
has_restorable_history entry_id now db = any (is_restorable entry_id now) db.versions

abbrev pub blob_ids_of : String → List EntryVersionRow → List String
blob_ids_of entry_id [] = []
blob_ids_of entry_id (v ∷ vs) = elim v.blob_id [
  | none ↦ blob_ids_of entry_id vs
  | some b ↦ if v.entry_id == entry_id then b ∷ blob_ids_of entry_id vs else blob_ids_of entry_id vs
]

unfoldable pub list_blob_ids : String → Database → List String
unfolding distinct
list_blob_ids entry_id db = distinct [] (blob_ids_of entry_id db.versions)

unfoldable pub delete_entry_versions : String → Database → Database
delete_entry_versions entry_id db = record db {
  versions = delete_where (λ v. v.entry_id == entry_id) db.versions;
}

unfoldable pub expire_entry_versions : ℕ → Database → Database
expire_entry_versions now db = record db {
  versions = delete_where (λ v. leb v.expires_at now) db.versions;
}
