-- ===== src/Storage/Blobs.antt =====
-- adapters/outbound/sqlite/blob-store.ts and blob-collectability.ts: the blobs' records.
use synch.Common.{
  ℕ, ◌+◌, String, ◌==◌, Bool, true, false, not, ◌&&◌, ◌||◌, Option, none, some, List, leb, ltb, eqb,
  select, find?, take, contains,
}
use synch.Domain.BlobPolicy.{BlobLifecycleState, staged, pending_delete, same_state}
use synch.Storage.Table.{update_where, delete_where, upsert_where}
use synch.Storage.Rows.{Database, BlobRow}
use synch.Storage.Entries.{order_by, le_text}
use synch.Storage.References.{has_current_reference, has_retained_history}

abbrev pub has_blob_id : String → BlobRow → Bool
has_blob_id blob_id r = r.blob_id == blob_id

unfoldable pub read_blob : String → Database → Option BlobRow
read_blob blob_id db = find? (has_blob_id blob_id) db.blobs

pub record StagePersist : Type 0 where
  pub size_bytes : ℕ
  pub now : ℕ
  pub delete_after : ℕ

abbrev pub staged_row : String → StagePersist → BlobRow
staged_row blob_id input = record {
  blob_id = blob_id;
  state = staged;
  size_bytes = input.size_bytes;
  created_at = input.now;
  last_uploaded_at = input.now;
  delete_after = some input.delete_after;
}

abbrev pub restaged : StagePersist → BlobRow → BlobRow
restaged input r = record r {
  state = staged;
  last_uploaded_at = input.now;
  delete_after = some input.delete_after;
}

unfoldable pub persist_stage : String → StagePersist → Database → Database
persist_stage blob_id input db = record db {
  blobs = upsert_where (has_blob_id blob_id) (staged_row blob_id input) (restaged input) db.blobs;
}

abbrev pub with_state : BlobLifecycleState → Option ℕ → BlobRow → BlobRow
with_state state delete_after r = record r { state = state; delete_after = delete_after }

unfoldable pub update_state : String → BlobLifecycleState → Option ℕ → Database → Database
update_state blob_id state delete_after db = record db {
  blobs = update_where (has_blob_id blob_id) (with_state state delete_after) db.blobs;
}

abbrev pub in_state : Option BlobLifecycleState → BlobRow → Bool
in_state none r = true
in_state (some s) r = same_state r.state s

-- DELETE … RETURNING: the rows that went, and the database without them.
abbrev pub delete_blobs : (BlobRow → Bool) → Database → List BlobRow × Database
delete_blobs p db = (select p db.blobs, record db { blobs = delete_where p db.blobs })

unfoldable pub delete_blob_record :
    String → Option BlobLifecycleState → Database → List BlobRow × Database
delete_blob_record blob_id expected =
    delete_blobs (λ r. has_blob_id blob_id r && in_state expected r)

-- `lte(deleteAfter, now)`, which is not true of NULL.
abbrev pub is_due : Option ℕ → ℕ → Bool
is_due none now = false
is_due (some d) now = leb d now

unfoldable pub blob_unreferenced : Database → ℕ → BlobRow → Bool
unfolding has_current_reference has_retained_history
blob_unreferenced db now r =
    not (has_current_reference r.blob_id db) && not (has_retained_history r.blob_id now db)

abbrev pub is_retired : BlobLifecycleState → Bool
is_retired s = same_state s staged || same_state s pending_delete

unfoldable pub collectible_blob : Database → ℕ → BlobRow → Bool
unfolding blob_unreferenced
collectible_blob db now r =
    is_retired r.state && is_due r.delete_after now && blob_unreferenced db now r

unfoldable pub collectible_pending_delete : Database → ℕ → BlobRow → Bool
unfolding blob_unreferenced
collectible_pending_delete db now r =
    same_state r.state pending_delete && is_due r.delete_after now && blob_unreferenced db now r

unfoldable pub delete_collectible_blobs : List String → ℕ → Database → List BlobRow × Database
delete_collectible_blobs blob_ids now db =
    delete_blobs (λ r. contains blob_ids r.blob_id && collectible_blob db now r) db

-- ORDER BY created_at ASC, blob_id ASC
abbrev pub age_order : BlobRow → BlobRow → Bool
age_order a b =
    ltb a.created_at b.created_at || (eqb a.created_at b.created_at && le_text a.blob_id b.blob_id)

-- The rows staged at `now - age` or before; the difference is over the integers.
abbrev pub is_stale : ℕ → ℕ → BlobRow → Bool
is_stale now age r = same_state r.state staged && leb (r.created_at + age) now

unfoldable pub list_stale_staged_blobs : ℕ → ℕ → ℕ → Database → List BlobRow
unfolding order_by
list_stale_staged_blobs now age limit db =
    take limit (order_by age_order (select (is_stale now age) db.blobs))
