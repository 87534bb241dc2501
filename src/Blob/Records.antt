-- ===== src/Blob/Records.antt =====
-- application/services/blob-record-operations.ts: the operations on blob records that staging, repair
-- and collection share.
use synch.Common.{
  ℕ, String, ◌==◌, Bool, false, not, ◌||◌, Option, none, some, List, [], ◌∷◌, Result, ok, err,
  uninitialized, ◌>>=◌, if◌then◌else◌, ltb,
}
use synch.Domain.BlobPolicy.{
  staged, pending_delete, same_state, BlobStageDecision, sync_paused, rejected, stage,
  ExistingBlobForStage, decide_blob_stage,
}
use synch.Domain.BlobGcPolicy.{
  is_blob_pinned, decide_pending_delete, PendingDeleteDecision, mark_pending_delete, retain,
}
use synch.Domain.HealthPolicy.{staged_blob_stale_ms}
use synch.Storage.Rows.{Database, BlobRow, neg, pos}
use synch.Storage.State.{
  read_sync_pause, read_vault_id, read_vault_limits, read_storage_used_bytes,
  adjust_storage_used_bytes, pause_sync,
}
use synch.Storage.References.{read_blob_reference_facts}
use synch.Storage.Blobs.{
  read_blob, persist_stage, update_state, delete_blob_record, delete_collectible_blobs,
}
use synch.Storage.Invariant.Accounting.{total_size}

unfoldable pub account_for_deleted_blobs : List BlobRow → Database → Database
unfolding total_size
account_for_deleted_blobs deleted db =
    let bytes = total_size deleted in
    if ltb 0 bytes then adjust_storage_used_bytes (neg bytes) db else db

-- `!readVaultId()`: no vault, or one with an empty id.
abbrev pub is_initialized : Option String → Bool
is_initialized none = false
is_initialized (some v) = not (v == "")

abbrev pub to_existing : Option BlobRow → Option ExistingBlobForStage
to_existing none = none
to_existing (some r) =
    some (record { state = r.state; size_bytes = r.size_bytes; created_at = r.created_at })

unfoldable pub is_pinned_row : Option BlobRow → String → ℕ → Database → Bool
unfolding is_blob_pinned read_blob_reference_facts
is_pinned_row none blob_id now db = false
is_pinned_row (some r) blob_id now db = is_blob_pinned (read_blob_reference_facts blob_id now db)

-- The writes that follow a decision.
unfoldable pub stage_writes : String → ℕ → ℕ → ℕ → BlobStageDecision → Database → Database
stage_writes blob_id size now delete_after (sync_paused reason) db = pause_sync now reason db
stage_writes blob_id size now delete_after (rejected r) db = db
stage_writes blob_id size now delete_after (stage delta) db =
    let staged_db =
      persist_stage blob_id (record { size_bytes = size; now = now; delete_after = delete_after })
        db in
    if ltb 0 delta then adjust_storage_used_bytes (pos delta) staged_db else staged_db

unfoldable pub stage_decision : String → ℕ → ℕ → Database → Result BlobStageDecision
unfolding is_pinned_row
stage_decision blob_id size now db = do
  limits ← read_vault_limits db
  used ← read_storage_used_bytes db
  ok (
      decide_blob_stage (record {
        blob_id = blob_id;
        size_bytes = size;
        now = now;
        stale_after_ms = staged_blob_stale_ms;
        existing = to_existing (read_blob blob_id db);
        is_pinned = is_pinned_row (read_blob blob_id db) blob_id now db;
        storage_used_bytes = used;
        storage_limit_bytes = limits.storage_limit_bytes;
        max_file_size_bytes = limits.max_file_size_bytes;
      }))

unfoldable pub stage_blob_record :
    String → ℕ → ℕ → ℕ → Database → Result (BlobStageDecision × Database)
stage_blob_record blob_id size now delete_after db = elim (read_sync_pause db) [
  | some pause ↦ ok (sync_paused pause.reason, db)
  | none ↦
      if is_initialized (read_vault_id db)
      then (do
        decision ← stage_decision blob_id size now db
        ok (decision, stage_writes blob_id size now delete_after decision db))
      else err uninitialized
]

pub data StagedDeletion : Type 0 where
  missing referenced deleted : StagedDeletion

abbrev pub deletion_of : List BlobRow → StagedDeletion
deletion_of [] = missing
deletion_of (r ∷ rs) = deleted

unfoldable pub delete_unreferenced_staged_blob : String → ℕ → Database → StagedDeletion × Database
unfolding account_for_deleted_blobs
delete_unreferenced_staged_blob blob_id now db = elim (read_blob blob_id db) [
  | none ↦ (missing, db)
  | some blob ↦
      if not (same_state blob.state staged)
        || is_blob_pinned (read_blob_reference_facts blob_id now db)
      then (referenced, db)
      else let gone = delete_blob_record blob_id (some staged) db in
        (deletion_of gone.0, account_for_deleted_blobs gone.0 gone.1)
]

abbrev pub retire : String → PendingDeleteDecision → Database → Database
retire blob_id (mark_pending_delete at) db = update_state blob_id pending_delete (some at) db
retire blob_id (retain reason) db = db

unfoldable pub mark_unpinned_blob_pending_delete : String → ℕ → Database → Database
mark_unpinned_blob_pending_delete blob_id now db = elim (read_blob blob_id db) [
  | none ↦ db
  | some blob ↦
      retire blob_id
        (decide_pending_delete
          (record {
            state = blob.state;
            delete_after = blob.delete_after;
            refs = read_blob_reference_facts blob_id now db;
          })
          now)
        db
]

unfoldable pub delete_collectible_blob_records :
    List String → ℕ → Database → List BlobRow × Database
unfolding account_for_deleted_blobs
delete_collectible_blob_records blob_ids now db =
    let gone = delete_collectible_blobs blob_ids now db in
    (gone.0, account_for_deleted_blobs gone.0 gone.1)
