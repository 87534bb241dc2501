-- ===== src/Blob/Service.antt =====
-- application/services/blob-service.ts: staging an upload, the compensation of a failed one, and the
-- deletion of a blob by a client. Calls of other parts are listed as `Call`s, in their order.
use synch.Common.{
  ℕ, ◌+◌, String, ◌==◌, Bool, true, false, not, ◌&&◌, Option, none, some, List, [], ◌∷◌, Error,
  Result, ok, err, vault_mismatch, invalid_token, ◌>>=◌, ◌>>◌, guard, if◌then◌else◌, is_some, max,
}
use synch.Common
use synch.Domain.BlobPolicy.{
  staged, same_state, BlobStageDecision, sync_paused, rejected, stage, StageRejection,
  file_too_large, blob_already_live, blob_size_changed, quota_exceeded,
}
use synch.Domain.BlobGcPolicy.{is_blob_pinned}
use synch.Storage.Rows.{Database, BlobRow}
use synch.Storage.State.{read_sync_pause, read_vault_id}
use synch.Storage.References.{read_blob_reference_facts}
use synch.Storage.Blobs.{read_blob, delete_blob_record}
use synch.Blob.Records.{stage_blob_record, account_for_deleted_blobs}

pub data Call : Type 0 where
  schedule_gc_at : ℕ → ℕ → Call
  schedule_summary_flush : Call
  flush_health_summary_at : ℕ → Call
  notify_storage_status : Call
  close_all_sockets : ℕ → Call
  delete_object : String → Call

-- `LEGACY_PAUSE_QUOTA_COMPATIBILITY`, while sockets are kept open on a pause.
abbrev pub legacy_pause_quota_compatibility : Bool
legacy_pause_quota_compatibility = true

abbrev pub to_error : StageRejection → Error
to_error (file_too_large limit size) = Common.file_too_large limit size
to_error (blob_already_live size) = Common.blob_already_live
to_error (blob_size_changed previous size) = Common.blob_size_changed previous size
to_error (quota_exceeded limit size used) = Common.quota_exceeded limit size used

-- What follows the staging transaction: the error thrown, if any, and the calls made.
abbrev pub after_stage : ℕ → ℕ → BlobStageDecision → Option Error × List Call
after_stage now grace (rejected r) = (some (to_error r), [])
after_stage now grace (sync_paused reason) = (
  some Common.sync_paused,
  if legacy_pause_quota_compatibility then [] else close_all_sockets 1013 ∷ [],
)
after_stage now grace (stage delta) =
    (none, schedule_gc_at (now + grace) now ∷ notify_storage_status ∷ [])

-- The transaction is committed also where the service goes on to throw. The token's check is
-- the caller's argument.
pub record StageOutcome : Type 0 where
  pub db : Database
  pub error : Option Error
  pub calls : List Call

unfoldable pub stage_blob : Bool → String → ℕ → ℕ → ℕ → Database → StageOutcome
stage_blob token_ok blob_id size now grace db =
    if token_ok
    then elim (stage_blob_record blob_id size now (now + grace) db) [
      | err e ↦ record { db = db; error = some e; calls = [] }
      | ok r ↦ record {
        db = r.1;
        error = (after_stage now grace r.0).0;
        calls = (after_stage now grace r.0).1;
      }
    ]
    else record { db = db; error = some invalid_token; calls = [] }

abbrev pub abort_calls : ℕ → Option BlobRow → List Call
abort_calls now none = []
abort_calls now (some blob) = elim blob.delete_after [
  | none ↦ []
  | some at ↦ if same_state blob.state staged then schedule_gc_at (max now at) now ∷ [] else []
]

-- The compensation of a failed upload keeps the record, and only asks for a collection.
unfoldable pub abort_staged_blob : String → String → ℕ → Database → Result (List Call)
abort_staged_blob vault_id blob_id now db = elim (read_vault_id db) [
  | none ↦ err vault_mismatch
  | some v ↦
      if v == vault_id then ok (abort_calls now (read_blob blob_id db)) else err vault_mismatch
]

-- `deleteBlob` up to its wait for the object store: an error, nothing to do, or the object to delete
-- and whether there is a record to delete after it.
pub data DeletePlan : Type 0 where
  refused : Error → DeletePlan
  kept : DeletePlan
  delete_object_then : Bool → DeletePlan

unfoldable pub delete_blob_plan : Bool → String → ℕ → Database → DeletePlan
delete_blob_plan token_ok blob_id now db =
    if not token_ok
    then refused invalid_token
    else if is_some (read_sync_pause db)
    then refused Common.sync_paused
    else if is_some (read_blob blob_id db)
        && is_blob_pinned (read_blob_reference_facts blob_id now db)
    then kept
    else delete_object_then (is_some (read_blob blob_id db))

-- The transaction after the object is gone.
unfoldable pub delete_blob_finish : String → Database → Database
unfolding account_for_deleted_blobs
delete_blob_finish blob_id db =
    let gone = delete_blob_record blob_id none db in account_for_deleted_blobs gone.0 gone.1

-- `deleteBlob` with nothing happening while it waits.
unfoldable pub delete_blob : Bool → String → ℕ → Database → Database × List Call
delete_blob token_ok blob_id now db = elim (delete_blob_plan token_ok blob_id now db) [
  | refused e ↦ (db, [])
  | kept ↦ (db, [])
  | delete_object_then had_record ↦
      if had_record
      then (
        delete_blob_finish blob_id db,
        delete_object blob_id ∷ schedule_summary_flush ∷ notify_storage_status ∷ [],
      )
      else (db, delete_object blob_id ∷ [])
]
