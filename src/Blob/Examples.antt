-- ===== src/Blob/Examples.antt =====
-- The theorems on blobs at the small vault of the tests: "b1" is live, "b2" is staged and due at 2000.
use synch.Common.{◌≡◌, refl, String, Bool, true, false, some, [], ◌∷◌, arith, select, any, find?}
use synch.Domain.BlobPolicy.{decide_blob_stage, decide_new, is_stale_staged}
use synch.Storage.Table.{delete_where}
use synch.Storage.State.{read_sync_pause, read_vault_id, read_vault_limits, read_storage_used_bytes}
use synch.Storage.Blobs.{read_blob, collectible_blob}
use synch.Storage.GcQueries.{to_candidate}
use synch.Storage.Invariant.{IsConsistent}
use synch.Mutation.Tests.{vault, blob_1, blob_2}
use synch.Mutation.Examples.{vault-IsConsistent}
use synch.Storage.Invariant.Accounting.{total_size}
use synch.Storage.Invariant.Backing.{state_in}
use synch.Mutation.Tests.{run_single}
use synch.Mutation.Examples.{edited}
use synch.Blob.Records.{account_for_deleted_blobs}
use synch.Blob.Service.{delete_blob_plan, delete_blob_finish, delete_object_then}
use synch.Storage.Blobs.{delete_blob_record}
use synch.Storage.State.{adjust_storage_used_bytes}
use synch.Common.{map, none}
use synch.Storage.Rows.{Database}
use synch.Domain.BlobGcPolicy.{is_blob_pinned}
use synch.Storage.References.{
  read_blob_reference_facts, has_current_reference, has_retained_history,
}
use synch.Blob.Records.{is_pinned_row, stage_decision, stage_blob_record}
use synch.Blob.Service.{stage_blob}
use synch.Blob.Gc.{run_gc, is_collectible}
use synch.Blob.Collectability.{collectible_blob-policy}
use synch.Blob.Collection.{run_gc-IsConsistent}
use synch.Blob.Reclaim.{run_gc-blobs, run_gc-keeps}
use synch.Blob.Staging.{
  StateWithinQuota, IsRecordedUpload, stage_blob-IsConsistent, stage_blob-WithinQuota,
  stage_blob-recorded,
}

abbrev no_failure : String → Bool
no_failure key = false

collectible_blob-policy_example :
    is_collectible 3000 (to_candidate 3000 vault blob_2) ≡ collectible_blob vault 3000 blob_2
collectible_blob-policy_example = collectible_blob-policy vault 3000 blob_2

run_gc-blobs_example : (run_gc true no_failure 3000 vault).db.blobs ≡ blob_1 ∷ []
unfolding delete_where select collectible_blob any
run_gc-blobs_example = run_gc-blobs no_failure 3000 vault (omega arith)

run_gc-keeps_example : read_blob "b1" (run_gc true no_failure 3000 vault).db ≡ some blob_1
unfolding read_blob find? collectible_blob
run_gc-keeps_example = run_gc-keeps no_failure 3000 vault "b1" blob_1 refl refl

run_gc-IsConsistent_example : IsConsistent (run_gc true no_failure 3000 vault).db
run_gc-IsConsistent_example = run_gc-IsConsistent true no_failure 3000 vault vault-IsConsistent

stage_blob-IsConsistent_example : IsConsistent (stage_blob true "b3" 30 100 1800 vault).db
stage_blob-IsConsistent_example =
    stage_blob-IsConsistent true "b3" 30 100 1800 vault vault-IsConsistent

-- 120 of 1000 bytes are used: 880 more are let through.
stage_blob-WithinQuota_example : StateWithinQuota (stage_blob true "b3" 880 100 1800 vault).db.state
stage_blob-WithinQuota_example =
    stage_blob-WithinQuota true "b3" 880 100 1800 vault (λ p. omega arith)

stage_blob-recorded_example :
    IsRecordedUpload "b3" 30 100 1900 (stage_blob true "b3" 30 100 1800 vault).db
unfolding stage_blob stage_blob_record read_sync_pause read_vault_id stage_decision
    read_vault_limits read_storage_used_bytes is_pinned_row read_blob find? decide_blob_stage
    decide_new is_stale_staged
stage_blob-recorded_example = stage_blob-recorded true "b3" 30 100 1800 vault refl

-- `deleteBlob` waits for the object store between its check and the deletion of the record. A commit
-- that takes up the blob in between is not seen again: the entry then points at a blob without a
-- record, and the object is gone.
delete_plan : delete_blob_plan true "b2" 100 vault ≡ delete_object_then true
unfolding delete_blob_plan read_sync_pause read_blob find? is_blob_pinned read_blob_reference_facts
    has_current_reference has_retained_history any
delete_plan = refl

abbrev raced : Database
raced = delete_blob_finish "b2" edited

raced_entry : map (λ e. e.blob_id) raced.entries ≡ some "b2" ∷ []
unfolding run_single delete_blob_finish delete_blob_record account_for_deleted_blobs delete_where
    select total_size adjust_storage_used_bytes
raced_entry = refl

raced_blob : state_in "b2" raced.blobs ≡ none
unfolding run_single delete_blob_finish delete_blob_record account_for_deleted_blobs delete_where
    select total_size adjust_storage_used_bytes state_in
raced_blob = refl
