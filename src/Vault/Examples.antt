-- ===== src/Vault/Examples.antt =====
-- The theorems on repairs at a vault that is paused for a stale upload.
use synch.Common.{refl, false, some, arith, Result, find?, any, select}
use synch.Domain.BlobPolicy.{is_stale_staged_blob_pause_reason}
use synch.Storage.Table.{delete_where}
use synch.Storage.Rows.{Database}
use synch.Storage.State.{
  vault_state_exists_for, read_vault_id, read_sync_pause, clear_sync_pause,
  adjust_storage_used_bytes,
}
use synch.Storage.Entries.{order_by}
use synch.Storage.References.{
  read_blob_reference_facts, has_current_reference, has_retained_history,
}
use synch.Storage.Blobs.{read_blob, delete_blob_record, list_stale_staged_blobs}
use synch.Storage.Invariant.{IsConsistent}
use synch.Storage.Invariant.Accounting.{total_size}
use synch.Storage.Invariant.Backing.{state_in}
use synch.Domain.BlobGcPolicy.{is_blob_pinned}
use synch.Mutation.Tests.{vault, vault_state}
use synch.Mutation.Examples.{value}
use synch.Blob.Records.{delete_unreferenced_staged_blob, account_for_deleted_blobs}
use synch.Vault.{
  SyncRepairResult, empty_repair_result, stale_blobs, repair_loop, finish_repair, repair_known,
  repair_sync_state,
}
use synch.Vault.Repaired.{IsRepaired, repair_sync_state-IsConsistent, repair_sync_state-IsRepaired}

abbrev paused : Database
paused = record vault {
  state = some (record vault_state {
    sync_paused_at = some 90;
    sync_pause_reason = some "staged blob b2 remained staged for at least one hour";
  });
}

paused-IsConsistent : IsConsistent paused
unfolding total_size state_in
paused-IsConsistent = record {
  backed = (refl, tt);
  counted = refl;
  sequenced = record { up_to = (omega arith, tt); differ = (tt, tt) };
}

-- An hour and more after "b2" was staged.
unfoldable run_repair : Result (SyncRepairResult × Database)
unfolding vault_state_exists_for read_vault_id read_sync_pause clear_sync_pause
    adjust_storage_used_bytes order_by read_blob_reference_facts has_current_reference
    has_retained_history read_blob delete_blob_record list_stale_staged_blobs is_blob_pinned
    delete_unreferenced_staged_blob account_for_deleted_blobs stale_blobs repair_loop finish_repair
    repair_known repair_sync_state find? any select delete_where total_size
    is_stale_staged_blob_pause_reason
run_repair = repair_sync_state (λ k. false) "vault" 3700000 paused

abbrev nothing : SyncRepairResult × Database
nothing = (empty_repair_result, paused)

repair_sync_state-IsConsistent_example : IsConsistent (value nothing run_repair).1
unfolding run_repair
repair_sync_state-IsConsistent_example =
    repair_sync_state-IsConsistent (λ k. false) "vault" 3700000 paused (value nothing run_repair)
      paused-IsConsistent refl

repair_sync_state-IsRepaired_example : IsRepaired 3700000 (value nothing run_repair).1
unfolding run_repair
repair_sync_state-IsRepaired_example =
    repair_sync_state-IsRepaired (λ k. false) "vault" 3700000 paused (value nothing run_repair) refl
      refl refl
