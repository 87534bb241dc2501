-- ===== src/Entry/Examples.antt =====
-- The theorems on entries at small vaults.
use synch.Common.{
  ◌≡◌, ◌≢◌, refl, true, false, none, some, List, [], ◌∷◌, arith, select, find?, any, inl, trim,
  Result, false≢true, sym, ap, ◌∙◌,
}
use synch.Domain.EntryPolicy.{
  is_text, upsert, before_delete, is_current_revision, is_restore_payload_compatible,
  decide_deleted_entry_purge,
}
use synch.Storage.Rows.{Database, EntryRow, EntryVersionRow}
use synch.Storage.Entries.{read_entry, order_by, count_entry_states}
use synch.Storage.Versions.{read_entry_version, has_restorable_history}
use synch.Storage.State.{read_sync_pause}
use synch.Mutation.Tests.{vault, vault_state, note, session, environment, run_single}
use synch.Mutation.Examples.{vault-IsConsistent}
use synch.Entry.Listing.{ListEntryStates, to_entry_state}
use synch.Entry.Restore.{Restore, EntryVersionRestored, check_restore, restore_entry_version}
use synch.Entry.Purge.{PurgeRequest, purge_deleted_entries, purge_loop, purge_one, purge_decision}
use synch.Entry.Gone.{HasNoHistory, purge_deleted_entries-HasNoHistory}
use synch.Entry.Pages.{follow_pages, list_states-follow_pages}
use synch.Entry.Restored.{HasRestored, restore_entry_version-HasRestored}
use synch.Entry.Purged.{retained_versions, purge_deleted_entries-retained}

abbrev request : ListEntryStates
request = record {
  since_cursor = 0;
  target_cursor = none;
  after = none;
  limit = 1;
  entry_ids = none;
}

list_states-follow_pages_example :
    follow_pages 2 request vault ≡ some (to_entry_state vault note ∷ [])
unfolding order_by select count_entry_states
list_states-follow_pages_example =
    list_states-follow_pages request vault vault_state 2 vault-IsConsistent refl refl (omega arith)
      (omega arith) (omega arith) (omega arith)

-- A version of the note from before its current content.
abbrev old_version : EntryVersionRow
old_version = record {
  version_id = "v9";
  entry_id = "note";
  source_revision = 0;
  op_type = upsert;
  blob_id = some "b2";
  encrypted_metadata = "m0";
  reason = before_delete;
  bucket_start_ms = none;
  captured_at = 20;
  expires_at = 5000;
  created_by_user_id = "ann";
  created_by_local_vault_id = "laptop";
}

abbrev vault_with_history : Database
vault_with_history = record vault { versions = old_version ∷ [] }

abbrev restore : Restore
restore = record {
  entry_id = "note";
  version_id = "v9";
  base_revision = 1;
  op = upsert;
  blob_id = some "b2";
  encrypted_metadata = "m5";
}

unfoldable run_restore : Result EntryVersionRestored × Database
unfolding run_single restore_entry_version check_restore read_entry_version is_current_revision
    is_restore_payload_compatible
run_restore = restore_entry_version environment session "w7" restore 100 vault_with_history

abbrev reply : EntryVersionRestored
reply = record { restored_from_revision = 0; cursor = 8; revision = 2; broadcast_cursor = some 8 }

not_taken :
    (e : EntryRow)
    → read_entry "note" vault_with_history ≡ some e
    → e.last_mutation_id ≢ some (trim "w7")
unfolding run_single
not_taken e h q =
    let same : note ≡ e = ground arith in
    false≢true (sym (ap (λ o. is_text o "w1") (ap (λ (x : EntryRow). x.last_mutation_id) same ∙ q)))

restore_entry_version-HasRestored_example :
    HasRestored restore 100 reply vault_with_history run_restore.1
unfolding run_restore
restore_entry_version-HasRestored_example =
    restore_entry_version-HasRestored environment session "w7" restore 100 vault_with_history
      run_restore.1 reply not_taken refl

abbrev purge : List PurgeRequest
purge = record { entry_id = "note"; revision = 1 } ∷ []

-- The note is not deleted: its history survives a purge that names it.
purge_deleted_entries-retained_example :
    retained_versions "note" 100
      (purge_deleted_entries true (λ k. false) purge 100 100 vault_with_history).db
    ≡ old_version ∷ []
unfolding select read_entry find?
purge_deleted_entries-retained_example =
    purge_deleted_entries-retained true (λ k. false) purge 100 100 vault_with_history "note" note
      refl refl

-- The note was deleted, and its old version can still be restored.
abbrev vault_with_deleted : Database
vault_with_deleted = record vault_with_history {
  entries = record note { deleted = true; blob_id = none } ∷ [];
}

purge_deleted_entries-HasNoHistory_example :
    HasNoHistory "note"
      (purge_deleted_entries false (λ k. false) purge 100 100 vault_with_deleted).db
unfolding purge_deleted_entries purge_loop purge_one purge_decision read_entry find? any
    decide_deleted_entry_purge has_restorable_history read_sync_pause
purge_deleted_entries-HasNoHistory_example =
    purge_deleted_entries-HasNoHistory false (λ k. false) purge 100 100 vault_with_deleted "note"
      (inl refl)
