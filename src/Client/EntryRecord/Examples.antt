-- ===== src/Client/EntryRecord/Examples.antt =====
-- The theorems on entry records at small records.
use synch.Common.{refl, String, Option, none, some, String}
use synch.Client.EntryRecord.{
  EntryRecord, PendingMutationRow, create_empty_entry_record, upsert, blocked,
  normalize_pending_mutation, to_dirty_entry_record,
}
use synch.Client.EntryRecord.Accepted.{
  SyncedEntryMetadata, SyncMetadataCryptoContext, AcceptedPushMutationRow, AcceptedPushApplyPlan,
}
use synch.Client.EntryRecord.Pending.{ReadsBack, to_dirty_entry_record-ReadsBack}

abbrev edit : String → PendingMutationRow
edit id = record {
  mutation_id = id;
  entry_id = "note";
  op = upsert;
  status = some blocked;
  blocked_reason = none;
  blocked_encrypted_size_bytes = some 90;
  blocked_max_file_size_bytes = some 50;
  base_revision = 2;
  base_blob_id = some "blob";
  base_hash = some "old";
  blob_id = some "new_blob";
  hash = some "new";
  encrypted_metadata = "sealed";
  created_at = 7;
}

to_dirty_entry_record-ReadsBack_example : ReadsBack (edit "first") (
    to_dirty_entry_record
      (create_empty_entry_record "note")
      (normalize_pending_mutation (edit "first")))
unfolding create_empty_entry_record
to_dirty_entry_record-ReadsBack_example =
    to_dirty_entry_record-ReadsBack (create_empty_entry_record "note") (edit "first") refl refl

abbrev metadata : SyncedEntryMetadata
metadata = record { path = "note.md"; hash = some "new" }

abbrev accepted : AcceptedPushMutationRow
accepted = record {
  mutation = edit "first";
  metadata = metadata;
  accepted_revision = 3;
  remote_blob_id = some "new_blob";
  local_hash = some "new";
  accepted_at = 9;
}

-- The note was edited again while its first edit was on the way.
abbrev edited_again : EntryRecord
unfolding create_empty_entry_record to_dirty_entry_record normalize_pending_mutation
edited_again =
    to_dirty_entry_record (create_empty_entry_record "note")
      (normalize_pending_mutation (edit "second"))

abbrev decrypt : String → SyncMetadataCryptoContext → Option SyncedEntryMetadata
decrypt sealed context = some metadata

abbrev encrypt : SyncedEntryMetadata → SyncMetadataCryptoContext → String
encrypt open_metadata context = "sealed again"

abbrev plan : AcceptedPushApplyPlan
plan = record {
  rebase = some (record { pending_mutation_id = "second"; encrypted_metadata = "sealed again" });
}
