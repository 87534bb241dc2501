-- ===== src/Client/EntryRecord/Accepted/Pushed.antt =====
-- What an accepted push leaves in the record of its entry.
use synch.Common.{◌≤◌, ◌<◌, ◌≡◌, ◌≢◌, String, true, Option, none, some}
use synch.Client.EntryRecord.{EntryRecord, PendingMutationRow, to_pending_mutation_row}
use synch.Client.EntryRecord.Accepted.{
  SyncedEntryMetadata, SyncMetadataCryptoContext, AcceptedPushMutationRow, Rebase, Applied, entry,
  metadata_context_from_mutation, on_accepted,
}
use synch.Client.EntryRecord.Pending.{ReadsBack}
use synch.Client.EntryRecord.Accepted.Acknowledged.{HasAccepted}

-- The accepted state is no older than what the record knew of the server.
abbrev IsNews : EntryRecord → AcceptedPushMutationRow → Type 0
IsNews row accepted = row.remote_known ≡ true → row.remote_revision ≤ accepted.accepted_revision

-- The base of later changes is the accepted revision.
abbrev StartsAt : AcceptedPushMutationRow → EntryRecord → Type 0
StartsAt accepted e = e.base_revision ≡ accepted.accepted_revision

module _ (decrypt : String → SyncMetadataCryptoContext → Option SyncedEntryMetadata)
    (encrypt : SyncedEntryMetadata → SyncMetadataCryptoContext → String) where
  -- The pending mutation moved onto the accepted revision, its metadata encrypted for it.
  pub rebased_mutation :
      AcceptedPushMutationRow → PendingMutationRow → SyncedEntryMetadata → PendingMutationRow
  unfolding on_accepted metadata_context_from_mutation
  rebased_mutation accepted m metadata = record (on_accepted accepted m) {
    encrypted_metadata = encrypt metadata (metadata_context_from_mutation (on_accepted accepted m));
  }

  -- What an accepted push makes of a record.
  pub data Pushed (row : EntryRecord) (accepted : AcceptedPushMutationRow) (e : EntryRecord)
      : Type 0 where
    overtaken :
        row.remote_known ≡ true
        → accepted.accepted_revision < row.remote_revision
        → e ≡ row
        → Pushed row accepted e
    settled :
        IsNews row accepted
        → HasAccepted accepted e
        → StartsAt accepted e
        → to_pending_mutation_row e ≡ none
        → Pushed row accepted e
    rebased :
        (m : PendingMutationRow) (metadata : SyncedEntryMetadata)
        → to_pending_mutation_row row ≡ some m
        → m.mutation_id ≢ accepted.mutation.mutation_id
        → decrypt m.encrypted_metadata (metadata_context_from_mutation m) ≡ some metadata
        → IsNews row accepted
        → HasAccepted accepted e
        → StartsAt accepted e
        → ReadsBack (rebased_mutation accepted m metadata) e
        → Pushed row accepted e

  abbrev rebase_of : AcceptedPushMutationRow → PendingMutationRow → SyncedEntryMetadata → Rebase
  rebase_of accepted m metadata = record {
    pending_mutation_id = m.mutation_id;
    encrypted_metadata = encrypt metadata (metadata_context_from_mutation (on_accepted accepted m));
  }

  -- The result for a plan that was made for the record.
  pub record IsPushed (row : EntryRecord) (accepted : AcceptedPushMutationRow) (result : Applied)
      : Type 0 where
    pub updated : EntryRecord
    pub is_entry : result ≡ entry updated
    pub pushed : Pushed row accepted updated
