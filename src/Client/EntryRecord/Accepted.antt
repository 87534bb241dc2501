-- ===== src/Client/EntryRecord/Accepted.antt =====
-- Applying a push that the server has accepted, `planAcceptedPushApply` and `applyAcceptedPushToEntry` of
-- packages/sync-client/src/sync/store/entry-record.ts. The encryption of metadata is a parameter; a
-- decryption that throws is `none`.
pub mod Acknowledged
pub mod Pushed
use synch.Common.{
  ℕ, ◌+◌, ◌≡◌, String, Bool, true, false, ◌&&◌, ◌||◌, not, Option, none, some, ◌==◌, ltb,
  if◌then◌else◌,
}
use synch.Client.EntryRecord.{
  EntryRecord, PendingMutationRow, PendingMutationOp, upsert, delete, to_pending_mutation_row,
  normalize_pending_mutation, to_dirty_entry_record, clear_pending_mutation, copy_remote_to_base,
}

pub record SyncedEntryMetadata : Type 0 where
  pub path : String
  pub hash : Option String

pub record SyncMetadataCryptoContext : Type 0 where
  pub entry_id : String
  pub revision : ℕ
  pub op : PendingMutationOp
  pub blob_id : Option String

pub record AcceptedPushMutationRow : Type 0 where
  pub mutation : PendingMutationRow
  pub metadata : SyncedEntryMetadata
  pub accepted_revision : ℕ
  pub remote_blob_id : Option String
  pub local_hash : Option String
  pub accepted_at : ℕ

pub record Rebase : Type 0 where
  pub pending_mutation_id : String
  pub encrypted_metadata : String

pub record AcceptedPushApplyPlan : Type 0 where
  pub rebase : Option Rebase

-- An entry, or the word to plan again.
pub data Applied : Type 0 where
  entry : EntryRecord → Applied
  retry : Applied

unfoldable pub metadata_context_from_mutation : PendingMutationRow → SyncMetadataCryptoContext
metadata_context_from_mutation m = record {
  entry_id = m.entry_id;
  revision = m.base_revision + 1;
  op = m.op;
  blob_id = m.blob_id;
}

-- The known remote state is newer than the acknowledgement.
pub is_overtaken : EntryRecord → AcceptedPushMutationRow → Bool
is_overtaken row accepted = row.remote_known && ltb accepted.accepted_revision row.remote_revision

-- The pending mutation on top of the accepted one.
pub on_accepted : AcceptedPushMutationRow → PendingMutationRow → PendingMutationRow
on_accepted accepted m = record m {
  base_revision = accepted.accepted_revision;
  base_blob_id = accepted.remote_blob_id;
  base_hash = accepted.local_hash;
}

module _ (decrypt : String → SyncMetadataCryptoContext → Option SyncedEntryMetadata)
    (encrypt : SyncedEntryMetadata → SyncMetadataCryptoContext → String) where
  pub re_encrypt :
      AcceptedPushMutationRow
      → PendingMutationRow
      → Option SyncedEntryMetadata
      → Option AcceptedPushApplyPlan
  unfolding on_accepted metadata_context_from_mutation
  re_encrypt accepted m none = none
  re_encrypt accepted m (some metadata) = some (record {
    rebase = some (record {
      pending_mutation_id = m.mutation_id;
      encrypted_metadata =
          encrypt metadata (metadata_context_from_mutation (on_accepted accepted m));
    });
  })

  pub plan_pending :
      AcceptedPushMutationRow → Option PendingMutationRow → Option AcceptedPushApplyPlan
  unfolding re_encrypt metadata_context_from_mutation
  plan_pending accepted none = some (record { rebase = none })
  plan_pending accepted (some m) =
      if m.mutation_id == accepted.mutation.mutation_id
      then some (record { rebase = none })
      else re_encrypt accepted m (decrypt m.encrypted_metadata (metadata_context_from_mutation m))

  unfoldable pub plan_accepted_push_apply :
      EntryRecord → AcceptedPushMutationRow → Option AcceptedPushApplyPlan
  unfolding is_overtaken plan_pending
  plan_accepted_push_apply row accepted =
      if is_overtaken row accepted
      then some (record { rebase = none })
      else plan_pending accepted (to_pending_mutation_row row)

unfoldable pub is_upsert : PendingMutationOp → Bool
is_upsert upsert = true
is_upsert delete = false

pub same_text : Option String → Option String → Bool
same_text none none = true
same_text none (some b) = false
same_text (some a) none = false
same_text (some a) (some b) = a == b

pub should_apply_accepted_push_to_local : EntryRecord → AcceptedPushMutationRow → Bool
unfolding same_text
should_apply_accepted_push_to_local row accepted =
    not row.local_known
    || (same_text row.local_hash accepted.mutation.hash
        && same_text row.local_path (some accepted.metadata.path))

pub with_remote : EntryRecord → AcceptedPushMutationRow → EntryRecord
unfolding is_upsert
with_remote row accepted = record row {
  remote_known = true;
  remote_path = some accepted.metadata.path;
  remote_revision = accepted.accepted_revision;
  remote_blob_id = if is_upsert accepted.mutation.op then accepted.remote_blob_id else none;
  remote_hash = if is_upsert accepted.mutation.op then accepted.local_hash else none;
  remote_deleted = not (is_upsert accepted.mutation.op);
  remote_updated_at = accepted.accepted_at;
}

pub with_local : EntryRecord → AcceptedPushMutationRow → EntryRecord
with_local row accepted = record row {
  local_known = true;
  local_path = some accepted.metadata.path;
  local_blob_id = accepted.remote_blob_id;
  local_hash = accepted.local_hash;
  local_deleted = false;
  local_updated_at = accepted.accepted_at;
}

pub acknowledged : EntryRecord → AcceptedPushMutationRow → EntryRecord
unfolding with_remote with_local should_apply_accepted_push_to_local is_upsert
acknowledged row accepted =
    let updated = with_remote row accepted in
    if is_upsert accepted.mutation.op && should_apply_accepted_push_to_local updated accepted
    then with_local updated accepted
    else updated

-- `plan.rebase?.pendingMutationId !== currentPending.mutationId`
pub rebase_entry :
    EntryRecord → AcceptedPushMutationRow → PendingMutationRow → Option Rebase → Applied
unfolding on_accepted to_dirty_entry_record normalize_pending_mutation
rebase_entry updated accepted m none = retry
rebase_entry updated accepted m (some r) =
    if r.pending_mutation_id == m.mutation_id
    then entry (
        to_dirty_entry_record updated (
          normalize_pending_mutation
            (record (on_accepted accepted m) { encrypted_metadata = r.encrypted_metadata })))
    else retry

pub settle_pending :
    EntryRecord
    → AcceptedPushMutationRow
    → AcceptedPushApplyPlan
    → Option PendingMutationRow
    → Applied
unfolding rebase_entry copy_remote_to_base clear_pending_mutation
settle_pending updated accepted plan none = entry (copy_remote_to_base updated)
settle_pending updated accepted plan (some m) =
    if m.mutation_id == accepted.mutation.mutation_id
    then entry (copy_remote_to_base (clear_pending_mutation updated))
    else rebase_entry updated accepted m plan.rebase

unfoldable pub apply_accepted_push_to_entry :
    EntryRecord → AcceptedPushMutationRow → AcceptedPushApplyPlan → Applied
unfolding is_overtaken acknowledged settle_pending
apply_accepted_push_to_entry row accepted plan =
    if is_overtaken row accepted
    then entry row
    else let updated = acknowledged row accepted in
      settle_pending updated accepted plan (to_pending_mutation_row updated)
