-- ===== src/Client/EntryRecord/Rows.antt =====
-- The rows that are read from an entry record, packages/sync-client/src/sync/store/entry-record.ts and
-- store.ts.
use synch.Common.{ℕ, String, Bool, not, ◌&&◌, Option, none, some, if◌then◌else◌}
use synch.Client.EntryRecord.{EntryRecord, PendingMutationRow, to_pending_mutation_row}

pub record RemoteSyncEntryRow : Type 0 where
  pub entry_id : String
  pub path : Option String
  pub revision : ℕ
  pub blob_id : Option String
  pub hash : Option String
  pub deleted : Bool
  pub updated_at : ℕ

pub record LocalSyncEntryRow : Type 0 where
  pub entry_id : String
  pub path : Option String
  pub blob_id : Option String
  pub hash : Option String
  pub deleted : Bool
  pub updated_at : ℕ
  pub local_mtime : Option ℕ
  pub local_size : Option ℕ

pub record SyncEntryRow : Type 0 where
  pub entry_id : String
  pub path : Option String
  pub revision : ℕ
  pub blob_id : Option String
  pub hash : Option String
  pub deleted : Bool
  pub updated_at : ℕ
  pub local_mtime : Option ℕ
  pub local_size : Option ℕ

pub record BaseSyncEntryRow : Type 0 where
  pub entry_id : String
  pub path : Option String
  pub revision : ℕ
  pub blob_id : Option String
  pub hash : Option String
  pub deleted : Bool

pub record SyncEntryStateRow : Type 0 where
  pub entry_id : String
  pub remote : Option RemoteSyncEntryRow
  pub base : BaseSyncEntryRow
  pub local : Option LocalSyncEntryRow
  pub dirty : Option PendingMutationRow

unfoldable pub to_remote_entry_row : EntryRecord → RemoteSyncEntryRow
to_remote_entry_row row = record {
  entry_id = row.entry_id;
  path = row.remote_path;
  revision = row.remote_revision;
  blob_id = row.remote_blob_id;
  hash = row.remote_hash;
  deleted = row.remote_deleted;
  updated_at = row.remote_updated_at;
}

unfoldable pub to_local_entry_row : EntryRecord → LocalSyncEntryRow
to_local_entry_row row = record {
  entry_id = row.entry_id;
  path = row.local_path;
  blob_id = row.local_blob_id;
  hash = row.local_hash;
  deleted = row.local_deleted;
  updated_at = row.local_updated_at;
  local_mtime = row.local_mtime;
  local_size = row.local_size;
}

unfoldable pub to_combined_entry_row : EntryRecord → Option SyncEntryRow
to_combined_entry_row row =
    if not row.remote_known && not row.local_known
    then none
    else some (record {
      entry_id = row.entry_id;
      path = if row.local_known then row.local_path else row.remote_path;
      revision = if row.remote_known then row.remote_revision else 0;
      blob_id = if row.local_known then row.local_blob_id else row.remote_blob_id;
      hash = if row.local_known then row.local_hash else row.remote_hash;
      deleted = if row.local_known then row.local_deleted else row.remote_deleted;
      updated_at = if row.local_known then row.local_updated_at else row.remote_updated_at;
      local_mtime = if row.local_known then row.local_mtime else none;
      local_size = if row.local_known then row.local_size else none;
    })

unfoldable pub to_entry_state_row : EntryRecord → SyncEntryStateRow
unfolding to_remote_entry_row to_local_entry_row
to_entry_state_row row = record {
  entry_id = row.entry_id;
  remote = if row.remote_known then some (to_remote_entry_row row) else none;
  base = record {
    entry_id = row.entry_id;
    path = row.base_path;
    revision = row.base_revision;
    blob_id = row.base_blob_id;
    hash = row.base_hash;
    deleted = row.base_deleted;
  };
  local = if row.local_known then some (to_local_entry_row row) else none;
  dirty = to_pending_mutation_row row;
}
