-- ===== src/Client/EntryRecord.antt =====
-- The record that a client keeps of an entry, packages/sync-client/src/sync/store/entry-record.ts: what it
-- knows of the server's state, the base that local changes start from, the local state, and the mutation
-- that waits to be pushed. An absent property and `null` are both `none`.
pub mod Rows
pub mod Accepted
pub mod Examples
pub mod Pending
use synch.Common.{
  ℕ, ◌+◌, String, Bool, true, false, not, ◌&&◌, ◌||◌, Option, none, some, ◌==◌, if◌then◌else◌,
  is_some, or_else,
}

pub data PendingMutationOp : Type 0 where
  upsert : PendingMutationOp
  delete : PendingMutationOp

pub data PendingMutationStatus : Type 0 where
  pending : PendingMutationStatus
  blocked : PendingMutationStatus

pub data PendingMutationBlockedReason : Type 0 where
  file_too_large : PendingMutationBlockedReason
  incompatible_path : PendingMutationBlockedReason

pub record PendingMutationRow : Type 0 where
  pub mutation_id : String
  pub entry_id : String
  pub op : PendingMutationOp
  pub status : Option PendingMutationStatus
  pub blocked_reason : Option PendingMutationBlockedReason
  pub blocked_encrypted_size_bytes : Option ℕ
  pub blocked_max_file_size_bytes : Option ℕ
  pub base_revision : ℕ
  pub base_blob_id : Option String
  pub base_hash : Option String
  pub blob_id : Option String
  pub hash : Option String
  pub encrypted_metadata : String
  pub created_at : ℕ

-- `Required<PendingMutationRow>`
pub record NormalMutation : Type 0 where
  pub mutation_id : String
  pub entry_id : String
  pub op : PendingMutationOp
  pub status : PendingMutationStatus
  pub blocked_reason : Option PendingMutationBlockedReason
  pub blocked_encrypted_size_bytes : Option ℕ
  pub blocked_max_file_size_bytes : Option ℕ
  pub base_revision : ℕ
  pub base_blob_id : Option String
  pub base_hash : Option String
  pub blob_id : Option String
  pub hash : Option String
  pub encrypted_metadata : String
  pub created_at : ℕ

pub record EntryRecord : Type 0 where
  pub entry_id : String
  pub remote_known : Bool
  pub remote_path : Option String
  pub remote_revision : ℕ
  pub remote_blob_id : Option String
  pub remote_hash : Option String
  pub remote_deleted : Bool
  pub remote_updated_at : ℕ
  pub base_path : Option String
  pub base_revision : ℕ
  pub base_blob_id : Option String
  pub base_hash : Option String
  pub base_deleted : Bool
  pub local_known : Bool
  pub local_path : Option String
  pub local_blob_id : Option String
  pub local_hash : Option String
  pub local_deleted : Bool
  pub local_updated_at : ℕ
  pub local_mtime : Option ℕ
  pub local_size : Option ℕ
  pub dirty : Bool
  pub pending_mutation_id : Option String
  pub pending_op : Option PendingMutationOp
  pub pending_status : Option PendingMutationStatus
  pub pending_blocked_reason : Option PendingMutationBlockedReason
  pub pending_blocked_encrypted_size_bytes : Option ℕ
  pub pending_blocked_max_file_size_bytes : Option ℕ
  pub pending_base_revision : Option ℕ
  pub pending_base_blob_id : Option String
  pub pending_base_hash : Option String
  pub pending_blob_id : Option String
  pub pending_hash : Option String
  pub pending_encrypted_metadata : Option String
  pub pending_created_at : Option ℕ
  pub remote_path_key : Option String
  pub local_path_key : Option String

unfoldable pub create_empty_entry_record : String → EntryRecord
create_empty_entry_record id = record {
  entry_id = id;
  remote_known = false;
  remote_path = none;
  remote_revision = 0;
  remote_blob_id = none;
  remote_hash = none;
  remote_deleted = true;
  remote_updated_at = 0;
  base_path = none;
  base_revision = 0;
  base_blob_id = none;
  base_hash = none;
  base_deleted = true;
  local_known = false;
  local_path = none;
  local_blob_id = none;
  local_hash = none;
  local_deleted = true;
  local_updated_at = 0;
  local_mtime = none;
  local_size = none;
  dirty = false;
  pending_mutation_id = none;
  pending_op = none;
  pending_status = none;
  pending_blocked_reason = none;
  pending_blocked_encrypted_size_bytes = none;
  pending_blocked_max_file_size_bytes = none;
  pending_base_revision = none;
  pending_base_blob_id = none;
  pending_base_hash = none;
  pending_blob_id = none;
  pending_hash = none;
  pending_encrypted_metadata = none;
  pending_created_at = none;
  remote_path_key = none;
  local_path_key = none;
}

-- A text as a condition: neither `null` nor empty.
unfoldable pub is_truthy : Option String → Bool
is_truthy none = false
is_truthy (some s) = not (s == "")

unfoldable pub normalize_entry_record : EntryRecord → EntryRecord
unfolding is_truthy
normalize_entry_record e = record e {
  remote_path_key =
      if e.remote_known && is_truthy e.remote_path && not e.remote_deleted
      then e.remote_path
      else none;
  local_path_key =
      if e.local_known && is_truthy e.local_path && not e.local_deleted then e.local_path else none;
}

unfoldable pub copy_remote_to_base : EntryRecord → EntryRecord
copy_remote_to_base e = record e {
  base_path = e.remote_path;
  base_revision = e.remote_revision;
  base_blob_id = e.remote_blob_id;
  base_hash = e.remote_hash;
  base_deleted = e.remote_deleted;
}

-- The mutation of a record whose identifying fields are all there. The blocked fields go only with a
-- blocked status.
pub read_pending :
    EntryRecord
    → String
    → PendingMutationOp
    → PendingMutationStatus
    → ℕ
    → String
    → ℕ
    → PendingMutationRow
read_pending e id op pending base_revision metadata created_at = record {
  mutation_id = id;
  entry_id = e.entry_id;
  op = op;
  status = none;
  blocked_reason = none;
  blocked_encrypted_size_bytes = none;
  blocked_max_file_size_bytes = none;
  base_revision = base_revision;
  base_blob_id = e.pending_base_blob_id;
  base_hash = e.pending_base_hash;
  blob_id = e.pending_blob_id;
  hash = e.pending_hash;
  encrypted_metadata = metadata;
  created_at = created_at;
}
read_pending e id op blocked base_revision metadata created_at = record {
  mutation_id = id;
  entry_id = e.entry_id;
  op = op;
  status = some blocked;
  blocked_reason = e.pending_blocked_reason;
  blocked_encrypted_size_bytes = e.pending_blocked_encrypted_size_bytes;
  blocked_max_file_size_bytes = e.pending_blocked_max_file_size_bytes;
  base_revision = base_revision;
  base_blob_id = e.pending_base_blob_id;
  base_hash = e.pending_base_hash;
  blob_id = e.pending_blob_id;
  hash = e.pending_hash;
  encrypted_metadata = metadata;
  created_at = created_at;
}

-- Each field that is missing ends the reading.
pub read_fields :
    EntryRecord
    → Option String
    → Option PendingMutationOp
    → Option PendingMutationStatus
    → Option ℕ
    → Option String
    → Option ℕ
    → Option PendingMutationRow
unfolding read_pending
read_fields e (some id) (some op) (some status) (some revision) (some metadata) (some created_at) =
    if id == "" then none else some (read_pending e id op status revision metadata created_at)
read_fields e _ _ _ _ _ _ = none

unfoldable pub to_pending_mutation_row : EntryRecord → Option PendingMutationRow
unfolding read_fields
to_pending_mutation_row e =
    if e.dirty
    then read_fields e e.pending_mutation_id e.pending_op e.pending_status e.pending_base_revision
        e.pending_encrypted_metadata e.pending_created_at
    else none

pub is_blocked : PendingMutationStatus → Bool
is_blocked pending = false
is_blocked blocked = true

unfoldable pub normalize_pending_mutation : PendingMutationRow → NormalMutation
unfolding is_blocked
normalize_pending_mutation m =
    let status = or_else m.status pending in
    record {
      mutation_id = m.mutation_id;
      entry_id = m.entry_id;
      op = m.op;
      status = status;
      blocked_reason =
          if is_blocked status then some (or_else m.blocked_reason file_too_large) else none;
      blocked_encrypted_size_bytes =
          if is_blocked status then m.blocked_encrypted_size_bytes else none;
      blocked_max_file_size_bytes =
          if is_blocked status then m.blocked_max_file_size_bytes else none;
      base_revision = m.base_revision;
      base_blob_id = m.base_blob_id;
      base_hash = m.base_hash;
      blob_id = m.blob_id;
      hash = m.hash;
      encrypted_metadata = m.encrypted_metadata;
      created_at = m.created_at;
    }

unfoldable pub to_dirty_entry_record : EntryRecord → NormalMutation → EntryRecord
to_dirty_entry_record e m = record e {
  dirty = true;
  pending_mutation_id = some m.mutation_id;
  pending_op = some m.op;
  pending_status = some m.status;
  pending_blocked_reason = m.blocked_reason;
  pending_blocked_encrypted_size_bytes = m.blocked_encrypted_size_bytes;
  pending_blocked_max_file_size_bytes = m.blocked_max_file_size_bytes;
  pending_base_revision = some m.base_revision;
  pending_base_blob_id = m.base_blob_id;
  pending_base_hash = m.base_hash;
  pending_blob_id = m.blob_id;
  pending_hash = m.hash;
  pending_encrypted_metadata = some m.encrypted_metadata;
  pending_created_at = some m.created_at;
  base_revision = m.base_revision;
  base_blob_id = m.base_blob_id;
  base_hash = m.base_hash;
  base_path = if e.remote_known then e.remote_path else e.base_path;
  base_deleted = if e.remote_known then e.remote_deleted else e.base_deleted;
}

unfoldable pub clear_pending_mutation : EntryRecord → EntryRecord
clear_pending_mutation e = record e {
  dirty = false;
  pending_mutation_id = none;
  pending_op = none;
  pending_status = none;
  pending_blocked_reason = none;
  pending_blocked_encrypted_size_bytes = none;
  pending_blocked_max_file_size_bytes = none;
  pending_base_revision = none;
  pending_base_blob_id = none;
  pending_base_hash = none;
  pending_blob_id = none;
  pending_hash = none;
  pending_encrypted_metadata = none;
  pending_created_at = none;
}

unfoldable pub has_pending_mutation_record : EntryRecord → Bool
unfolding to_pending_mutation_row
has_pending_mutation_record e = is_some (to_pending_mutation_row e)
