-- ===== src/Client/EntryRecord/Accepted/Acknowledged.antt =====
-- An acknowledgement makes the accepted state the remote state, and leaves the pending mutation alone.
use synch.Common.{
  ℕ, ◌≡◌, ◌⊎◌, refl, ◌∙◌, String, true, Bool-cases, not, Option, none, some, arith, inl, inr,
  if◌then◌else◌, ◌&&◌,
}
use synch.Client.EntryRecord.{
  EntryRecord, PendingMutationOp, PendingMutationStatus, pending, blocked, to_pending_mutation_row,
  read_fields, read_pending, copy_remote_to_base,
}
use synch.Client.EntryRecord.Accepted.{
  AcceptedPushMutationRow, with_remote, with_local, acknowledged, is_upsert,
  should_apply_accepted_push_to_local,
}

-- All that a record has of the server's state is the accepted state: the path, the revision, whether it is
-- deleted, the time, and for an upsert the blob and the hash.
pub record HasAccepted (accepted : AcceptedPushMutationRow) (e : EntryRecord) : Type 0 where
  pub known : e.remote_known ≡ true
  pub path : e.remote_path ≡ some accepted.metadata.path
  pub revision : e.remote_revision ≡ accepted.accepted_revision
  pub deleted : e.remote_deleted ≡ not (is_upsert accepted.mutation.op)
  pub blob :
      e.remote_blob_id ≡ (if is_upsert accepted.mutation.op then accepted.remote_blob_id else none)
  pub hash : e.remote_hash ≡ (if is_upsert accepted.mutation.op then accepted.local_hash else none)
  pub updated_at : e.remote_updated_at ≡ accepted.accepted_at

-- An acknowledgement changes the remote fields, and then perhaps the local ones.
acknowledged-cases :
    (row : EntryRecord) (accepted : AcceptedPushMutationRow)
    → (acknowledged row accepted ≡ with_remote row accepted)
      ⊎ (acknowledged row accepted ≡ with_local (with_remote row accepted) accepted)
unfolding acknowledged
acknowledged-cases row accepted =
    elim (Bool-cases (
      is_upsert accepted.mutation.op
      && should_apply_accepted_push_to_local (with_remote row accepted) accepted)) [
        | inl e ↦ inr (rw e refl)
        | inr e ↦ inl (rw e refl)
      ]

with_remote-HasAccepted :
    (row : EntryRecord) (accepted : AcceptedPushMutationRow)
    → HasAccepted accepted (with_remote row accepted)
unfolding with_remote
with_remote-HasAccepted row accepted = record {
  known = refl;
  path = refl;
  revision = refl;
  deleted = refl;
  blob = refl;
  hash = refl;
  updated_at = refl;
}

with_local-HasAccepted :
    (row : EntryRecord) (accepted : AcceptedPushMutationRow)
    → HasAccepted accepted (with_local (with_remote row accepted) accepted)
unfolding with_remote with_local
with_local-HasAccepted row accepted = record {
  known = refl;
  path = refl;
  revision = refl;
  deleted = refl;
  blob = refl;
  hash = refl;
  updated_at = refl;
}

pub acknowledged-HasAccepted :
    (row : EntryRecord) (accepted : AcceptedPushMutationRow)
    → HasAccepted accepted (acknowledged row accepted)
acknowledged-HasAccepted row accepted = elim (acknowledged-cases row accepted) [
  | inl e ↦ rw e (with_remote-HasAccepted row accepted)
  | inr e ↦ rw e (with_local-HasAccepted row accepted)
]

-- Two records with the same pending fields.
pub record SamePending (d e : EntryRecord) : Type 0 where
  pub same_entry : d.entry_id ≡ e.entry_id
  same_reason : d.pending_blocked_reason ≡ e.pending_blocked_reason
  same_encrypted_size :
      d.pending_blocked_encrypted_size_bytes ≡ e.pending_blocked_encrypted_size_bytes
  same_max_size : d.pending_blocked_max_file_size_bytes ≡ e.pending_blocked_max_file_size_bytes
  same_base_blob : d.pending_base_blob_id ≡ e.pending_base_blob_id
  same_base_hash : d.pending_base_hash ≡ e.pending_base_hash
  same_blob : d.pending_blob_id ≡ e.pending_blob_id
  same_hash : d.pending_hash ≡ e.pending_hash

module _ {d e : EntryRecord} (s : SamePending d e) where
  read_pending-same :
      (id : String) (op : PendingMutationOp) (status : PendingMutationStatus) (revision : ℕ)
      (metadata : String) (created_at : ℕ)
      → read_pending d id op status revision metadata created_at
        ≡ read_pending e id op status revision metadata created_at
  unfolding read_pending
  read_pending-same id op pending revision metadata created_at = ground arith
  read_pending-same id op blocked revision metadata created_at = ground arith

  pub read_fields-same :
      (id : Option String) (op : Option PendingMutationOp) (status : Option PendingMutationStatus)
      (revision : Option ℕ) (metadata : Option String) (created_at : Option ℕ)
      → read_fields d id op status revision metadata created_at
        ≡ read_fields e id op status revision metadata created_at
  unfolding read_fields
  read_fields-same (some id) (some op) (some status) (some revision) (some metadata)
        (some created_at) =
      rw (read_pending-same id op status revision metadata created_at) refl
  read_fields-same _ _ _ _ _ _ = refl

pending-with_remote :
    (row : EntryRecord) (accepted : AcceptedPushMutationRow)
    → to_pending_mutation_row (with_remote row accepted) ≡ to_pending_mutation_row row
unfolding with_remote to_pending_mutation_row
pending-with_remote row accepted =
    let s : SamePending (with_remote row accepted) row = record {
      same_entry = refl;
      same_reason = refl;
      same_encrypted_size = refl;
      same_max_size = refl;
      same_base_blob = refl;
      same_base_hash = refl;
      same_blob = refl;
      same_hash = refl;
    } in
    rw
      (read_fields-same s row.pending_mutation_id row.pending_op row.pending_status
        row.pending_base_revision row.pending_encrypted_metadata row.pending_created_at)
      refl

pending-with_local :
    (row : EntryRecord) (accepted : AcceptedPushMutationRow)
    → to_pending_mutation_row (with_local row accepted) ≡ to_pending_mutation_row row
unfolding with_local to_pending_mutation_row
pending-with_local row accepted =
    let s : SamePending (with_local row accepted) row = record {
      same_entry = refl;
      same_reason = refl;
      same_encrypted_size = refl;
      same_max_size = refl;
      same_base_blob = refl;
      same_base_hash = refl;
      same_blob = refl;
      same_hash = refl;
    } in
    rw
      (read_fields-same s row.pending_mutation_id row.pending_op row.pending_status
        row.pending_base_revision row.pending_encrypted_metadata row.pending_created_at)
      refl

-- The acknowledgement leaves the pending mutation alone.
pub pending-acknowledged :
    (row : EntryRecord) (accepted : AcceptedPushMutationRow)
    → to_pending_mutation_row (acknowledged row accepted) ≡ to_pending_mutation_row row
pending-acknowledged row accepted = elim (acknowledged-cases row accepted) [
  | inl e ↦ rw e (pending-with_remote row accepted)
  | inr e ↦
      rw e
        (pending-with_local (with_remote row accepted) accepted ∙ pending-with_remote row accepted)
]

pub pending-copy_remote_to_base :
    (row : EntryRecord)
    → to_pending_mutation_row (copy_remote_to_base row) ≡ to_pending_mutation_row row
unfolding copy_remote_to_base to_pending_mutation_row
pending-copy_remote_to_base row =
    let s : SamePending (copy_remote_to_base row) row = record {
      same_entry = refl;
      same_reason = refl;
      same_encrypted_size = refl;
      same_max_size = refl;
      same_base_blob = refl;
      same_base_hash = refl;
      same_blob = refl;
      same_hash = refl;
    } in
    rw
      (read_fields-same s row.pending_mutation_id row.pending_op row.pending_status
        row.pending_base_revision row.pending_encrypted_metadata row.pending_created_at)
      refl
