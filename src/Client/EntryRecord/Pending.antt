-- ===== src/Client/EntryRecord/Pending.antt =====
-- A mutation that is written into a record is read back.
use synch.Common.{◌≡◌, refl, false, Option, none, some, ◌==◌}
use synch.Client.EntryRecord.{
  EntryRecord, PendingMutationRow, PendingMutationStatus, NormalMutation, pending, blocked,
  read_pending, to_pending_mutation_row, normalize_pending_mutation, to_dirty_entry_record,
}

-- What a record gives back of the mutation `m`: its normal form.
pub record ReadsBack (m : PendingMutationRow) (e : EntryRecord) : Type 0 where
  pub row : PendingMutationRow
  pub is_read : to_pending_mutation_row e ≡ some row
  pub same_mutation : normalize_pending_mutation row ≡ normalize_pending_mutation m

module _ (e : EntryRecord) where
  read_dirty :
      (m : NormalMutation)
      → (m.mutation_id == "") ≡ false
      → to_pending_mutation_row (to_dirty_entry_record e m)
        ≡ some (
            read_pending
              (to_dirty_entry_record e m)
              m.mutation_id
              m.op
              m.status
              m.base_revision
              m.encrypted_metadata
              m.created_at)
  unfolding to_pending_mutation_row to_dirty_entry_record
  read_dirty m h = rw h refl

  normal_read :
      (m : PendingMutationRow) (status : Option PendingMutationStatus)
      → m.status ≡ status
      → m.entry_id ≡ e.entry_id
      → normalize_pending_mutation (
          read_pending
            (to_dirty_entry_record e (normalize_pending_mutation m))
            m.mutation_id
            m.op
            (normalize_pending_mutation m).status
            m.base_revision
            m.encrypted_metadata
            m.created_at)
        ≡ normalize_pending_mutation m
  unfolding normalize_pending_mutation read_pending to_dirty_entry_record
  normal_read m none s h = rw s (rw h refl)
  normal_read m (some pending) s h = rw s (rw h refl)
  normal_read m (some blocked) s h = rw s (rw h refl)

  -- A mutation with an identifier, of the record's entry, that is made the record's pending mutation is
  -- read back from the record in its normal form: with its status, and, if it is blocked, with the reason
  -- and the sizes.
  pub to_dirty_entry_record-ReadsBack :
      (m : PendingMutationRow)
      → m.entry_id ≡ e.entry_id
      → (m.mutation_id == "") ≡ false
      → ReadsBack m (to_dirty_entry_record e (normalize_pending_mutation m))
  to_dirty_entry_record-ReadsBack m h named = record {
    row =
        read_pending (to_dirty_entry_record e (normalize_pending_mutation m)) m.mutation_id m.op
          (normalize_pending_mutation m).status m.base_revision m.encrypted_metadata m.created_at;
    is_read = unfold normalize_pending_mutation in read_dirty (normalize_pending_mutation m) named;
    same_mutation = normal_read m m.status refl h;
  }
