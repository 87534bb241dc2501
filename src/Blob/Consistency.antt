-- ===== src/Blob/Consistency.antt =====
-- Staging, retirement and deletion of blob records keep the vault's database consistent.
use synch.Common.{
  ℕ, zero, suc, ◌+◌, ◌≡◌, refl, sym, ◌∙◌, String, eq_iff, Bool, true, false, not, ◌&&◌, Option,
  none, some, List, arith, inl, inr, Bool-cases, Option-cases, select, any, contains, ltb,
}
use synch.Domain.BlobPolicy.{staged, same_state}
use synch.Domain.BlobGcPolicy.{is_blob_pinned}
use synch.Storage.Table.{delete_where}
use synch.Storage.Rows.{Database, BlobRow, EntryRow, CoordinatorState, neg, clamp_add}
use synch.Storage.State.{adjust_storage_used_bytes}
use synch.Storage.References.{read_blob_reference_facts, has_current_reference, entry_refers}
use synch.Storage.Blobs.{
  read_blob, has_blob_id, collectible_blob, blob_unreferenced, delete_blob_record,
  delete_collectible_blobs, in_state,
}
use synch.Storage.Invariant.{IsConsistent}
use synch.Storage.Invariant.Backing.{AllBacked-delete}
use synch.Storage.Invariant.Accounting.{IsCounted, total_size, total_size-delete_where}
use synch.Storage.Invariant.Sequence.{IsSequenced}
use synch.Blob.Records.{
  account_for_deleted_blobs, delete_collectible_blob_records, delete_unreferenced_staged_blob,
}

-- The rows that a test picks go, and their sizes leave the storage counter.
abbrev pub delete_accounted : (BlobRow → Bool) → Database → Database
delete_accounted p db =
    account_for_deleted_blobs (select p db.blobs) (record db { blobs = delete_where p db.blobs })

pub account_parts :
    (gone : List BlobRow) (db : Database)
    → let db' = account_for_deleted_blobs gone db in
      (db'.entries ≡ db.entries) × (db'.blobs ≡ db.blobs) × (db'.versions ≡ db.versions)
unfolding account_for_deleted_blobs adjust_storage_used_bytes
account_parts gone db = elim (Bool-cases (ltb 0 (total_size gone))) [
  | inl e ↦ rw e (refl, refl, refl)
  | inr e ↦ rw e (refl, refl, refl)
]

account-IsSequenced :
    (gone : List BlobRow) (db : Database)
    → IsSequenced db.state db.entries
    → let db' = account_for_deleted_blobs gone db in IsSequenced db'.state db'.entries
unfolding account_for_deleted_blobs adjust_storage_used_bytes
account-IsSequenced gone db h = elim (Bool-cases (ltb 0 (total_size gone))) [
  | inl e ↦ elim (Option-cases db.state) [
    | inl n ↦ rw (e, n) (rw n at h)
    | inr (s, m) ↦ rw (e, m) (rw m at h)
  ]
  | inr e ↦ rw e h
]

IsCounted-after :
    (s : Option CoordinatorState) (gone left all : List BlobRow) (db : Database)
    → db.state ≡ s
    → total_size gone + total_size left ≡ total_size all
    → IsCounted s all
    → IsCounted (account_for_deleted_blobs gone db).state left
unfolding account_for_deleted_blobs adjust_storage_used_bytes
IsCounted-after none gone left all db e t h = elim (Bool-cases (ltb 0 (total_size gone))) [
  | inl b ↦ rw (b, e) tt
  | inr b ↦ rw (b, e) tt
]
IsCounted-after (some s) gone left all db e t h = elim (Bool-cases (ltb 0 (total_size gone))) [
  | inl b ↦ rw (b, e) (clamp (total_size gone) s.storage_used_bytes (total_size left) (t ∙ sym h))
  | inr b ↦ rw (b, e) (ground (arith, b, t, h))
]
  where
    clamp : (g u l : ℕ) → g + l ≡ u → clamp_add u (neg g) ≡ l
    clamp zero u l q = omega arith
    clamp (suc g) u l q = omega arith

pub delete_accounted-IsConsistent :
    (p : BlobRow → Bool) (db : Database)
    → ((r : BlobRow) → p r ≡ true → any (entry_refers r.blob_id) db.entries ≡ false)
    → IsConsistent db
    → IsConsistent (delete_accounted p db)
delete_accounted-IsConsistent p db free inv =
    let (pe, pb, pv) =
      account_parts (select p db.blobs) (record db { blobs = delete_where p db.blobs }) in
    record {
      backed =
          rw (pe, pb)
            (AllBacked-delete p db.blobs db.entries db.entries free (λ k m. m) inv.backed);
      counted = rw pb (
          IsCounted-after db.state (select p db.blobs) (delete_where p db.blobs) db.blobs
            (record db { blobs = delete_where p db.blobs }) refl
            (total_size-delete_where p db.blobs) inv.counted);
      sequenced =
          account-IsSequenced (select p db.blobs) (record db { blobs = delete_where p db.blobs })
            inv.sequenced;
    }

-- A test that picks only rows of one key deletes nothing that is referenced, if that key is not.
pub free_of_key :
    (k : String) (p : BlobRow → Bool) (es : List EntryRow)
    → any (entry_refers k) es ≡ false
    → (r : BlobRow) → (has_blob_id k r && p r) ≡ true
    → any (entry_refers r.blob_id) es ≡ false
free_of_key k p es h r t =
    let same : r.blob_id ≡ k = (eq_iff r.blob_id k).0 (ground arith) in rw same h

pub unpinned_free :
    (k : String) (now : ℕ) (db : Database)
    → is_blob_pinned (read_blob_reference_facts k now db) ≡ false
    → any (entry_refers k) db.entries ≡ false
unfolding is_blob_pinned read_blob_reference_facts has_current_reference
unpinned_free k now db h = ground arith

pub collectible_free :
    (db : Database) (now : ℕ) (r : BlobRow)
    → collectible_blob db now r ≡ true
    → any (entry_refers r.blob_id) db.entries ≡ false
unfolding collectible_blob blob_unreferenced has_current_reference
collectible_free db now r h = ground arith

pub delete_collectible_blob_records-IsConsistent :
    (ids : List String) (now : ℕ) (db : Database)
    → IsConsistent db
    → IsConsistent (delete_collectible_blob_records ids now db).1
unfolding delete_collectible_blob_records delete_collectible_blobs
delete_collectible_blob_records-IsConsistent ids now db inv =
    delete_accounted-IsConsistent (λ r. contains ids r.blob_id && collectible_blob db now r) db
      (λ r t. collectible_free db now r (ground arith)) inv

-- Deletion of an upload that nothing has come to need keeps the database consistent.
pub delete_unreferenced_staged_blob-IsConsistent :
    (k : String) (now : ℕ) (db : Database)
    → IsConsistent db
    → IsConsistent (delete_unreferenced_staged_blob k now db).1
unfolding delete_unreferenced_staged_blob delete_blob_record
delete_unreferenced_staged_blob-IsConsistent k now db inv = elim (Option-cases (read_blob k db)) [
  | inl e ↦ rw (delete_unreferenced_staged_blob, e) inv
  | inr (b, e) ↦ elim (Bool-cases (not (same_state b.state staged))) [
    | inl s ↦ rw (delete_unreferenced_staged_blob, e, s) inv
    | inr s ↦ elim (Bool-cases (is_blob_pinned (read_blob_reference_facts k now db))) [
      | inl f ↦ rw (delete_unreferenced_staged_blob, e, s, f) inv
      | inr f ↦
          rw (delete_unreferenced_staged_blob, e, s, f)
            (delete_accounted-IsConsistent (λ r. has_blob_id k r && in_state (some staged) r) db
              (free_of_key k (in_state (some staged)) db.entries (unpinned_free k now db f)) inv)
    ]
  ]
]
