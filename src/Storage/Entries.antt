-- ===== src/Storage/Entries.antt =====
-- adapters/outbound/sqlite/entry-store.ts: the current entries.
pub mod Lookup
pub mod Ordering
pub mod Ascending
use text.Mathlib.Text.{is_le}
use Prim.Native.String.{compare as compare_text}
use synch.Common.{
  ℕ, String, ◌==◌, Bool, true, false, not, ◌&&◌, ◌||◌, Option, none, some, List, [], ◌∷◌, leb, ltb,
  eqb, if◌then◌else◌, is_some, select, any, find?, take, length, contains,
}
use synch.Domain.EntryPolicy.{EntryOp, same_op, upsert}
use synch.Storage.Table.{upsert_where}
use synch.Storage.Rows.{Database, EntryRow, EntryVersionRow, BlobRow}

abbrev pub has_entry_id : String → EntryRow → Bool
has_entry_id entry_id e = e.entry_id == entry_id

unfoldable pub read_entry : String → Database → Option EntryRow
read_entry entry_id db = find? (has_entry_id entry_id) db.entries

unfoldable pub upsert_entry : EntryRow → Database → Database
upsert_entry input db = record db {
  entries = upsert_where (has_entry_id input.entry_id) input (λ _. input) db.entries;
}

-- ORDER BY, by insertion: rows that compare alike keep their order.
module _ {ℓ} {A : Type ℓ} (before : A → A → Bool) where
  pub insert_row : A → List A → List A
  insert_row x [] = x ∷ []
  insert_row x (y ∷ ys) = let rest = insert_row x ys in if before x y then x ∷ y ∷ ys else y ∷ rest

  unfoldable pub order_by : List A → List A
  unfolding insert_row
  order_by [] = []
  order_by (x ∷ xs) = insert_row x (order_by xs)

abbrev pub le_text : String → String → Bool
le_text a b = is_le (compare_text a b)

-- ORDER BY updated_seq ASC, entry_id ASC
abbrev pub state_order : EntryRow → EntryRow → Bool
state_order a b =
    ltb a.updated_seq b.updated_seq
    || (eqb a.updated_seq b.updated_seq && le_text a.entry_id b.entry_id)

pub record EntryStatePageCursor : Type 0 where
  pub updated_seq : ℕ
  pub entry_id : String

abbrev pub after_cursor : Option EntryStatePageCursor → EntryRow → Bool
after_cursor none e = true
after_cursor (some c) e =
    ltb c.updated_seq e.updated_seq
    || (eqb e.updated_seq c.updated_seq && not (le_text e.entry_id c.entry_id))

abbrev pub in_ids : Option (List String) → EntryRow → Bool
in_ids none e = true
in_ids (some ids) e = contains ids e.entry_id

abbrev pub in_range : ℕ → ℕ → Option (List String) → EntryRow → Bool
in_range since target ids e = ltb since e.updated_seq && leb e.updated_seq target && in_ids ids e

unfoldable pub list_entry_states :
    ℕ → ℕ → Option EntryStatePageCursor → ℕ → Option (List String) → Database → List EntryRow
unfolding order_by
list_entry_states since target after limit ids db = take limit (
    order_by state_order
      (select (λ e. in_range since target ids e && after_cursor after e) db.entries))

unfoldable pub count_entry_states : ℕ → ℕ → Option (List String) → Database → ℕ
count_entry_states since target ids db = length (select (in_range since target ids) db.entries)

-- The size of the blob that an entry points at, from the blobs' table.
unfoldable pub blob_size : Option String → Database → Option ℕ
blob_size none db = none
blob_size (some b) db = elim (find? (λ (r : BlobRow). r.blob_id == b) db.blobs) [
  | none ↦ none
  | some r ↦ some r.size_bytes
]

-- An unexpired version that can bring an entry's content back.
abbrev pub is_restorable : String → ℕ → EntryVersionRow → Bool
is_restorable entry_id now v =
    v.entry_id == entry_id && same_op v.op_type upsert && is_some v.blob_id && ltb now v.expires_at

pub record DeletedEntryPageCursor : Type 0 where
  pub deleted_at : ℕ
  pub entry_id : String

abbrev pub before_cursor : Option DeletedEntryPageCursor → EntryRow → Bool
before_cursor none e = true
before_cursor (some c) e =
    ltb e.updated_at c.deleted_at
    || (eqb e.updated_at c.deleted_at && not (le_text c.entry_id e.entry_id))

-- ORDER BY updated_at DESC, entry_id DESC
abbrev pub deleted_order : EntryRow → EntryRow → Bool
deleted_order a b =
    ltb b.updated_at a.updated_at
    || (eqb a.updated_at b.updated_at && le_text b.entry_id a.entry_id)

unfoldable pub list_deleted_entries :
    Option DeletedEntryPageCursor → ℕ → ℕ → Database → List EntryRow
unfolding order_by
list_deleted_entries before now limit db = take limit (
    order_by deleted_order (
      select
        (λ e.
          e.deleted
          && ltb 0 e.revision
          && before_cursor before e
          && any (is_restorable e.entry_id now) db.versions)
        db.entries))
