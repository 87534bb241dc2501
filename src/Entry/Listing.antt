-- ===== src/Entry/Listing.antt =====
-- entry-service.ts: the pages of `listEntryStates`, `listDeletedEntries` and `listEntryVersions`.
use synch.Common.{
  ℕ, ◌+◌, String, Bool, true, false, not, ◌&&◌, ◌||◌, Option, none, some, List, [], ◌∷◌, map, min,
  Result, ok, err, not_found, cursor_ahead_of_server, invalid_cursor_range, ◌>>=◌, ◌>>◌, guard,
  if◌then◌else◌, is_some, or_else, ltb, leb, length, take, get_last?,
}
use synch.Domain.EntryPolicy.{EntryOp, EntryVersionCaptureReason}
use synch.Storage.Rows.{Database, EntryRow, EntryVersionRow}
use synch.Storage.State.{current_cursor}
use synch.Storage.Entries.{
  EntryStatePageCursor, DeletedEntryPageCursor, list_entry_states, count_entry_states,
  list_deleted_entries, blob_size, read_entry,
}
use synch.Storage.Versions.{EntryVersionPageCursor, list_entry_versions}

abbrev pub max_entry_state_batch : ℕ
max_entry_state_batch = 500

abbrev pub max_deleted_entries_batch : ℕ
max_deleted_entries_batch = 100

abbrev pub max_history_batch : ℕ
max_history_batch = 100

-- One row more than a page is read: it tells whether there are more.
abbrev pub has_more {ℓ} : {A : Type ℓ} → ℕ → List A → Bool
has_more limit rows = ltb limit (length rows)

abbrev pub page_of {ℓ} : {A : Type ℓ} → ℕ → List A → List A
page_of limit rows = if has_more limit rows then take limit rows else rows

-- `hasMore && last ? f(last) : null`
abbrev pub next_of {ℓ κ} : {A : Type ℓ} {B : Type κ} → (A → B) → Bool → Option A → Option B
next_of f false last = none
next_of f true none = none
next_of f true (some last) = some (f last)

pub record ListEntryStates : Type 0 where
  pub since_cursor : ℕ
  pub target_cursor : Option ℕ
  pub after : Option EntryStatePageCursor
  pub limit : ℕ
  pub entry_ids : Option (List String)

pub record EntryState : Type 0 where
  pub entry_id : String
  pub revision : ℕ
  pub blob_id : Option String
  pub blob_size : Option ℕ
  pub encrypted_metadata : String
  pub deleted : Bool
  pub updated_seq : ℕ
  pub updated_at : ℕ

pub record EntryStatesListed : Type 0 where
  pub target_cursor : ℕ
  pub total_entries : ℕ
  pub has_more : Bool
  pub next_after : Option EntryStatePageCursor
  pub entries : List EntryState

abbrev pub after_in_range : Option EntryStatePageCursor → ℕ → ℕ → Bool
after_in_range none since target = true
after_in_range (some a) since target = not (leb a.updated_seq since || ltb target a.updated_seq)

unfoldable pub validate_cursor_range : ListEntryStates → ℕ → ℕ → Result (Unit {0})
validate_cursor_range m target current =
    guard (not (ltb current m.since_cursor)) cursor_ahead_of_server
    >> guard (not (ltb target m.since_cursor || ltb current target)) invalid_cursor_range
    >> guard (after_in_range m.after m.since_cursor target) invalid_cursor_range

abbrev pub to_entry_state : Database → EntryRow → EntryState
to_entry_state db e = record {
  entry_id = e.entry_id;
  revision = e.revision;
  blob_id = e.blob_id;
  blob_size = if e.deleted then none else blob_size e.blob_id db;
  encrypted_metadata = e.encrypted_metadata;
  deleted = e.deleted;
  updated_seq = e.updated_seq;
  updated_at = e.updated_at;
}

abbrev pub state_cursor : EntryRow → EntryStatePageCursor
state_cursor e = record { updated_seq = e.updated_seq; entry_id = e.entry_id }

-- The rows of a page of entry states, one more than the page where there are more.
abbrev pub state_rows : ListEntryStates → ℕ → Database → List EntryRow
state_rows m target db =
    list_entry_states m.since_cursor target m.after (min m.limit max_entry_state_batch + 1)
      m.entry_ids db

unfoldable pub list_states : ListEntryStates → Database → Result EntryStatesListed
unfolding validate_cursor_range
list_states m db = do
  current ← current_cursor db
  let target = or_else m.target_cursor current
  let limit = min m.limit max_entry_state_batch
  let rows = state_rows m target db
  let page = page_of limit rows
  validate_cursor_range m target current
  ok (record {
    target_cursor = target;
    total_entries = count_entry_states m.since_cursor target m.entry_ids db;
    has_more = has_more limit rows;
    next_after = next_of state_cursor (has_more limit rows) (get_last? page);
    entries = map (to_entry_state db) page;
  })

pub record DeletedEntry : Type 0 where
  pub entry_id : String
  pub revision : ℕ
  pub encrypted_metadata : String
  pub deleted_at : ℕ

pub record DeletedEntriesListed : Type 0 where
  pub entries : List DeletedEntry
  pub has_more : Bool
  pub next_before : Option DeletedEntryPageCursor

abbrev pub to_deleted_entry : EntryRow → DeletedEntry
to_deleted_entry e = record {
  entry_id = e.entry_id;
  revision = e.revision;
  encrypted_metadata = e.encrypted_metadata;
  deleted_at = e.updated_at;
}

unfoldable pub list_deleted :
    Option DeletedEntryPageCursor → ℕ → ℕ → Database → DeletedEntriesListed
list_deleted before limit now db =
    let bound = min limit max_deleted_entries_batch in
    let rows = list_deleted_entries before now (bound + 1) db in
    let page = page_of bound rows in
    record {
      entries = map to_deleted_entry page;
      has_more = has_more bound rows;
      next_before =
          next_of (λ e. record { deleted_at = e.updated_at; entry_id = e.entry_id })
            (has_more bound rows) (get_last? page);
    }

pub record EntryVersion : Type 0 where
  pub version_id : String
  pub source_revision : ℕ
  pub op : EntryOp
  pub blob_id : Option String
  pub encrypted_metadata : String
  pub reason : EntryVersionCaptureReason
  pub captured_at : ℕ

pub record EntryVersionsListed : Type 0 where
  pub versions : List EntryVersion
  pub has_more : Bool
  pub next_before : Option EntryVersionPageCursor

abbrev pub to_entry_version : EntryVersionRow → EntryVersion
to_entry_version v = record {
  version_id = v.version_id;
  source_revision = v.source_revision;
  op = v.op_type;
  blob_id = v.blob_id;
  encrypted_metadata = v.encrypted_metadata;
  reason = v.reason;
  captured_at = v.captured_at;
}

abbrev pub is_empty {ℓ} : {A : Type ℓ} → List A → Bool
is_empty [] = true
is_empty (x ∷ xs) = false

unfoldable pub list_versions :
    String → Option EntryVersionPageCursor → ℕ → ℕ → Database → Result EntryVersionsListed
list_versions entry_id before limit now db =
    let bound = min limit max_history_batch in
    let rows = list_entry_versions entry_id before now (bound + 1) db in
    let page = page_of bound rows in
    if is_empty page && not (is_some (read_entry entry_id db))
    then err not_found
    else ok (record {
      versions = map to_entry_version page;
      has_more = has_more bound rows;
      next_before =
          next_of (λ v. record { captured_at = v.captured_at; version_id = v.version_id })
            (has_more bound rows) (get_last? page);
    })
