-- ===== src/Vault.antt =====
-- application/services/vault-service.ts: a vault's state, its policy, its pause and its repair.
pub mod Repaired
pub mod Examples
use Prim.Native.String.{◌++◌ as str_append}
use text.Mathlib.Text.{starts_with}
use synch.Common.{
  ℕ, suc, ◌+◌, String, ◌==◌, Bool, true, false, not, ◌&&◌, ◌||◌, Option, none, some, List, [], ◌∷◌,
  ◌++◌, Error, Result, ok, err, not_found, sync_repair_required, ◌>>=◌, if◌then◌else◌, is_some,
  or_else, ltb, length,
}
use synch.Domain.BlobPolicy.{is_stale_staged_blob_pause_reason}
use synch.Domain.HealthPolicy.{staged_blob_stale_ms}
use synch.Storage.Rows.{Database, BlobRow}
use synch.Storage.State.{
  VaultStateLimits, SyncPauseState, ensure_vault_state, vault_state_exists_for, read_sync_pause,
  clear_sync_pause, pause_sync, apply_vault_policy,
}
use synch.Storage.Blobs.{list_stale_staged_blobs}
use synch.Storage.Connections.{delete_local_vault_connection}
use synch.Mutation.{SocketSession}
use synch.Blob.Records.{
  StagedDeletion, missing, referenced, deleted, delete_unreferenced_staged_blob,
}
use synch.Blob.Gc.{read_next_gc_at}

abbrev pub manual_sync_pause_prefix : String
manual_sync_pause_prefix = "manual: "

abbrev pub max_repairable_stale_staged_blobs : ℕ
max_repairable_stale_staged_blobs = 100

-- `readSyncPause` of the service: null for a vault without state.
unfoldable pub read_pause : String → Database → Result (Option SyncPauseState)
read_pause vault_id db = do
  known ← vault_state_exists_for vault_id db
  ok (if known then read_sync_pause db else none)

abbrev pub needs_repair : Option SyncPauseState → Bool
needs_repair none = false
needs_repair (some pause) = not (starts_with pause.reason manual_sync_pause_prefix)

abbrev pub change_pause : ℕ → Option String → Database → Database
change_pause now none db = clear_sync_pause db
change_pause now (some reason) db = pause_sync now (str_append manual_sync_pause_prefix reason) db

-- Returns the pause that holds afterwards.
unfoldable pub set_sync_pause :
    String → Option String → ℕ → Database → Result (Option SyncPauseState × Database)
set_sync_pause vault_id reason now db = do
  known ← vault_state_exists_for vault_id db
  if not known
      then err not_found
      else if needs_repair (read_sync_pause db)
      then err sync_repair_required
      else let after = change_pause now reason db in ok (read_sync_pause after, after)

-- `limits` are what the reader of the initial limits answers.
unfoldable pub ensure_state : String → VaultStateLimits → Database → Result Database
ensure_state vault_id limits db = do
  known ← vault_state_exists_for vault_id db
  if known then ok db else ensure_vault_state vault_id limits db

unfoldable pub refresh_vault_policy : String → VaultStateLimits → Database → Result Database
refresh_vault_policy vault_id limits db = do
  known ← vault_state_exists_for vault_id db
  if known then (do applied ← apply_vault_policy vault_id limits db; ok applied.1) else ok db

unfoldable pub detach_local_vault : SocketSession → Database → Database
detach_local_vault session db =
    delete_local_vault_connection session.user_id session.local_vault_id db

pub data SyncRepairIssue : Type 0 where
  unsupported_pause_reason referenced_staged_blob blob_storage_delete_failed : SyncRepairIssue
  repair_limit_exceeded : SyncRepairIssue

pub data SyncRepairStatus : Type 0 where
  repaired not_paused manual_repair_required : SyncRepairStatus

pub record SyncRepairResult : Type 0 where
  pub status : SyncRepairStatus
  pub deleted_staged_blob_count : ℕ
  pub remaining_stale_staged_blob_count : ℕ
  pub next_gc_at : Option ℕ
  pub pause : Option SyncPauseState
  pub issue : Option SyncRepairIssue

-- The variables of the loop over the stale blobs.
pub record RepairLoop : Type 0 where
  pub db : Database
  pub deleted_count : ℕ
  pub issue : Option SyncRepairIssue

abbrev pub count_if_deleted : StagedDeletion → ℕ → ℕ
count_if_deleted deleted n = suc n
count_if_deleted d n = n

-- What follows the deletion of a record: `failed` tells that its object could not be deleted.
abbrev pub after_record : StagedDeletion → Bool → Database → RepairLoop → RepairLoop
after_record referenced failed db st = record st { db = db; issue = some referenced_staged_blob }
after_record d true db st = record st { db = db; issue = some blob_storage_delete_failed }
after_record d false db st = record st {
  db = db;
  deleted_count = count_if_deleted d st.deleted_count;
}

-- The record goes first, then the object; `fails` tells which objects cannot be deleted.
abbrev pub repair_one : (String → Bool) → ℕ → BlobRow → RepairLoop → RepairLoop
repair_one fails now blob st =
    let gone = delete_unreferenced_staged_blob blob.blob_id now st.db in
    after_record gone.0 (fails blob.blob_id) gone.1 st

unfoldable pub repair_loop : (String → Bool) → ℕ → List BlobRow → RepairLoop → RepairLoop
repair_loop fails now [] st = st
repair_loop fails now (b ∷ bs) st = repair_loop fails now bs (repair_one fails now b st)

abbrev pub repair_required_result :
    Option SyncPauseState → ℕ → Option ℕ → SyncRepairIssue → ℕ → SyncRepairResult
repair_required_result pause remaining next_gc_at issue deleted_count = record {
  status = manual_repair_required;
  deleted_staged_blob_count = deleted_count;
  remaining_stale_staged_blob_count = remaining;
  next_gc_at = next_gc_at;
  pause = pause;
  issue = some issue;
}

abbrev pub empty_repair_result : SyncRepairResult
empty_repair_result = record {
  status = not_paused;
  deleted_staged_blob_count = 0;
  remaining_stale_staged_blob_count = 0;
  next_gc_at = none;
  pause = none;
  issue = none;
}

unfoldable pub stale_blobs : ℕ → Database → List BlobRow
stale_blobs now db =
    list_stale_staged_blobs now staged_blob_stale_ms (suc max_repairable_stale_staged_blobs) db

abbrev pub unsupported_pause : Option SyncPauseState → Bool
unsupported_pause none = false
unsupported_pause (some pause) = not (is_stale_staged_blob_pause_reason pause.reason)

-- What follows the loop.
unfoldable pub finish_repair : ℕ → Option SyncPauseState → RepairLoop → SyncRepairResult × Database
finish_repair now pause st =
    let remaining = length (stale_blobs now st.db) in
    let next_gc_at = read_next_gc_at now st.db in
    if is_some st.issue || ltb 0 remaining
    then (
      repair_required_result pause remaining next_gc_at (or_else st.issue referenced_staged_blob)
          st.deleted_count,
      st.db,
    )
    else (
      record {
        status = if is_some pause || ltb 0 st.deleted_count then repaired else not_paused;
        deleted_staged_blob_count = st.deleted_count;
        remaining_stale_staged_blob_count = 0;
        next_gc_at = next_gc_at;
        pause = none;
        issue = none;
      },
      if is_some pause then clear_sync_pause st.db else st.db,
    )

unfoldable pub repair_known : (String → Bool) → ℕ → Database → SyncRepairResult × Database
unfolding repair_loop
repair_known fails now db =
    let pause = read_sync_pause db in
    let stale = stale_blobs now db in
    if unsupported_pause pause
    then (repair_required_result pause (length stale) none unsupported_pause_reason 0, db)
    else if ltb max_repairable_stale_staged_blobs (length stale)
    then (repair_required_result pause (length stale) none repair_limit_exceeded 0, db)
    else finish_repair now pause
        (repair_loop fails now stale (record { db = db; deleted_count = 0; issue = none }))

unfoldable pub repair_sync_state :
    (String → Bool) → String → ℕ → Database → Result (SyncRepairResult × Database)
repair_sync_state fails vault_id now db = do
  known ← vault_state_exists_for vault_id db
  ok (if known then repair_known fails now db else (empty_repair_result, db))
