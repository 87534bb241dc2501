-- ===== src/Entry/Purge.antt =====
-- entry-service.ts: `purgeDeletedEntries` removes the history of deleted entries for good.
use synch.Common.{
  ℕ, String, Bool, Option, none, some, List, [], ◌∷◌, ◌++◌, Error, sync_paused, is_some,
  if◌then◌else◌, distinct,
}
use synch.Domain.EntryPolicy.{
  PurgeFacts, DeletedEntryPurgeDecision, decide_deleted_entry_purge, accepted,
}
use synch.Storage.Rows.{Database, EntryRow}
use synch.Storage.State.{read_sync_pause}
use synch.Storage.Entries.{read_entry}
use synch.Storage.Versions.{has_restorable_history, list_blob_ids, delete_entry_versions}
use synch.Blob.Service.{Call}
use synch.Blob.Gc.{collect_purged_blobs}

pub record PurgeRequest : Type 0 where
  pub entry_id : String
  pub revision : ℕ

pub data PurgeResult : Type 0 where
  purge_accepted : String → PurgeResult
  purge_rejected : String → DeletedEntryPurgeDecision → PurgeResult

abbrev pub purge_facts : Option EntryRow → Option PurgeFacts
purge_facts none = none
purge_facts (some e) = some (record { revision = e.revision; deleted = e.deleted })

unfoldable pub purge_decision : PurgeRequest → ℕ → Database → DeletedEntryPurgeDecision
unfolding decide_deleted_entry_purge has_restorable_history
purge_decision r now db =
    decide_deleted_entry_purge (purge_facts (read_entry r.entry_id db)) r.revision
      (has_restorable_history r.entry_id now db)

pub record PurgeOutcome : Type 0 where
  pub db : Database
  pub result : PurgeResult
  pub candidate_blob_ids : List String

abbrev pub purge_writes : PurgeRequest → DeletedEntryPurgeDecision → Database → PurgeOutcome
purge_writes r accepted db = record {
  db = delete_entry_versions r.entry_id db;
  result = purge_accepted r.entry_id;
  candidate_blob_ids = list_blob_ids r.entry_id db;
}
purge_writes r d db = record {
  db = db;
  result = purge_rejected r.entry_id d;
  candidate_blob_ids = [];
}

-- One transaction for each entry, when the vault is not paused.
unfoldable pub purge_one : PurgeRequest → ℕ → Database → PurgeOutcome
unfolding purge_decision
purge_one r now db = purge_writes r (purge_decision r now db) db

-- What the loop has done: the error that ended it, if one did, and what was committed before.
pub record PurgeLoop : Type 0 where
  pub db : Database
  pub error : Option Error
  pub results : List PurgeResult
  pub candidate_blob_ids : List String

unfoldable pub purge_loop : List PurgeRequest → ℕ → Database → PurgeLoop
purge_loop [] now db = record { db = db; error = none; results = []; candidate_blob_ids = [] }
purge_loop (r ∷ rs) now db =
    let one = purge_one r now db in
    let rest = purge_loop rs now one.db in
    if is_some (read_sync_pause db)
    then record { db = db; error = some sync_paused; results = []; candidate_blob_ids = [] }
    else record {
      db = rest.db;
      error = rest.error;
      results = one.result ∷ rest.results;
      candidate_blob_ids = one.candidate_blob_ids ++ rest.candidate_blob_ids;
    }

pub record PurgeReply : Type 0 where
  pub db : Database
  pub error : Option Error
  pub results : List PurgeResult
  pub candidate_blob_ids : List String
  pub calls : List Call

abbrev pub purge_failed : PurgeLoop → Error → PurgeReply
purge_failed done e = record {
  db = done.db;
  error = some e;
  results = [];
  candidate_blob_ids = [];
  calls = [];
}

abbrev pub purge_done : PurgeLoop → Database × List Call → PurgeReply
purge_done done collected = record {
  db = collected.0;
  error = none;
  results = done.results;
  candidate_blob_ids = distinct [] done.candidate_blob_ids;
  calls = collected.1;
}

-- The collection sees only what a loop that came to its end has found. `collect_now` is the time that
-- the collector reads, `may_collect` and `fails` are its parameters.
unfoldable pub purge_deleted_entries :
    Bool → (String → Bool) → List PurgeRequest → ℕ → ℕ → Database → PurgeReply
unfolding purge_loop
purge_deleted_entries may_collect fails rs now collect_now db =
    let done = purge_loop rs now db in
    elim done.error [
      | some e ↦ purge_failed done e
      | none ↦ purge_done done (
          collect_purged_blobs may_collect fails (distinct [] done.candidate_blob_ids) collect_now
            done.db)
    ]
