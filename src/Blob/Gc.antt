-- ===== src/Blob/Gc.antt =====
-- application/services/blob-gc-service.ts: the collection of blobs that nothing pins.
use synch.Common.{
  ℕ, ◌+◌, ◌*◌, String, Bool, true, false, not, Option, none, some, List, [], ◌∷◌, ◌++◌, map,
  if◌then◌else◌, length, ltb, leb, select, any, distinct,
}
use synch.Domain.BlobGcPolicy.{
  BlobCollectionDecision, collectible, retained, decide_blob_collection, earliest_gc_deadline,
}
use synch.Storage.Rows.{Database}
use synch.Storage.State.{record_gc_completed}
use synch.Storage.Versions.{expire_entry_versions}
use synch.Storage.GcQueries.{
  BlobGcCandidate, list_collectible_blobs, read_collectible_blob, read_gc_deadlines,
}
use synch.Blob.Records.{mark_unpinned_blob_pending_delete, delete_collectible_blob_records}
use synch.Blob.Service.{
  Call, schedule_gc_at, schedule_summary_flush, flush_health_summary_at, notify_storage_status,
}

abbrev pub gc_batch_size : ℕ
gc_batch_size = 1000

unfoldable pub read_next_gc_at : ℕ → Database → Option ℕ
read_next_gc_at now db = earliest_gc_deadline (read_gc_deadlines now db) now

abbrev pub is_kind_collectible : BlobCollectionDecision → Bool
is_kind_collectible collectible = true
is_kind_collectible (retained reason) = false

unfoldable pub is_collectible : ℕ → BlobGcCandidate → Bool
is_collectible now blob = is_kind_collectible (
    decide_blob_collection
      (record {
        state = blob.row.state;
        delete_after = blob.row.delete_after;
        refs = blob.reference_facts;
      })
      now)

-- What the object store answers to a bulk deletion: the ids whose objects it failed to delete.
pub record BatchOutcome : Type 0 where
  pub db : Database
  pub deleted_count : ℕ
  pub failed : Bool

abbrev pub blob_ids : List BlobGcCandidate → List String
blob_ids = map (λ b. b.row.blob_id)

-- The records of the objects that are gone, and no others, are deleted. `failed` stands for the
-- error that is thrown when some key failed.
unfoldable pub delete_collectible_batch :
    (String → Bool) → List BlobGcCandidate → ℕ → Database → BatchOutcome
delete_collectible_batch fails [] now db = record { db = db; deleted_count = 0; failed = false }
delete_collectible_batch fails (b ∷ bs) now db =
    let succeeded = select (λ k. not (fails k)) (blob_ids (b ∷ bs)) in
    let gone = delete_collectible_blob_records succeeded now db in
    record {
      db = if leb (length succeeded) 0 then db else gone.1;
      deleted_count = if leb (length succeeded) 0 then 0 else length gone.0;
      failed = any fails (blob_ids (b ∷ bs));
    }

pub record GcOutcome : Type 0 where
  pub db : Database
  pub next_gc_at : Option ℕ
  pub failed : Bool
  pub calls : List Call

abbrev pub notify_if : Bool → List Call
notify_if true = notify_storage_status ∷ []
notify_if false = []

abbrev pub schedule_if_due : ℕ → Option ℕ → List Call
schedule_if_due now none = []
schedule_if_due now (some at) = schedule_gc_at at now ∷ []

-- The records expire first; then the batch is read, checked again and deleted.
unfoldable pub gc_batch : (String → Bool) → ℕ → Database → BatchOutcome
gc_batch fails now db =
    let expired = expire_entry_versions now db in
    let due = list_collectible_blobs now gc_batch_size expired in
    delete_collectible_batch fails (select (is_collectible now) due) now expired

abbrev pub gc_completed : ℕ → BatchOutcome → GcOutcome
gc_completed now b =
    let next = read_next_gc_at now b.db in
    record {
      db = record_gc_completed now b.db;
      next_gc_at = next;
      failed = false;
      calls =
          schedule_if_due now next
          ++ (flush_health_summary_at now ∷ [])
          ++ notify_if (ltb 0 b.deleted_count);
    }

abbrev pub gc_failed : BatchOutcome → GcOutcome
gc_failed b = record {
  db = b.db;
  next_gc_at = none;
  failed = true;
  calls = notify_if (ltb 0 b.deleted_count);
}

-- `runGc` for a known vault. `may_collect` is the answer of the optional check of the vault.
unfoldable pub run_gc : Bool → (String → Bool) → ℕ → Database → GcOutcome
unfolding read_next_gc_at
run_gc may_collect fails now db =
    let retry_at = now + 60 * 60 * 1000 in
    let b = gc_batch fails now db in
    if not may_collect
    then record {
      db = db;
      next_gc_at = some retry_at;
      failed = false;
      calls = schedule_gc_at retry_at now ∷ [];
    }
    else if b.failed
    then gc_failed b
    else gc_completed now b

-- The loop of `collectPurgedBlobs`: each blob is retired if nothing pins it, and read for collection.
unfoldable pub collect_candidates : List String → ℕ → Database → List BlobGcCandidate × Database
collect_candidates [] now db = ([], db)
collect_candidates (b ∷ bs) now db =
    let db₁ = mark_unpinned_blob_pending_delete b now db in
    let rest = collect_candidates bs now db₁ in
    elim (read_collectible_blob b now db₁) [
      | none ↦ rest
      | some c ↦ if is_collectible now c then (c ∷ rest.0, rest.1) else rest
    ]

abbrev pub purge_calls : ℕ → BatchOutcome → List Call
purge_calls now b =
    schedule_if_due now (read_next_gc_at now b.db)
    ++ (schedule_summary_flush ∷ [])
    ++ notify_if (ltb 0 b.deleted_count)

-- The ids once each; none means that there is nothing to do.
unfoldable pub collect_distinct :
    (String → Bool) → List String → ℕ → Database → Database × List Call
unfolding read_next_gc_at
collect_distinct fails [] now db = (db, [])
collect_distinct fails (b ∷ bs) now db =
    let found = collect_candidates (b ∷ bs) now (expire_entry_versions now db) in
    let batch = delete_collectible_batch fails found.0 now found.1 in
    (batch.db, purge_calls now batch)

-- A failure of the object store is logged and not thrown.
unfoldable pub collect_purged_blobs :
    Bool → (String → Bool) → List String → ℕ → Database → Database × List Call
unfolding collect_distinct
collect_purged_blobs may_collect fails ids now db =
    if not may_collect then (db, []) else collect_distinct fails (distinct [] ids) now db
