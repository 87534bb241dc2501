-- ===== src/Blob/Collection.antt =====
-- Collections, `runGc` and `collectPurgedBlobs`, keep the vault's database consistent, and `runGc`
-- removes the records that may go and no others.
use synch.Common.{
  ℕ, ◌≡◌, refl, String, Bool, true, false, not, some, List, [], ◌∷◌, arith, inl, inr, Bool-cases,
  Option-cases, select, any, length, leb, distinct,
}
use synch.Domain.BlobPolicy.{pending_delete}
use synch.Domain.BlobGcPolicy.{
  PendingDeleteDecision, mark_pending_delete, retain, decide_pending_delete,
}
use synch.Storage.Rows.{Database, BlobRow}
use synch.Storage.State.{record_gc_completed}
use synch.Storage.References.{read_blob_reference_facts, has_current_reference, entry_refers}
use synch.Storage.Versions.{expire_entry_versions}
use synch.Storage.Blobs.{read_blob, has_blob_id, with_state, update_state}
use synch.Storage.GcQueries.{BlobGcCandidate, read_collectible_blob}
use synch.Storage.Invariant.{IsConsistent}
use synch.Storage.Invariant.Backing.{AllBacked-update_unreferenced}
use synch.Storage.Invariant.Accounting.{total_size-update_where}
use synch.Mutation.Invariant.{IsCounted-of_total}
use synch.Blob.Records.{mark_unpinned_blob_pending_delete, retire}
use synch.Blob.Gc.{
  blob_ids, delete_collectible_batch, gc_batch, is_collectible, run_gc, collect_candidates,
  collect_distinct, collect_purged_blobs,
}
use synch.Blob.Consistency.{delete_collectible_blob_records-IsConsistent}

expire_entry_versions-IsConsistent :
    (now : ℕ) (db : Database) → IsConsistent db → IsConsistent (expire_entry_versions now db)
unfolding expire_entry_versions
expire_entry_versions-IsConsistent now db inv = record {
  backed = inv.backed;
  counted = inv.counted;
  sequenced = inv.sequenced;
}

record_gc_completed-IsConsistent :
    (now : ℕ) (db : Database) → IsConsistent db → IsConsistent (record_gc_completed now db)
unfolding record_gc_completed
record_gc_completed-IsConsistent now db inv = elim (Option-cases db.state) [
  | inl e ↦ record {
    backed = inv.backed;
    counted = rw e (rw e at inv.counted);
    sequenced = rw e (rw e at inv.sequenced);
  }
  | inr (s, e) ↦ record {
    backed = inv.backed;
    counted = rw e (rw e at inv.counted);
    sequenced = rw e (rw e at inv.sequenced);
  }
]

-- A blob that is retired is one that no entry points at.
retired_free :
    (k : String) (now : ℕ) (db : Database) (b : BlobRow) {at : ℕ}
    → decide_pending_delete
        (record {
          state = b.state;
          delete_after = b.delete_after;
          refs = read_blob_reference_facts k now db;
        })
        now
      ≡ mark_pending_delete at
    → any (entry_refers k) db.entries ≡ false
unfolding decide_pending_delete read_blob_reference_facts has_current_reference
retired_free k now db b {at} h = ground arith

retire-IsConsistent :
    (k : String) (d : PendingDeleteDecision) (db : Database)
    → ((at : ℕ) → d ≡ mark_pending_delete at → any (entry_refers k) db.entries ≡ false)
    → IsConsistent db
    → IsConsistent (retire k d db)
unfolding update_state
retire-IsConsistent k (retain reason) db free inv = inv
retire-IsConsistent k (mark_pending_delete at) db free inv = record {
  backed =
      AllBacked-update_unreferenced k (some at) db.blobs pending_delete db.entries (free at refl)
        inv.backed;
  counted =
      IsCounted-of_total db.state db.blobs _
        (total_size-update_where (has_blob_id k) (with_state pending_delete (some at)) db.blobs
          (λ r. refl))
        inv.counted;
  sequenced = inv.sequenced;
}

pub mark_unpinned_blob_pending_delete-IsConsistent :
    (k : String) (now : ℕ) (db : Database)
    → IsConsistent db
    → IsConsistent (mark_unpinned_blob_pending_delete k now db)
unfolding mark_unpinned_blob_pending_delete
mark_unpinned_blob_pending_delete-IsConsistent k now db inv = elim (Option-cases (read_blob k db)) [
  | inl e ↦ rw (mark_unpinned_blob_pending_delete, e) inv
  | inr (b, e) ↦
      rw (mark_unpinned_blob_pending_delete, e)
        (retire-IsConsistent k _ db (λ at q. retired_free k now db b {at = at} q) inv)
]

delete_collectible_batch-IsConsistent :
    (fails : String → Bool) (cs : List BlobGcCandidate) (now : ℕ) (db : Database)
    → IsConsistent db
    → IsConsistent (delete_collectible_batch fails cs now db).db
unfolding delete_collectible_batch
delete_collectible_batch-IsConsistent fails [] now db inv = inv
delete_collectible_batch-IsConsistent fails (c ∷ cs) now db inv =
    let ids = select (λ k. not (fails k)) (blob_ids (c ∷ cs)) in
    elim (Bool-cases (leb (length ids) 0)) [
      | inl e ↦ rw e inv
      | inr e ↦ rw e (delete_collectible_blob_records-IsConsistent ids now db inv)
    ]

gc_batch-IsConsistent :
    (fails : String → Bool) (now : ℕ) (db : Database)
    → IsConsistent db
    → IsConsistent (gc_batch fails now db).db
unfolding gc_batch
gc_batch-IsConsistent fails now db inv =
    delete_collectible_batch-IsConsistent fails _ now (expire_entry_versions now db)
      (expire_entry_versions-IsConsistent now db inv)

-- A collection keeps a consistent database consistent, whatever the object store answers and whether
-- it completes or fails.
pub run_gc-IsConsistent :
    (may_collect : Bool) (fails : String → Bool) (now : ℕ) (db : Database)
    → IsConsistent db
    → IsConsistent (run_gc may_collect fails now db).db
unfolding run_gc
run_gc-IsConsistent false fails now db inv = inv
run_gc-IsConsistent true fails now db inv = elim (Bool-cases (gc_batch fails now db).failed) [
  | inl e ↦ rw (run_gc, e) (gc_batch-IsConsistent fails now db inv)
  | inr e ↦
      rw (run_gc, e)
        (record_gc_completed-IsConsistent now _ (gc_batch-IsConsistent fails now db inv))
]

collect_candidates-IsConsistent :
    (ids : List String) (now : ℕ) (db : Database)
    → IsConsistent db
    → IsConsistent (collect_candidates ids now db).1
unfolding collect_candidates
collect_candidates-IsConsistent [] now db inv = inv
collect_candidates-IsConsistent (k ∷ ks) now db inv =
    let db₁ = mark_unpinned_blob_pending_delete k now db in
    let rest =
      collect_candidates-IsConsistent ks now db₁
        (mark_unpinned_blob_pending_delete-IsConsistent k now db inv) in
    elim (Option-cases (read_collectible_blob k now db₁)) [
      | inl e ↦ rw (collect_candidates, e) rest
      | inr (c, e) ↦ elim (Bool-cases (is_collectible now c)) [
        | inl f ↦ rw (collect_candidates, e, f) rest
        | inr f ↦ rw (collect_candidates, e, f) rest
      ]
    ]

collect_distinct-IsConsistent :
    (fails : String → Bool) (ids : List String) (now : ℕ) (db : Database)
    → IsConsistent db
    → IsConsistent (collect_distinct fails ids now db).0
unfolding collect_distinct
collect_distinct-IsConsistent fails [] now db inv = inv
collect_distinct-IsConsistent fails (k ∷ ks) now db inv =
    delete_collectible_batch-IsConsistent fails _ now _ (
      collect_candidates-IsConsistent (k ∷ ks) now _
        (expire_entry_versions-IsConsistent now db inv))

-- The collection of the blobs that purged entries have left, which first retires those that nothing
-- pins, keeps a consistent database consistent.
pub collect_purged_blobs-IsConsistent :
    (may_collect : Bool) (fails : String → Bool) (ids : List String) (now : ℕ) (db : Database)
    → IsConsistent db
    → IsConsistent (collect_purged_blobs may_collect fails ids now db).0
unfolding collect_purged_blobs
collect_purged_blobs-IsConsistent false fails ids now db inv = inv
collect_purged_blobs-IsConsistent true fails ids now db inv =
    collect_distinct-IsConsistent fails (distinct [] ids) now db inv
