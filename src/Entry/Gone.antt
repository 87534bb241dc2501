-- ===== src/Entry/Gone.antt =====
-- What a purge takes away: the whole history of every entry whose purge is accepted.
use synch.Common.{
  ℕ, ◌≡◌, ◌∙◌, ap, subst, String, ◌==◌, Bool, true, false, List, [], ◌∷◌, arith, inl, inr,
  Bool-cases, Option-cases, is_some, any, distinct, Has,
}
use synch.Domain.EntryPolicy.{
  DeletedEntryPurgeDecision, accepted, not_found, not_deleted, no_history, stale,
}
use synch.Storage.Table.{any-delete_where, any-delete_where_self}
use synch.Storage.Rows.{Database, EntryVersionRow}
use synch.Storage.State.{read_sync_pause}
use synch.Storage.Versions.{delete_entry_versions, expire_entry_versions}
use synch.Blob.Gc.{collect_candidates, collect_distinct, collect_purged_blobs}
use synch.Entry.Purge.{
  PurgeRequest, PurgeResult, purge_accepted, purge_decision, purge_writes, purge_one, purge_loop,
  purge_deleted_entries,
}
use synch.Entry.Purged.{batch_versions, candidates_versions}

abbrev pub of_entry : String → EntryVersionRow → Bool
of_entry k v = v.entry_id == k

module _ (k : String) where
  abbrev pub IsAccepted : PurgeResult → Type 0
  IsAccepted r = r ≡ purge_accepted k

  -- No version of the entry is there.
  abbrev pub HasNoHistory : Database → Type 0
  HasNoHistory db = any (of_entry k) db.versions ≡ false

  writes-keep :
      (r : PurgeRequest) (d : DeletedEntryPurgeDecision) (db : Database)
      → HasNoHistory db
      → HasNoHistory (purge_writes r d db).db
  unfolding delete_entry_versions
  writes-keep r accepted db h = any-delete_where (of_entry k) _ db.versions h
  writes-keep r not_found db h = h
  writes-keep r not_deleted db h = h
  writes-keep r no_history db h = h
  writes-keep r (stale n) db h = h

  writes-gone :
      (r : PurgeRequest) (d : DeletedEntryPurgeDecision) (db : Database)
      → IsAccepted (purge_writes r d db).result
      → HasNoHistory (purge_writes r d db).db
  unfolding delete_entry_versions
  writes-gone r accepted db h =
      let same : r.entry_id ≡ k = ground (arith, h) in
      subst (λ x. any (of_entry x) (delete_entry_versions r.entry_id db).versions ≡ false) same
        (any-delete_where_self (of_entry r.entry_id) db.versions)
  writes-gone r not_found db h = absurd (ground (arith, h))
  writes-gone r not_deleted db h = absurd (ground (arith, h))
  writes-gone r no_history db h = absurd (ground (arith, h))
  writes-gone r (stale n) db h = absurd (ground (arith, h))

  purge_loop-keep :
      (rs : List PurgeRequest) (now : ℕ) (db : Database)
      → HasNoHistory db
      → HasNoHistory (purge_loop rs now db).db
  unfolding purge_loop purge_one
  purge_loop-keep [] now db h = h
  purge_loop-keep (r ∷ rs) now db h = elim (Bool-cases (is_some (read_sync_pause db))) [
    | inl e ↦ rw (purge_loop, e) h
    | inr e ↦
        rw (purge_loop, e)
          (purge_loop-keep rs now (purge_one r now db).db
            (writes-keep r (purge_decision r now db) db h))
  ]

  purge_loop-gone :
      (rs : List PurgeRequest) (now : ℕ) (db : Database)
      → Has IsAccepted (purge_loop rs now db).results
      → HasNoHistory (purge_loop rs now db).db
  unfolding purge_loop purge_one
  purge_loop-gone [] now db h = absurd h
  purge_loop-gone (r ∷ rs) now db h = elim (Bool-cases (is_some (read_sync_pause db))) [
    | inl e ↦ absurd (rw (purge_loop, e) at h)
    | inr e ↦
        let found : Has IsAccepted
            ((purge_one r now db).result ∷ (purge_loop rs now (purge_one r now db).db).results) =
          rw (purge_loop, e) at h in
        rw (purge_loop, e)
          (elim found [
            | inl a ↦
                purge_loop-keep rs now (purge_one r now db).db
                  (writes-gone r (purge_decision r now db) db a)
            | inr a ↦ purge_loop-gone rs now (purge_one r now db).db a
          ])
  ]

  collect_distinct-keep :
      (fails : String → Bool) (ids : List String) (now : ℕ) (db : Database)
      → HasNoHistory db
      → HasNoHistory (collect_distinct fails ids now db).0
  unfolding collect_distinct expire_entry_versions
  collect_distinct-keep fails [] now db h = h
  collect_distinct-keep fails (b ∷ bs) now db h =
      let found = collect_candidates (b ∷ bs) now (expire_entry_versions now db) in
      ap (any (of_entry k)) (
        batch_versions fails found.0 now found.1
        ∙ candidates_versions (b ∷ bs) now (expire_entry_versions now db))
      ∙ any-delete_where (of_entry k) _ db.versions h

  collect_purged_blobs-keep :
      (may_collect : Bool) (fails : String → Bool) (ids : List String) (now : ℕ) (db : Database)
      → HasNoHistory db
      → HasNoHistory (collect_purged_blobs may_collect fails ids now db).0
  unfolding collect_purged_blobs
  collect_purged_blobs-keep false fails ids now db h = h
  collect_purged_blobs-keep true fails ids now db h =
      collect_distinct-keep fails (distinct [] ids) now db h

-- An entry whose purge is reported as accepted has no version left, retained or not, whatever else the
-- call purges or collects.
pub purge_deleted_entries-HasNoHistory :
    (may_collect : Bool) (fails : String → Bool) (rs : List PurgeRequest) (now collect_now : ℕ)
    (db : Database) (k : String)
    → Has (IsAccepted k) (purge_deleted_entries may_collect fails rs now collect_now db).results
    → HasNoHistory k (purge_deleted_entries may_collect fails rs now collect_now db).db
unfolding purge_deleted_entries
purge_deleted_entries-HasNoHistory may_collect fails rs now collect_now db k h =
    let done = purge_loop rs now db in
    elim (Option-cases done.error) [
      | inl n ↦
          rw (purge_deleted_entries, n)
            (collect_purged_blobs-keep k may_collect fails (distinct [] done.candidate_blob_ids)
              collect_now done.db
              (purge_loop-gone k rs now db (rw (purge_deleted_entries, n) at h)))
      | inr (x, n) ↦ absurd (rw (purge_deleted_entries, n) at h)
    ]
