-- ===== src/Entry/Purged.antt =====
-- What a purge leaves: the vault stays consistent, and the history of an entry that is not deleted
-- is not touched.
use synch.Common.{
  ℕ, ◌≡◌, refl, sym, ◌∙◌, ap, String, ◌==◌, eq_iff, Bool, true, false, not, ◌&&◌, some, List, [],
  ◌∷◌, arith, inl, inr, Bool-cases, Option-cases, select, is_some, leb, ltb, distinct, length,
}
use synch.Domain.EntryPolicy.{
  DeletedEntryPurgeDecision, decide_deleted_entry_purge, accepted, not_found, not_deleted,
  no_history, stale,
}
use synch.Domain.BlobGcPolicy.{PendingDeleteDecision, mark_pending_delete, retain}
use synch.Storage.Table.{delete_where}
use synch.Storage.Rows.{Database, EntryRow, EntryVersionRow}
use synch.Storage.State.{read_sync_pause}
use synch.Storage.Entries.{read_entry}
use synch.Storage.Blobs.{read_blob, update_state, delete_collectible_blobs}
use synch.Storage.Versions.{delete_entry_versions, expire_entry_versions}
use synch.Storage.GcQueries.{BlobGcCandidate, read_collectible_blob}
use synch.Storage.Invariant.{IsConsistent}
use synch.Blob.Records.{mark_unpinned_blob_pending_delete, retire, delete_collectible_blob_records}
use synch.Blob.Consistency.{account_parts}
use synch.Blob.Collection.{collect_purged_blobs-IsConsistent}
use synch.Blob.Gc.{
  collect_candidates, collect_distinct, collect_purged_blobs, delete_collectible_batch,
  is_collectible, blob_ids,
}
use synch.Entry.Purge.{
  PurgeRequest, purge_decision, purge_writes, purge_one, purge_loop, purge_deleted_entries,
}

-- The tables that a purge's transactions leave alone.
record SameTables (db db' : Database) : Type 0 where
  pub entries : db'.entries ≡ db.entries
  pub blobs : db'.blobs ≡ db.blobs
  pub state : db'.state ≡ db.state

purge_writes-SameTables :
    (r : PurgeRequest) (d : DeletedEntryPurgeDecision) (db : Database)
    → SameTables db (purge_writes r d db).db
unfolding delete_entry_versions
purge_writes-SameTables r accepted db = record { entries = refl; blobs = refl; state = refl }
purge_writes-SameTables r not_found db = record { entries = refl; blobs = refl; state = refl }
purge_writes-SameTables r not_deleted db = record { entries = refl; blobs = refl; state = refl }
purge_writes-SameTables r no_history db = record { entries = refl; blobs = refl; state = refl }
purge_writes-SameTables r (stale n) db = record { entries = refl; blobs = refl; state = refl }

purge_loop-SameTables :
    (rs : List PurgeRequest) (now : ℕ) (db : Database) → SameTables db (purge_loop rs now db).db
unfolding purge_loop purge_one
purge_loop-SameTables [] now db = record { entries = refl; blobs = refl; state = refl }
purge_loop-SameTables (r ∷ rs) now db = elim (Bool-cases (is_some (read_sync_pause db))) [
  | inl e ↦ rw (purge_loop, e) (record { entries = refl; blobs = refl; state = refl })
  | inr e ↦
      let one = purge_writes-SameTables r (purge_decision r now db) db in
      let rest = purge_loop-SameTables rs now (purge_one r now db).db in
      rw (purge_loop, e)
        (record {
          entries = rest.entries ∙ one.entries;
          blobs = rest.blobs ∙ one.blobs;
          state = rest.state ∙ one.state;
        })
]

SameTables-IsConsistent :
    (db db' : Database) → SameTables db db' → IsConsistent db → IsConsistent db'
SameTables-IsConsistent db db' s inv = record {
  backed = rw (s.entries, s.blobs) inv.backed;
  counted = rw (s.state, s.blobs) inv.counted;
  sequenced = rw (s.state, s.entries) inv.sequenced;
}

-- A purge keeps a consistent database consistent.
pub purge_deleted_entries-IsConsistent :
    (may_collect : Bool) (fails : String → Bool) (rs : List PurgeRequest) (now collect_now : ℕ)
    (db : Database)
    → IsConsistent db
    → IsConsistent (purge_deleted_entries may_collect fails rs now collect_now db).db
unfolding purge_deleted_entries
purge_deleted_entries-IsConsistent may_collect fails rs now collect_now db inv =
    let done = purge_loop rs now db in
    let after = SameTables-IsConsistent db done.db (purge_loop-SameTables rs now db) inv in
    elim (Option-cases done.error) [
      | inl e ↦
          rw (purge_deleted_entries, e)
            (collect_purged_blobs-IsConsistent may_collect fails
              (distinct [] done.candidate_blob_ids) collect_now done.db after)
      | inr (x, e) ↦ rw (purge_deleted_entries, e) after
    ]

-- The versions of an entry that are retained at `now`.
abbrev pub retained_versions : String → ℕ → Database → List EntryVersionRow
retained_versions k now db = select (λ v. v.entry_id == k && ltb now v.expires_at) db.versions

select-delete :
    (p q : EntryVersionRow → Bool) (vs : List EntryVersionRow)
    → ((v : EntryVersionRow) → q v ≡ true → p v ≡ false)
    → select q (delete_where p vs) ≡ select q vs
unfolding select delete_where
select-delete p q [] h = refl
select-delete p q (v ∷ vs) h = elim (Bool-cases (q v)) [
  | inl e ↦ rw (e, h v e, e) (ap (λ x. v ∷ x) (select-delete p q vs h))
  | inr e ↦ elim (Bool-cases (p v)) [
    | inl f ↦ rw (e, f) (select-delete p q vs h)
    | inr f ↦ rw (e, f, e) (select-delete p q vs h)
  ]
]

-- A purge that is accepted is one of a deleted entry.
accepted_deleted :
    (r : PurgeRequest) (now : ℕ) (db : Database) (e : EntryRow)
    → read_entry r.entry_id db ≡ some e
    → purge_decision r now db ≡ accepted
    → e.deleted ≡ true
unfolding purge_decision decide_deleted_entry_purge
accepted_deleted r now db e h a = ground arith

purge_one-retained :
    (r : PurgeRequest) (now collect_now : ℕ) (db : Database) (k : String) (e : EntryRow)
    → read_entry k db ≡ some e
    → e.deleted ≡ false
    → retained_versions k collect_now (purge_one r now db).db ≡ retained_versions k collect_now db
unfolding purge_one delete_entry_versions
purge_one-retained r now collect_now db k e h live = go (purge_decision r now db) refl
  where
    go :
        (d : DeletedEntryPurgeDecision)
        → purge_decision r now db ≡ d
        → retained_versions k collect_now (purge_writes r d db).db
          ≡ retained_versions k collect_now db
    go accepted q =
        select-delete (λ v. v.entry_id == r.entry_id)
          (λ v. v.entry_id == k && ltb collect_now v.expires_at) db.versions
          (λ v t. elim (Bool-cases (v.entry_id == r.entry_id)) [
            | inr f ↦ f
            | inl f ↦
                let same : r.entry_id ≡ k =
                  sym ((eq_iff v.entry_id r.entry_id).0 f)
                  ∙ (eq_iff v.entry_id k).0 (ground arith) in
                absurd (
                  ground
                    (arith, accepted_deleted r now db e (ap (λ x. read_entry x db) same ∙ h) q))
          ])
    go not_found q = refl
    go not_deleted q = refl
    go no_history q = refl
    go (stale n) q = refl

purge_loop-retained :
    (rs : List PurgeRequest) (now collect_now : ℕ) (db : Database) (k : String) (e : EntryRow)
    → read_entry k db ≡ some e
    → e.deleted ≡ false
    → retained_versions k collect_now (purge_loop rs now db).db ≡ retained_versions k collect_now db
unfolding purge_loop read_entry purge_one
purge_loop-retained [] now collect_now db k e h live = refl
purge_loop-retained (r ∷ rs) now collect_now db k e h live =
    elim (Bool-cases (is_some (read_sync_pause db))) [
      | inl p ↦ rw (purge_loop, p) refl
      | inr p ↦
          let one = purge_writes-SameTables r (purge_decision r now db) db in
          rw (purge_loop, p)
            (purge_loop-retained rs now collect_now (purge_one r now db).db k e (rw one.entries h)
                live
              ∙ purge_one-retained r now collect_now db k e h live)
    ]

pub batch_versions :
    (fails : String → Bool) (cs : List BlobGcCandidate) (now : ℕ) (db : Database)
    → (delete_collectible_batch fails cs now db).db.versions ≡ db.versions
unfolding delete_collectible_batch delete_collectible_blob_records delete_collectible_blobs
batch_versions fails [] now db = refl
batch_versions fails (c ∷ cs) now db =
    let ids = select (λ k. not (fails k)) (blob_ids (c ∷ cs)) in
    let gone = delete_collectible_blobs ids now db in
    elim (Bool-cases (leb (length ids) 0)) [
      | inl e ↦ rw (delete_collectible_batch, e) refl
      | inr e ↦ rw (delete_collectible_batch, e) (account_parts gone.0 gone.1).2
    ]

mark_versions :
    (k : String) (now : ℕ) (db : Database)
    → (mark_unpinned_blob_pending_delete k now db).versions ≡ db.versions
unfolding mark_unpinned_blob_pending_delete
mark_versions k now db = elim (Option-cases (read_blob k db)) [
  | inl e ↦ rw (mark_unpinned_blob_pending_delete, e) refl
  | inr (b, e) ↦ rw (mark_unpinned_blob_pending_delete, e) (retire_versions _)
]
  where
    retire_versions : (d : PendingDeleteDecision) → (retire k d db).versions ≡ db.versions
    retire_versions (mark_pending_delete at) = unfold update_state in refl
    retire_versions (retain reason) = refl

pub candidates_versions :
    (ids : List String) (now : ℕ) (db : Database)
    → (collect_candidates ids now db).1.versions ≡ db.versions
unfolding collect_candidates
candidates_versions [] now db = refl
candidates_versions (k ∷ ks) now db =
    let db₁ = mark_unpinned_blob_pending_delete k now db in
    let rest = candidates_versions ks now db₁ ∙ mark_versions k now db in
    elim (Option-cases (read_collectible_blob k now db₁)) [
      | inl e ↦ rw (collect_candidates, e) rest
      | inr (c, e) ↦ elim (Bool-cases (is_collectible now c)) [
        | inl f ↦ rw (collect_candidates, e, f) rest
        | inr f ↦ rw (collect_candidates, e, f) rest
      ]
    ]

collect_distinct-retained :
    (fails : String → Bool) (ids : List String) (now : ℕ) (db : Database) (k : String)
    → retained_versions k now (collect_distinct fails ids now db).0 ≡ retained_versions k now db
unfolding collect_distinct expire_entry_versions
collect_distinct-retained fails [] now db k = refl
collect_distinct-retained fails (b ∷ bs) now db k =
    let found = collect_candidates (b ∷ bs) now (expire_entry_versions now db) in
    ap (λ vs. select (λ v. v.entry_id == k && ltb now v.expires_at) vs)
      (batch_versions fails found.0 now found.1
        ∙ candidates_versions (b ∷ bs) now (expire_entry_versions now db))
    ∙ select-delete (λ v. leb v.expires_at now) (λ v. v.entry_id == k && ltb now v.expires_at)
        db.versions (λ v t. ground arith)

collect_purged_blobs-retained :
    (may_collect : Bool) (fails : String → Bool) (ids : List String) (now : ℕ) (db : Database)
    (k : String)
    → retained_versions k now (collect_purged_blobs may_collect fails ids now db).0
      ≡ retained_versions k now db
unfolding collect_purged_blobs
collect_purged_blobs-retained false fails ids now db k = refl
collect_purged_blobs-retained true fails ids now db k =
    collect_distinct-retained fails (distinct [] ids) now db k

-- A purge, with the collection that follows it, keeps every version of an entry that is not deleted,
-- except those that expire by the time of the collection, whatever the purge names.
pub purge_deleted_entries-retained :
    (may_collect : Bool) (fails : String → Bool) (rs : List PurgeRequest) (now collect_now : ℕ)
    (db : Database) (k : String) (e : EntryRow)
    → read_entry k db ≡ some e
    → e.deleted ≡ false
    → retained_versions k collect_now
        (purge_deleted_entries may_collect fails rs now collect_now db).db
      ≡ retained_versions k collect_now db
unfolding purge_deleted_entries
purge_deleted_entries-retained may_collect fails rs now collect_now db k e h live =
    let done = purge_loop rs now db in
    let before = purge_loop-retained rs now collect_now db k e h live in
    elim (Option-cases done.error) [
      | inl n ↦
          rw (purge_deleted_entries, n)
            (collect_purged_blobs-retained may_collect fails (distinct [] done.candidate_blob_ids)
                collect_now done.db k
              ∙ before)
      | inr (x, n) ↦ rw (purge_deleted_entries, n) before
    ]
