-- ===== src/Blob/Reclaim.antt =====
-- What `runGc` leaves of the blobs' table: a collection that the batch's bound does not cut short
-- removes exactly the records that may go and whose objects are gone.
use synch.Common.{
  ℕ, ◌≤◌, ◌≡◌, refl, sym, ◌∙◌, ap, String, ◌==◌, eq_iff, eq_refl, Bool, true, false, not, ◌&&◌,
  some, List, [], ◌∷◌, map, arith, inl, inr, Bool-cases, select, any, find?, contains, length, take,
  leb, All, All-map, All-intro, select-All, select-All_id, select-ext,
}
use synch.Storage.Table.{delete_where}
use synch.Storage.Rows.{Database, BlobRow, EntryVersionRow}
use synch.Storage.Entries.{order_by}
use synch.Storage.Entries.Ordering.{any-order_by, length-order_by, All-order_by, take-all}
use synch.Storage.State.{record_gc_completed}
use synch.Storage.References.{has_current_reference, has_retained_history, version_retains}
use synch.Storage.Versions.{expire_entry_versions}
use synch.Storage.Blobs.{
  read_blob, has_blob_id, collectible_blob, blob_unreferenced, delete_collectible_blobs,
}
use synch.Storage.GcQueries.{BlobGcCandidate, to_candidate, deadline_order, list_collectible_blobs}
use synch.Blob.Records.{delete_collectible_blob_records}
use synch.Blob.Gc.{
  blob_ids, delete_collectible_batch, gc_batch, gc_batch_size, is_collectible, run_gc,
}
use synch.Blob.Collectability.{collectible_blob-policy}
use synch.Blob.Consistency.{account_parts}

-- Versions that have expired retain nothing.
any-expired :
    (k : String) (now : ℕ) (vs : List EntryVersionRow)
    → any (version_retains k now) (delete_where (λ v. leb v.expires_at now) vs)
      ≡ any (version_retains k now) vs
unfolding any delete_where select
any-expired k now [] = refl
any-expired k now (v ∷ vs) = elim (Bool-cases (leb v.expires_at now)) [
  | inl e ↦ ground (arith, any-expired k now vs)
  | inr e ↦ ground (arith, any-expired k now vs)
]

collectible-expired :
    (db : Database) (now : ℕ) (r : BlobRow)
    → collectible_blob (expire_entry_versions now db) now r ≡ collectible_blob db now r
unfolding collectible_blob blob_unreferenced has_current_reference has_retained_history
    expire_entry_versions
collectible-expired db now r = rw (any-expired r.blob_id now db.versions) refl

contains-ids :
    (db : Database) (now : ℕ) (k : String) (rs : List BlobRow)
    → contains (blob_ids (map (to_candidate now db) rs)) k ≡ any (has_blob_id k) rs
unfolding contains any
contains-ids db now k [] = refl
contains-ids db now k (r ∷ rs) = rw (contains-ids db now k rs) refl

contains-select :
    (p : String → Bool) (k : String) (ids : List String)
    → contains (select p ids) k ≡ (contains ids k && p k)
unfolding contains select
contains-select p k [] = refl
contains-select p k (x ∷ xs) = elim (Bool-cases (x == k)) [
  | inl e ↦
      let same : x ≡ k = (eq_iff x k).0 e in
      let pk : p x ≡ p k = ap p same in ground (arith, contains-select p k xs)
  | inr e ↦ ground (arith, contains-select p k xs)
]

-- The check in TypeScript keeps every row that the SQL condition chose.
select-candidates :
    (db : Database) (now : ℕ) (rs : List BlobRow)
    → All (λ r. collectible_blob db now r ≡ true) rs
    → select (is_collectible now) (map (to_candidate now db) rs) ≡ map (to_candidate now db) rs
unfolding select
select-candidates db now [] h = refl
select-candidates db now (r ∷ rs) h =
    rw (collectible_blob-policy db now r ∙ h.0, select-candidates db now rs h.1) refl

-- Whether a collection at `now` deletes a row.
abbrev pub goes : (String → Bool) → Database → ℕ → BlobRow → Bool
goes fails db now r = collectible_blob db now r && not (fails r.blob_id)

-- The rows of the table are deleted that were listed and whose objects are gone.
batch_blobs :
    (fails : String → Bool) (cs : List BlobGcCandidate) (now : ℕ) (db : Database)
    → (delete_collectible_batch fails cs now db).db.blobs
      ≡ delete_where
          (λ r.
            contains (select (λ k. not (fails k)) (blob_ids cs)) r.blob_id
            && collectible_blob db now r)
          db.blobs
unfolding delete_collectible_batch delete_collectible_blob_records delete_collectible_blobs
    delete_where contains select
batch_blobs fails [] now db = sym (select-All_id _ db.blobs (All-intro _ db.blobs (λ r. refl)))
batch_blobs fails (c ∷ cs) now db = go (select (λ k. not (fails k)) (blob_ids (c ∷ cs))) refl
  where
    go :
        (ids : List String)
        → select (λ k. not (fails k)) (blob_ids (c ∷ cs)) ≡ ids
        → (delete_collectible_batch fails (c ∷ cs) now db).db.blobs
          ≡ delete_where (λ r. contains ids r.blob_id && collectible_blob db now r) db.blobs
    go [] e =
        rw (delete_collectible_batch, e)
          (sym (select-All_id _ db.blobs (All-intro _ db.blobs (λ r. refl))))
    go (k ∷ ks) e =
        let some_ids : leb (length (k ∷ ks)) 0 ≡ false = ground arith in
        let p : BlobRow → Bool = λ r. contains (k ∷ ks) r.blob_id && collectible_blob db now r in
        rw (delete_collectible_batch, e, some_ids)
          (account_parts (select p db.blobs) (record db { blobs = delete_where p db.blobs })).1

-- Every row that may go was listed, if the batch's bound does not cut the list short.
listed :
    (db : Database) (now : ℕ)
    → length (select (collectible_blob db now) db.blobs) ≤ gc_batch_size
    → (k : String)
    → contains
        (blob_ids (select (is_collectible now) (list_collectible_blobs now gc_batch_size db)))
        k
      ≡ any (has_blob_id k) (select (collectible_blob db now) db.blobs)
unfolding list_collectible_blobs
listed db now few k =
    let rows = select (collectible_blob db now) db.blobs in
    let sorted = order_by deadline_order rows in
    let whole : take gc_batch_size sorted ≡ sorted =
      take-all gc_batch_size sorted (omega (arith, length-order_by deadline_order rows, few)) in
    let good = All-order_by deadline_order _ rows (select-All (collectible_blob db now) db.blobs) in
    rw (whole, select-candidates db now sorted good)
      (contains-ids db now k sorted ∙ any-order_by deadline_order (has_blob_id k) rows)

any-select-here :
    (p : BlobRow → Bool) (rs : List BlobRow)
    → All (λ r. p r ≡ true → any (has_blob_id r.blob_id) (select p rs) ≡ true) rs
unfolding any select
any-select-here p [] = tt
any-select-here p (x ∷ xs) = (
  (λ e. rw (e, eq_refl x.blob_id) refl),
  All-map _ _ xs
      (λ r h e. elim (Bool-cases (p x)) [ inl f ↦ ground (arith, h e) | inr f ↦ rw f (h e) ])
      (any-select-here p xs),
)

record_gc_blobs : (now : ℕ) (db : Database) → (record_gc_completed now db).blobs ≡ db.blobs
unfolding record_gc_completed
record_gc_blobs now db = refl

run_gc_blobs :
    (fails : String → Bool) (now : ℕ) (db : Database)
    → (run_gc true fails now db).db.blobs ≡ (gc_batch fails now db).db.blobs
unfolding run_gc
run_gc_blobs fails now db = elim (Bool-cases (gc_batch fails now db).failed) [
  | inl e ↦ rw (run_gc, e) refl
  | inr e ↦ rw (run_gc, e) (record_gc_blobs now (gc_batch fails now db).db)
]

batch_rows :
    (fails : String → Bool) (now : ℕ) (db : Database)
    → (run_gc true fails now db).db.blobs
      ≡ delete_where
          (λ r.
            contains
              (select
                (λ k. not (fails k))
                (blob_ids (
                  select
                    (is_collectible now)
                    (list_collectible_blobs now gc_batch_size (expire_entry_versions now db)))))
              r.blob_id
            && collectible_blob (expire_entry_versions now db) now r)
          db.blobs
unfolding gc_batch expire_entry_versions
batch_rows fails now db =
    run_gc_blobs fails now db
    ∙ batch_blobs fails
        (select (is_collectible now)
          (list_collectible_blobs now gc_batch_size (expire_entry_versions now db)))
        now (expire_entry_versions now db)

-- If at most a batch of rows may go, a collection removes exactly the rows that may go (staged or
-- pending deletion, past their deadline, not pinned) and whose objects the object store deleted; the others
-- stay as they are, in their order.
pub run_gc-blobs :
    (fails : String → Bool) (now : ℕ) (db : Database)
    → length (select (collectible_blob db now) db.blobs) ≤ gc_batch_size
    → (run_gc true fails now db).db.blobs ≡ delete_where (goes fails db now) db.blobs
unfolding delete_where expire_entry_versions
run_gc-blobs fails now db few =
    let expired = expire_entry_versions now db in
    let same =
      select-ext (collectible_blob expired now) (collectible_blob db now) db.blobs
        (All-intro _ db.blobs (collectible-expired db now)) in
    let few' : length (select (collectible_blob expired now) db.blobs) ≤ gc_batch_size =
      omega (arith, few, ap length same) in
    batch_rows fails now db
    ∙ select-ext _ _ db.blobs (
        All-map _ _ db.blobs
          (λ r here. elim (Bool-cases (collectible_blob db now r)) [
            | inl e ↦
                rw
                  (
                    collectible-expired db now r,
                    e,
                    contains-select (λ k. not (fails k)) r.blob_id
                        (blob_ids (
                          select (is_collectible now)
                            (list_collectible_blobs now gc_batch_size expired))),
                    listed expired now few' r.blob_id,
                    here (collectible-expired db now r ∙ e),
                  )
                  (ground arith)
            | inr e ↦ rw (collectible-expired db now r, e) (ground arith)
          ])
          (any-select-here (collectible_blob expired now) db.blobs))

find?-delete :
    (p q : BlobRow → Bool) (rs : List BlobRow) {r : BlobRow}
    → find? q rs ≡ some r
    → p r ≡ false
    → find? q (delete_where p rs) ≡ some r
unfolding find? delete_where select
find?-delete p q [] {r} h n = cc
find?-delete p q (x ∷ xs) {r} h n = elim (Bool-cases (q x)) [
  | inl e ↦
      let same : x ≡ r = ground arith in let kept : p x ≡ false = ap p same ∙ n in ground arith
  | inr e ↦ ground (arith, find?-delete p q xs {r = r})
]

-- However many rows may go: a blob record that is live, not due, pinned by an entry or by a retained
-- version, or whose object could not be deleted, is after a collection as it was before.
pub run_gc-keeps :
    (fails : String → Bool) (now : ℕ) (db : Database) (k : String) (r : BlobRow)
    → read_blob k db ≡ some r
    → goes fails db now r ≡ false
    → read_blob k (run_gc true fails now db).db ≡ some r
unfolding read_blob
run_gc-keeps fails now db k r h n =
    let ids = blob_ids (
      select (is_collectible now)
        (list_collectible_blobs now gc_batch_size (expire_entry_versions now db))) in
    rw (batch_rows fails now db) (
      find?-delete _ (has_blob_id k) db.blobs {r = r} h (
        rw (collectible-expired db now r, contains-select (λ k. not (fails k)) r.blob_id ids)
          (ground (arith, n))))
