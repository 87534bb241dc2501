-- ===== src/Vault/Repaired.antt =====
-- What a repair leaves: a consistent vault, which runs again if the repair reports no issue.
use synch.Common.{
  ℕ, ◌≡◌, refl, sym, ◌∙◌, ap, subst, String, Bool, true, false, not, ◌||◌, Option, none, some, List,
  [], ◌∷◌, arith, ok, >>=-eq-ok, ok_inj, inl, inr, Bool-cases, Option-cases, if◌then◌else◌, is_some,
  ltb, length,
}
use synch.Storage.Rows.{Database, BlobRow}
use synch.Storage.State.{
  SyncPauseState, vault_state_exists_for, read_sync_pause, clear_sync_pause,
  adjust_storage_used_bytes,
}
use synch.Domain.BlobPolicy.{BlobLifecycleState, staged, same_state}
use synch.Domain.BlobGcPolicy.{is_blob_pinned}
use synch.Storage.References.{read_blob_reference_facts}
use synch.Storage.Blobs.{read_blob, delete_blob_record, list_stale_staged_blobs}
use synch.Storage.Invariant.Accounting.{total_size}
use synch.Storage.Invariant.{IsConsistent}
use synch.Blob.Records.{
  StagedDeletion, missing, referenced, deleted, delete_unreferenced_staged_blob,
  account_for_deleted_blobs,
}
use synch.Blob.Consistency.{delete_unreferenced_staged_blob-IsConsistent}
use synch.Vault.{
  SyncRepairResult, RepairLoop, after_record, repair_one, repair_loop, stale_blobs,
  unsupported_pause, finish_repair, repair_known, repair_sync_state, empty_repair_result,
  max_repairable_stale_staged_blobs,
}

after_record_db :
    (d : StagedDeletion) (failed : Bool) (db : Database) (st : RepairLoop)
    → (after_record d failed db st).db ≡ db
after_record_db referenced failed db st = refl
after_record_db missing true db st = refl
after_record_db missing false db st = refl
after_record_db deleted true db st = refl
after_record_db deleted false db st = refl

repair_loop-IsConsistent :
    (fails : String → Bool) (now : ℕ) (bs : List BlobRow) (st : RepairLoop)
    → IsConsistent st.db
    → IsConsistent (repair_loop fails now bs st).db
unfolding repair_loop
repair_loop-IsConsistent fails now [] st inv = inv
repair_loop-IsConsistent fails now (b ∷ bs) st inv =
    repair_loop-IsConsistent fails now bs (repair_one fails now b st) (
      subst IsConsistent (sym (after_record_db _ (fails b.blob_id) _ st))
        (delete_unreferenced_staged_blob-IsConsistent b.blob_id now st.db inv))

clear_sync_pause-IsConsistent :
    (db : Database) → IsConsistent db → IsConsistent (clear_sync_pause db)
unfolding clear_sync_pause
clear_sync_pause-IsConsistent db inv = elim (Option-cases db.state) [
  | inl e ↦ record {
    backed = inv.backed;
    counted = rw e (rw e at inv.counted);
    sequenced = rw e (rw e at inv.sequenced);
  }
  | inr (s, e) ↦ record {
    backed = inv.backed;
    counted = rw e (rw e at inv.counted);
    sequenced = rw e (rw e at inv.sequenced);
  }
]

finish_repair-IsConsistent :
    (now : ℕ) (pause : Option SyncPauseState) (st : RepairLoop)
    → IsConsistent st.db
    → IsConsistent (finish_repair now pause st).1
unfolding finish_repair
finish_repair-IsConsistent now pause st inv =
    elim (Bool-cases (is_some st.issue || ltb 0 (length (stale_blobs now st.db)))) [
      | inl e ↦ rw (finish_repair, e) inv
      | inr e ↦ elim (Bool-cases (is_some pause)) [
        | inl p ↦ rw (finish_repair, e, p) (clear_sync_pause-IsConsistent st.db inv)
        | inr p ↦ rw (finish_repair, e, p) inv
      ]
    ]

repair_known-IsConsistent :
    (fails : String → Bool) (now : ℕ) (db : Database)
    → IsConsistent db
    → IsConsistent (repair_known fails now db).1
unfolding repair_known
repair_known-IsConsistent fails now db inv =
    elim (Bool-cases (unsupported_pause (read_sync_pause db))) [
      | inl e ↦ rw (repair_known, e) inv
      | inr e ↦
          elim (Bool-cases (ltb max_repairable_stale_staged_blobs (length (stale_blobs now db)))) [
            | inl f ↦ rw (repair_known, e, f) inv
            | inr f ↦
                rw (repair_known, e, f)
                  (finish_repair-IsConsistent now (read_sync_pause db) _ (
                    repair_loop-IsConsistent fails now (stale_blobs now db)
                      (record { db = db; deleted_count = 0; issue = none }) inv))
          ]
    ]

-- A repair keeps a consistent vault consistent, whichever stale blobs turn out to be referenced and
-- whichever objects cannot be deleted.
pub repair_sync_state-IsConsistent :
    (fails : String → Bool) (vault_id : String) (now : ℕ) (db : Database)
    (r : SyncRepairResult × Database)
    → IsConsistent db
    → repair_sync_state fails vault_id now db ≡ ok r
    → IsConsistent r.1
unfolding repair_sync_state
repair_sync_state-IsConsistent fails vault_id now db r inv h =
    let (known, ek, er) = >>=-eq-ok (vault_state_exists_for vault_id db) _ {b = r} h in
    subst (λ (x : SyncRepairResult × Database). IsConsistent x.1) (ok_inj er) (go known)
  where
    go :
        (k : Bool)
        → IsConsistent (if k then repair_known fails now db else (empty_repair_result, db)).1
    go true = repair_known-IsConsistent fails now db inv
    go false = inv

-- The vault has no pause after it is cleared.
clear_sync_pause-none : (db : Database) → read_sync_pause (clear_sync_pause db) ≡ none
unfolding clear_sync_pause read_sync_pause
clear_sync_pause-none db = elim (Option-cases db.state) [
  | inl e ↦ rw e refl
  | inr (s, e) ↦ rw e refl
]

stale_blobs-cleared :
    (now : ℕ) (db : Database) → stale_blobs now (clear_sync_pause db) ≡ stale_blobs now db
unfolding stale_blobs list_stale_staged_blobs clear_sync_pause
stale_blobs-cleared now db = refl

account_pause :
    (gone : List BlobRow) (db : Database)
    → read_sync_pause (account_for_deleted_blobs gone db) ≡ read_sync_pause db
unfolding account_for_deleted_blobs adjust_storage_used_bytes read_sync_pause
account_pause gone db = elim (Bool-cases (ltb 0 (total_size gone))) [
  | inr e ↦ rw (account_for_deleted_blobs, e) refl
  | inl e ↦ elim (Option-cases db.state) [
    | inl f ↦ rw (account_for_deleted_blobs, e, f) refl
    | inr (s, f) ↦ rw (account_for_deleted_blobs, e, f) refl
  ]
]

delete_record_pause :
    (k : String) (s : Option BlobLifecycleState) (db : Database)
    → read_sync_pause (delete_blob_record k s db).1 ≡ read_sync_pause db
unfolding delete_blob_record read_sync_pause
delete_record_pause k s db = refl

delete_staged_pause :
    (k : String) (now : ℕ) (db : Database)
    → read_sync_pause (delete_unreferenced_staged_blob k now db).1 ≡ read_sync_pause db
unfolding delete_unreferenced_staged_blob
delete_staged_pause k now db = elim (Option-cases (read_blob k db)) [
  | inl e ↦ rw (delete_unreferenced_staged_blob, e) refl
  | inr (b, e) ↦
      elim (Bool-cases
        (not (same_state b.state staged) || is_blob_pinned (read_blob_reference_facts k now db))) [
          | inl f ↦ rw (delete_unreferenced_staged_blob, e, f) refl
          | inr f ↦
              let gone = delete_blob_record k (some staged) db in
              rw (delete_unreferenced_staged_blob, e, f)
                (account_pause gone.0 gone.1 ∙ delete_record_pause k (some staged) db)
        ]
]

repair_loop_pause :
    (fails : String → Bool) (now : ℕ) (bs : List BlobRow) (st : RepairLoop)
    → read_sync_pause (repair_loop fails now bs st).db ≡ read_sync_pause st.db
unfolding repair_loop
repair_loop_pause fails now [] st = refl
repair_loop_pause fails now (b ∷ bs) st =
    let gone = delete_unreferenced_staged_blob b.blob_id now st.db in
    repair_loop_pause fails now bs (repair_one fails now b st)
    ∙ ap read_sync_pause (after_record_db gone.0 (fails b.blob_id) gone.1 st)
    ∙ delete_staged_pause b.blob_id now st.db

-- The vault runs, and no upload has been staged for an hour.
abbrev pub IsRepaired : ℕ → Database → Type 0
IsRepaired now db = (read_sync_pause db ≡ none) × (length (stale_blobs now db) ≡ 0)

finish_repair-IsRepaired :
    (now : ℕ) (pause : Option SyncPauseState) (st : RepairLoop)
    → read_sync_pause st.db ≡ pause
    → (finish_repair now pause st).0.issue ≡ none
    → IsRepaired now (finish_repair now pause st).1
unfolding finish_repair
finish_repair-IsRepaired now pause st same h =
    elim (Bool-cases (is_some st.issue || ltb 0 (length (stale_blobs now st.db)))) [
      | inl e ↦ absurd (ground arith)
      | inr e ↦
          let clear : length (stale_blobs now st.db) ≡ 0 = ground (arith, e) in
          elim (Option-cases pause) [
            | inr (p, q) ↦
                rw (finish_repair, e, q)
                  (clear_sync_pause-none st.db, ap length (stale_blobs-cleared now st.db) ∙ clear)
            | inl q ↦ rw (finish_repair, e, q) (same ∙ q, clear)
          ]
    ]

-- A repair of a known vault that reports no issue has the vault running, with no upload that has been
-- staged for an hour or more.
pub repair_sync_state-IsRepaired :
    (fails : String → Bool) (vault_id : String) (now : ℕ) (db : Database)
    (r : SyncRepairResult × Database)
    → vault_state_exists_for vault_id db ≡ ok true
    → repair_sync_state fails vault_id now db ≡ ok r
    → r.0.issue ≡ none
    → IsRepaired now r.1
unfolding repair_sync_state repair_known
repair_sync_state-IsRepaired fails vault_id now db r known h done =
    subst (λ (x : SyncRepairResult × Database). x.0.issue ≡ none → IsRepaired now x.1)
      (ok_inj (rw known at h)) go done
  where
    go : (repair_known fails now db).0.issue ≡ none → IsRepaired now (repair_known fails now db).1
    go q = elim (Bool-cases (unsupported_pause (read_sync_pause db))) [
      | inl e ↦ absurd (ground arith)
      | inr e ↦
          elim (Bool-cases (ltb max_repairable_stale_staged_blobs (length (stale_blobs now db)))) [
            | inl f ↦ absurd (ground arith)
            | inr f ↦
                let st₀ : RepairLoop = record { db = db; deleted_count = 0; issue = none } in
                rw (repair_known, e, f)
                  (finish_repair-IsRepaired now (read_sync_pause db)
                    (repair_loop fails now (stale_blobs now db) st₀)
                    (repair_loop_pause fails now (stale_blobs now db) st₀)
                    (rw (repair_known, e, f) at q))
          ]
    ]
