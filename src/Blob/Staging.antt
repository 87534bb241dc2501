-- ===== src/Blob/Staging.antt =====
-- What `stageBlob` does to the vault's database: the record of the upload, the storage counter and the
-- quota.
use synch.Common.{
  ℕ, ◌+◌, ◌≤◌, ◌<◌, ◌≡◌, refl, sym, ◌∙◌, ap, subst, String, ◌==◌, eq_refl, Bool, true, false,
  Option, none, some, List, [], ◌∷◌, arith, Result, ok, err, >>=-eq-ok, ok_inj, ◌⊎◌, inl, inr,
  Bool-cases, Option-cases, any, find?, ltb,
}
use synch.Domain.BlobPolicy.{
  staged, BlobStageDecision, sync_paused, rejected, stage, decide_blob_stage, decide_new,
  decide_existing,
}
use synch.Domain.BlobGcPolicy.{is_blob_pinned}
use synch.Storage.Table.{update_where, upsert_where, find?-any, any-find?, find?-append}
use synch.Storage.Rows.{Database, BlobRow, CoordinatorState}
use synch.Storage.State.{
  adjust_storage_used_bytes, pause_sync, read_sync_pause, read_vault_id, read_vault_limits,
  read_storage_used_bytes,
}
use synch.Storage.References.{read_blob_reference_facts}
use synch.Storage.Blobs.{read_blob, has_blob_id, persist_stage, StagePersist, staged_row, restaged}
use synch.Storage.Invariant.{IsConsistent}
use synch.Storage.Invariant.Backing.{AllBacked, AllBacked-append, AllBacked-touch_unreferenced}
use synch.Storage.Invariant.Accounting.{
  IsCounted, total_size, total_size-insert, total_size-update_where,
}
use synch.Storage.Invariant.Sequence.{IsSequenced}
use synch.Blob.Records.{
  stage_decision, stage_writes, stage_blob_record, is_pinned_row, is_initialized,
}
use synch.Blob.Service.{stage_blob, after_stage}
use synch.Blob.Consistency.{unpinned_free}

-- The facts on which a decision to stage rests.
record IsStaged (k : String) (size now delta : ℕ) (s : CoordinatorState) (db : Database)
    : Type 0 where
  pub stored : db.state ≡ some s
  pub case :
      ((read_blob k db ≡ none)
        × (delta ≡ size)
        × (0 < s.storage_limit_bytes → s.storage_used_bytes + size ≤ s.storage_limit_bytes))
      ⊎ ((r : BlobRow) × (read_blob k db ≡ some r)
          × (delta ≡ 0)
          × (r.size_bytes ≡ size)
          × (is_blob_pinned (read_blob_reference_facts k now db) ≡ false))

stage_decision-IsStaged :
    (k : String) (size now : ℕ) (db : Database) {delta : ℕ}
    → stage_decision k size now db ≡ ok (stage delta)
    → (s : CoordinatorState) × IsStaged k size now delta s db
unfolding stage_decision is_pinned_row read_vault_limits read_storage_used_bytes decide_blob_stage
    decide_new decide_existing
stage_decision-IsStaged k size now db {delta} h = elim (Option-cases db.state) [
  | inl e ↦ absurd (ground arith)
  | inr (s, e) ↦ elim (Option-cases (read_blob k db)) [
    | inl n ↦ (s, record { stored = e; case = inl (n, ground arith, λ p. ground arith) })
    | inr (r, n) ↦
        (s, record { stored = e; case = inr (r, n, ground arith, ground arith, ground arith) })
  ]
]

-- The writes of an upload that is let through, by whether the blob is known.
module _ (k : String) (size now delete_after : ℕ) where
  abbrev input : StagePersist
  input = record { size_bytes = size; now = now; delete_after = delete_after }

  abbrev rows_after : List BlobRow → List BlobRow
  rows_after = upsert_where (has_blob_id k) (staged_row k input) (restaged input)

  -- What the writes leave of the state and of the blobs.
  record Written (delta : ℕ) (db db' : Database) : Type 0 where
    pub blobs : db'.blobs ≡ rows_after db.blobs
    pub entries : db'.entries ≡ db.entries
    pub versions : db'.versions ≡ db.versions
    pub state :
        (s : CoordinatorState)
        → db.state ≡ some s
        → (t : CoordinatorState) × (db'.state ≡ some t)
          × (t.storage_used_bytes ≡ s.storage_used_bytes + delta)
          × (t.current_cursor ≡ s.current_cursor)
          × (t.storage_limit_bytes ≡ s.storage_limit_bytes)

  stage_writes-Written :
      (delta : ℕ) (db : Database)
      → Written delta db (stage_writes k size now delete_after (stage delta) db)
  unfolding stage_writes persist_stage adjust_storage_used_bytes
  stage_writes-Written delta db = elim (Bool-cases (ltb 0 delta)) [
    | inl e ↦ rw e (record {
      blobs = refl;
      entries = refl;
      versions = refl;
      state = λ s q. (
        record s { storage_used_bytes = s.storage_used_bytes + delta },
        rw q refl,
        refl,
        refl,
        refl,
      );
    })
    | inr e ↦ rw e (record {
      blobs = refl;
      entries = refl;
      versions = refl;
      state = λ s q. (s, q, omega (arith, zero_of delta e), refl, refl);
    })
  ]
    where
      zero_of : (n : ℕ) → ltb 0 n ≡ false → n ≡ 0
      zero_of n h = ground arith

  written-backed :
      (delta : ℕ) (s : CoordinatorState) (db : Database)
      → IsStaged k size now delta s db
      → IsConsistent db
      → AllBacked (rows_after db.blobs) db.entries
        × (total_size (rows_after db.blobs) ≡ total_size db.blobs + delta)
  unfolding upsert_where read_blob
  written-backed delta s db st inv = elim st.case [
    | inl (n, d, room) ↦
        let fresh : any (has_blob_id k) db.blobs ≡ false = find?-any (has_blob_id k) db.blobs n in
        (
          rw fresh (AllBacked-append db.blobs (staged_row k input) db.entries inv.backed),
          rw d (
              total_size-insert (has_blob_id k) (staged_row k input) (restaged input) db.blobs
                fresh),
        )
    | inr (r, n, d, same, free) ↦
        let known : any (has_blob_id k) db.blobs ≡ true =
          (any-find? (has_blob_id k) db.blobs {x = r} n).0 in
        (
          rw known (
              AllBacked-touch_unreferenced k (restaged input) db.blobs db.entries (λ r. refl)
                (unpinned_free k now db free) inv.backed),
          rw (known, d)
              (omega (
                arith,
                total_size-update_where (has_blob_id k) (restaged input) db.blobs (λ r. refl),
              )),
        )
  ]

  stage_writes-IsConsistent :
      (delta : ℕ) (s : CoordinatorState) (db : Database)
      → IsStaged k size now delta s db
      → IsConsistent db
      → IsConsistent (stage_writes k size now delete_after (stage delta) db)
  stage_writes-IsConsistent delta s db st inv =
      let w = stage_writes-Written delta db in
      let (t, et, used, cursor, limit) = w.state s st.stored in
      let (backed, total) = written-backed delta s db st inv in
      let counted₀ : IsCounted (some s) db.blobs =
        subst (λ x. IsCounted x db.blobs) st.stored inv.counted in
      let sequenced₀ : IsSequenced (some s) db.entries =
        subst (λ x. IsSequenced x db.entries) st.stored inv.sequenced in
      record {
        backed = rw (w.blobs, w.entries) backed;
        counted = rw (et, w.blobs) (omega (arith, used, total, counted₀));
        sequenced = rw (et, w.entries, cursor) sequenced₀;
      }

pause_sync-IsConsistent :
    (now : ℕ) (reason : String) (db : Database)
    → IsConsistent db
    → IsConsistent (pause_sync now reason db)
unfolding pause_sync
pause_sync-IsConsistent now reason db inv = elim (Option-cases db.state) [
  | inl e ↦ record {
    backed = inv.backed;
    counted = rw e (rw e at inv.counted);
    sequenced = rw e (rw e at inv.sequenced);
  }
  | inr (s, e) ↦ record {
    backed = inv.backed;
    counted = rw e (rw e at inv.counted);
    sequenced = rw e (rw e at inv.sequenced);
  }
]

-- The outcome of a staging transaction: what it decided and what it left.
stage_blob_record-cases :
    (k : String) (size now delete_after : ℕ) (db : Database) {r : BlobStageDecision × Database}
    → stage_blob_record k size now delete_after db ≡ ok r
    → ((reason : String) × (r ≡ (sync_paused reason, db)))
      ⊎ (stage_decision k size now db ≡ ok r.0)
        × (r.1 ≡ stage_writes k size now delete_after r.0 db)
unfolding stage_blob_record
stage_blob_record-cases k size now delete_after db {r} h =
    elim (Option-cases (read_sync_pause db)) [
      | inr (pause, e) ↦ inl (pause.reason, sym (ok_inj (rw (stage_blob_record, e) at h)))
      | inl e ↦ elim (Bool-cases (is_initialized (read_vault_id db))) [
        | inr f ↦ absurd (ground arith)
        | inl f ↦
            let h' = rw (stage_blob_record, e, f) at h in
            let (d, ed, eq) = >>=-eq-ok (stage_decision k size now db) _ {b = r} h' in
            inr (
              ed ∙ ap (λ (x : BlobStageDecision × Database). ok x.0) (ok_inj eq),
              subst
                  (λ (x : BlobStageDecision × Database).
                    x.1 ≡ stage_writes k size now delete_after x.0 db)
                  (ok_inj eq) refl,
            )
      ]
    ]

-- What holds after a staging transaction: a property of the database before it that a pause keeps and
-- that an upload which is let through keeps.
stage_blob-keeps :
    (P : Database → Type 0) (k : String) (size now grace : ℕ) (db : Database)
    → P db
    → ((reason : String) → P (pause_sync now reason db))
    → ((delta : ℕ) (s : CoordinatorState)
        → IsStaged k size now delta s db
        → P (stage_writes k size now (now + grace) (stage delta) db))
    → P (stage_blob true k size now grace db).db
unfolding stage_blob stage_writes
stage_blob-keeps P k size now grace db p paused written =
    go (stage_blob_record k size now (now + grace) db) refl
  where
    decided :
        (d : BlobStageDecision)
        → stage_decision k size now db ≡ ok d
        → P (stage_writes k size now (now + grace) d db)
    decided (sync_paused reason) e = paused reason
    decided (rejected r) e = p
    decided (stage delta) e =
        let (s, st) = stage_decision-IsStaged k size now db {delta = delta} e in written delta s st

    go :
        (r : Result (BlobStageDecision × Database))
        → stage_blob_record k size now (now + grace) db ≡ r
        → P (stage_blob true k size now grace db).db
    go (err x) e = rw (stage_blob, e) p
    go (ok r) e =
        rw (stage_blob, e)
          (elim (stage_blob_record-cases k size now (now + grace) db {r = r} e) [
            | inl (reason, q) ↦ rw q p
            | inr (d, q) ↦ rw q (decided r.0 d)
          ])

-- An upload's staging keeps a consistent database consistent, whatever it decides: a new blob's size
-- joins the storage counter, and no blob that an entry points at loses its live state.
pub stage_blob-IsConsistent :
    (token_ok : Bool) (k : String) (size now grace : ℕ) (db : Database)
    → IsConsistent db
    → IsConsistent (stage_blob token_ok k size now grace db).db
unfolding stage_blob
stage_blob-IsConsistent false k size now grace db inv = inv
stage_blob-IsConsistent true k size now grace db inv =
    stage_blob-keeps IsConsistent k size now grace db inv
      (λ reason. pause_sync-IsConsistent now reason db inv)
      (λ delta s st. stage_writes-IsConsistent k size now (now + grace) delta s db st inv)

-- The storage counter is within the vault's limit, where it has one (0 stands for none).
abbrev pub StateWithinQuota : Option CoordinatorState → Type 0
StateWithinQuota none = Unit {0}
StateWithinQuota (some s) = 0 < s.storage_limit_bytes → s.storage_used_bytes ≤ s.storage_limit_bytes

-- An upload's staging never takes the storage counter over the vault's limit.
pub stage_blob-WithinQuota :
    (token_ok : Bool) (k : String) (size now grace : ℕ) (db : Database)
    → StateWithinQuota db.state
    → StateWithinQuota (stage_blob token_ok k size now grace db).db.state
unfolding stage_blob pause_sync
stage_blob-WithinQuota false k size now grace db h = h
stage_blob-WithinQuota true k size now grace db h =
    stage_blob-keeps (λ x. StateWithinQuota x.state) k size now grace db h (λ reason. paused reason)
      (λ delta s st. within delta s st)
  where
    paused : (reason : String) → StateWithinQuota (pause_sync now reason db).state
    paused reason = elim (Option-cases db.state) [ inl e ↦ rw e tt | inr (s, e) ↦ rw e (rw e at h) ]

    within :
        (delta : ℕ) (s : CoordinatorState)
        → IsStaged k size now delta s db
        → StateWithinQuota (stage_writes k size now (now + grace) (stage delta) db).state
    within delta s st =
        let w = stage_writes-Written k size now (now + grace) delta db in
        let (t, et, used, cursor, limit) = w.state s st.stored in
        let h₀ : StateWithinQuota (some s) = subst StateWithinQuota st.stored h in
        rw et (elim st.case [
          | inl (n, d, room) ↦ λ p. omega (arith, used, limit, d, room (omega (arith, limit)))
          | inr (r, n, d, same, free) ↦
              λ p. omega (arith, used, limit, d, h₀ (omega (arith, limit)))
        ])

find?-restaged :
    (k : String) (i : StagePersist) (rs : List BlobRow) {r : BlobRow}
    → find? (has_blob_id k) rs ≡ some r
    → find? (has_blob_id k) (update_where (has_blob_id k) (restaged i) rs) ≡ some (restaged i r)
unfolding find? update_where
find?-restaged k i [] {r} h = cc
find?-restaged k i (x ∷ xs) {r} h = elim (Bool-cases (x.blob_id == k)) [
  | inl e ↦ let same : x ≡ r = ground arith in rw (e, e, same) refl
  | inr e ↦ rw (e, e) (find?-restaged k i xs {r = r} (rw e at h))
]

-- The record of an upload that was let through.
abbrev pub IsRecordedUpload : String → ℕ → ℕ → ℕ → Database → Type 0
IsRecordedUpload k size now delete_after db =
    (r : BlobRow) × (read_blob k db ≡ some r)
    × (r.state ≡ staged)
    × (r.size_bytes ≡ size)
    × (r.last_uploaded_at ≡ now)
    × (r.delete_after ≡ some delete_after)

stage_writes-recorded :
    (k : String) (size now delete_after delta : ℕ) (s : CoordinatorState) (db : Database)
    → IsStaged k size now delta s db
    → IsRecordedUpload k size now delete_after
        (stage_writes k size now delete_after (stage delta) db)
unfolding upsert_where read_blob find?
stage_writes-recorded k size now delete_after delta s db st =
    let i : StagePersist = record { size_bytes = size; now = now; delete_after = delete_after } in
    let w = stage_writes-Written k size now delete_after delta db in
    elim st.case [
      | inl (n, d, room) ↦
          let fresh : any (has_blob_id k) db.blobs ≡ false = find?-any (has_blob_id k) db.blobs n in
          (
            staged_row k i,
            rw
                (
                  w.blobs,
                  fresh,
                  find?-append (has_blob_id k) db.blobs (staged_row k i ∷ []) n,
                  eq_refl k,
                )
                refl,
            refl,
            refl,
            refl,
            refl,
          )
      | inr (r, n, d, same, free) ↦
          let known : any (has_blob_id k) db.blobs ≡ true =
            (any-find? (has_blob_id k) db.blobs {x = r} n).0 in
          (
            restaged i r,
            rw (w.blobs, known) (find?-restaged k i db.blobs {r = r} n),
            refl,
            same,
            refl,
            refl,
          )
    ]

-- If an upload is let through, the blob is recorded as staged with the upload's size and time, to be
-- collected after the grace period.
pub stage_blob-recorded :
    (token_ok : Bool) (k : String) (size now grace : ℕ) (db : Database)
    → (stage_blob token_ok k size now grace db).error ≡ none
    → IsRecordedUpload k size now (now + grace) (stage_blob token_ok k size now grace db).db
unfolding stage_blob stage_writes
stage_blob-recorded false k size now grace db h = absurd (ground arith)
stage_blob-recorded true k size now grace db h =
    go (stage_blob_record k size now (now + grace) db) refl
  where
    decided :
        (d : BlobStageDecision)
        → stage_decision k size now db ≡ ok d
        → (after_stage now grace d).0 ≡ none
        → IsRecordedUpload k size now (now + grace) (stage_writes k size now (now + grace) d db)
    decided (sync_paused reason) e n = absurd (ground arith)
    decided (rejected r) e n = absurd (ground arith)
    decided (stage delta) e n =
        let (s, st) = stage_decision-IsStaged k size now db {delta = delta} e in
        stage_writes-recorded k size now (now + grace) delta s db st

    go :
        (r : Result (BlobStageDecision × Database))
        → stage_blob_record k size now (now + grace) db ≡ r
        → IsRecordedUpload k size now (now + grace) (stage_blob true k size now grace db).db
    go (err x) e = absurd (ground arith)
    go (ok r) e =
        let clear : (after_stage now grace r.0).0 ≡ none = rw (stage_blob, e) at h in
        rw (stage_blob, e)
          (elim (stage_blob_record-cases k size now (now + grace) db {r = r} e) [
            | inl (reason, q) ↦ absurd (ground arith)
            | inr (d, q) ↦ rw q (decided r.0 d clear)
          ])
