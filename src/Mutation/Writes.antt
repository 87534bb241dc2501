-- ===== src/Mutation/Writes.antt =====
-- What the writes of one applied mutation do to each table.
use synch.Common.{
  ℕ, ◌+◌, ◌≡◌, refl, subst, String, ◌==◌, eq_iff, false, not, ◌&&◌, Option, none, some, List, arith,
  ok, if◌then◌else◌, inl, inr, Bool-cases, Option-cases, any, find?,
}
use synch.Domain.BlobPolicy.{BlobLifecycleState, staged, live, pending_delete, same_state}
use synch.Domain.EntryPolicy.{ApplyPlan, same_blob}
use synch.Storage.Table.{update_where, upsert_where}
use synch.Storage.Rows.{Database, EntryRow, BlobRow}
use synch.Storage.Entries.{has_entry_id, upsert_entry}
use synch.Storage.Versions.{insert_entry_version}
use synch.Storage.References.{has_current_reference, entry_refers}
use synch.Storage.Blobs.{has_blob_id, with_state, update_state, read_blob}
use synch.Storage.Invariant.Backing.{
  AllBacked, IsBacked, IsBacked-of_live, AllBacked-update_live, AllBacked-update_unreferenced,
  unreferenced_of_state, state_in, state_in-find?, state_in-update,
}
use synch.Storage.Invariant.Accounting.{total_size, total_size-update_where}
use synch.Mutation.{
  CommitContext, CommitMutationPayload, truthy, blob_of, next_entry, capture_before, capture_auto,
  mark_live, retire_replaced, apply_writes, check_next_blob,
}

-- The tables that the history does not touch are the same.
abbrev pub SameCore : Database → Database → Type 0
SameCore a b = (a.entries ≡ b.entries) × (a.blobs ≡ b.blobs) × (a.state ≡ b.state)

pub capture_before-SameCore :
    (ctx : CommitContext) (k : String) (current : Option EntryRow) (plan : ApplyPlan) (n : ℕ)
    (db : Database)
    → SameCore (capture_before ctx k current plan n db).0 db
unfolding capture_before insert_entry_version
capture_before-SameCore ctx k none plan n db = (refl, refl, refl)
capture_before-SameCore ctx k (some e) plan n db = ground arith

pub capture_auto-SameCore :
    (ctx : CommitContext) (m : CommitMutationPayload) (plan : ApplyPlan) (n : ℕ) (db : Database)
    → SameCore (capture_auto ctx m plan n db).0 db
unfolding capture_auto insert_entry_version
capture_auto-SameCore ctx m plan n db = ground arith

abbrev pub live_blobs : Option String → List BlobRow → List BlobRow
live_blobs next blobs = elim (truthy next) [
  | none ↦ blobs
  | some b ↦ update_where (has_blob_id b) (with_state live none) blobs
]

abbrev pub retired_blobs :
    ℕ → Option String → Option String → List EntryRow → List BlobRow → List BlobRow
retired_blobs now current next es blobs = elim (truthy current) [
  | none ↦ blobs
  | some b ↦
      if not (same_blob (some b) next) && not (any (entry_refers b) es)
      then update_where (has_blob_id b) (with_state pending_delete (some now)) blobs
      else blobs
]

pub mark_live_parts :
    (next : Option String) (db : Database)
    → ((mark_live next db).entries ≡ db.entries)
      × ((mark_live next db).blobs ≡ live_blobs next db.blobs)
      × ((mark_live next db).state ≡ db.state)
unfolding mark_live update_state
mark_live_parts next db = ground arith

pub retire_replaced_parts :
    (now : ℕ) (current next : Option String) (db : Database)
    → ((retire_replaced now current next db).entries ≡ db.entries)
      × ((retire_replaced now current next db).blobs
          ≡ retired_blobs now current next db.entries db.blobs)
      × ((retire_replaced now current next db).state ≡ db.state)
unfolding retire_replaced update_state has_current_reference
retire_replaced_parts now current next db = ground arith

abbrev pub entries_after : EntryRow → List EntryRow → List EntryRow
entries_after new es = upsert_where (has_entry_id new.entry_id) new (λ _. new) es

module _ (ctx : CommitContext) (m : CommitMutationPayload) (id : String) (current : Option EntryRow)
    (plan : ApplyPlan) (cursor n : ℕ) (db : Database) where
  -- The tables after an applied mutation, each by itself.
  pub apply_writes_parts :
      let new = next_entry ctx m id plan cursor in
      let after = (apply_writes ctx m id current plan cursor n db).0 in
      (after.entries ≡ entries_after new db.entries)
      × (after.blobs
          ≡ retired_blobs ctx.now
              (blob_of current)
              plan.next_blob_id
              (entries_after new db.entries)
              (live_blobs plan.next_blob_id db.blobs))
      × (after.state ≡ db.state)
  unfolding apply_writes upsert_entry
  apply_writes_parts =
      let before = capture_before ctx m.entry_id current plan n db in
      let db₂ = upsert_entry (next_entry ctx m id plan cursor) before.0 in
      let db₃ = (capture_auto ctx m plan before.1 db₂).0 in
      let db₄ = mark_live plan.next_blob_id db₃ in
      let c = capture_before-SameCore ctx m.entry_id current plan n db in
      let a = capture_auto-SameCore ctx m plan before.1 db₂ in
      let l = mark_live_parts plan.next_blob_id db₃ in
      let r = retire_replaced_parts ctx.now (blob_of current) plan.next_blob_id db₄ in
      (rw (r.0, l.0, a.0, c.0), rw (r.1, l.0, l.1, a.0, a.1, c.0, c.1), rw (r.2, l.2, a.2, c.2))

-- A blob that a payload names is not the empty text, as the protocol's schema demands.
abbrev pub IsNamed : Option String → Type 0
IsNamed none = Unit {0}
IsNamed (some b) = (b == "") ≡ false

-- The blob named, if any, is recorded.
abbrev pub IsRecorded : List BlobRow → Option String → Type 0
IsRecorded blobs none = Unit {0}
IsRecorded blobs (some b) = (s : BlobLifecycleState) × (state_in b blobs ≡ some s)

pub live_blobs-AllBacked :
    (next : Option String) (blobs : List BlobRow) (es : List EntryRow)
    → AllBacked blobs es
    → AllBacked (live_blobs next blobs) es
live_blobs-AllBacked next blobs es h = elim (Option-cases (truthy next)) [
  | inl e ↦ rw (e, live_blobs) h
  | inr (b, e) ↦ rw (e, live_blobs) (AllBacked-update_live b none blobs es h)
]

pub live_blobs-IsBacked :
    (next : Option String) (blobs : List BlobRow)
    → IsNamed next
    → IsRecorded blobs next
    → IsBacked (live_blobs next blobs) next
live_blobs-IsBacked none blobs v r = tt
live_blobs-IsBacked (some b) blobs v r = rw (v, live_blobs) (IsBacked-of_live b none blobs r.0 r.1)

pub retired_blobs-AllBacked :
    (now : ℕ) (current next : Option String) (es : List EntryRow) (blobs : List BlobRow)
    → AllBacked blobs es
    → AllBacked (retired_blobs now current next es blobs) es
retired_blobs-AllBacked now current next es blobs h = elim (Option-cases (truthy current)) [
  | inl e ↦ rw (e, retired_blobs) h
  | inr (b, e) ↦
      rw (e, retired_blobs)
        (elim (Bool-cases (not (same_blob (some b) next) && not (any (entry_refers b) es))) [
          | inl t ↦
              rw t (
                AllBacked-update_unreferenced b (some now) blobs pending_delete es (ground arith) h)
          | inr f ↦ rw f h
        ])
]

pub total_size-update_state :
    (b : String) (s : BlobLifecycleState) (d : Option ℕ) (blobs : List BlobRow)
    → total_size (update_where (has_blob_id b) (with_state s d) blobs) ≡ total_size blobs
total_size-update_state b s d blobs = total_size-update_where _ _ blobs (λ r. refl)

pub total_size-live_blobs :
    (next : Option String) (blobs : List BlobRow)
    → total_size (live_blobs next blobs) ≡ total_size blobs
total_size-live_blobs next blobs = elim (Option-cases (truthy next)) [
  | inl e ↦ rw (e, live_blobs)
  | inr (b, e) ↦ rw (e, live_blobs) (total_size-update_state b live none blobs)
]

pub total_size-retired_blobs :
    (now : ℕ) (current next : Option String) (es : List EntryRow) (blobs : List BlobRow)
    → total_size (retired_blobs now current next es blobs) ≡ total_size blobs
total_size-retired_blobs now current next es blobs = elim (Option-cases (truthy current)) [
  | inl e ↦ rw (e, retired_blobs)
  | inr (b, e) ↦
      rw (e, retired_blobs)
        (elim (Bool-cases (not (same_blob (some b) next) && not (any (entry_refers b) es))) [
          | inl t ↦ rw t (total_size-update_state b pending_delete (some now) blobs)
          | inr f ↦ rw f
        ])
]

-- What is known when the check of the next blob lets the mutation go on.
pub record Checked (next : Option String) (before after : Database) : Type 0 where
  pub same_entries : after.entries ≡ before.entries
  pub same_versions : after.versions ≡ before.versions
  pub same_state : after.state ≡ before.state
  pub same_total : total_size after.blobs ≡ total_size before.blobs
  pub backed : AllBacked before.blobs before.entries → AllBacked after.blobs before.entries
  pub recorded : IsRecorded after.blobs (truthy next)

read_blob-find :
    (b : String) (db : Database) {r : BlobRow}
    → read_blob b db ≡ some r
    → find? (has_blob_id b) db.blobs ≡ some r
unfolding read_blob
read_blob-find b db h = h

restage-Checked :
    (next : Option String) (b : String) (r : BlobRow) (d : Option ℕ) (db : Database)
    → truthy next ≡ some b
    → read_blob b db ≡ some r
    → r.state ≡ pending_delete
    → Checked next db (update_state b staged d db)
unfolding update_state read_blob
restage-Checked next b r d db n f p = record {
  same_entries = refl;
  same_versions = refl;
  same_state = refl;
  same_total = total_size-update_state b staged d db.blobs;
  backed = λ h.
      AllBacked-update_unreferenced b d db.blobs staged db.entries
        (unreferenced_of_state b db.blobs r.state db.entries (state_in-find? b db.blobs f)
          (λ q. ground arith) h)
        h;
  recorded = rw n (
    staged,
    ground (
      arith,
      state_in-update b b staged d db.blobs,
      state_in-find? b db.blobs {r = r} f,
      eq_iff b b,
    ),
  );
}

unchanged-Checked :
    (next : Option String) (db : Database) → IsRecorded db.blobs (truthy next) → Checked next db db
unchanged-Checked next db r = record {
  same_entries = refl;
  same_versions = refl;
  same_state = refl;
  same_total = refl;
  backed = λ h. h;
  recorded = r;
}

pub check_next_blob-Checked :
    (ctx : CommitContext) (next : Option String) (db after : Database)
    → check_next_blob ctx next db ≡ ok after
    → Checked next db after
unfolding check_next_blob
check_next_blob-Checked ctx next db after h = elim (Option-cases (truthy next)) [
  | inl e ↦
      let same : db ≡ after = ground arith in
      subst (Checked next db) same (unchanged-Checked next db (rw e tt))
  | inr (b, e) ↦ elim (Option-cases (read_blob b db)) [
    | inl f ↦ absurd (ground arith)
    | inr (r, f) ↦
        let found : state_in b db.blobs ≡ some r.state =
          state_in-find? b db.blobs (read_blob-find b db f) in
        elim (Bool-cases (same_state r.state pending_delete)) [
          | inl p ↦
              let same : update_state b staged (some (ctx.now + ctx.blob_grace_period_ms)) db
                  ≡ after =
                ground arith in
              subst (Checked next db) same (restage-Checked next b r _ db e f (ground arith))
          | inr p ↦
              let same : db ≡ after = ground arith in
              subst (Checked next db) same (unchanged-Checked next db (rw e (r.state, found)))
        ]
  ]
]
