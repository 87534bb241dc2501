-- ===== src/Entry/Restored.antt =====
-- What a restore leaves: the entry has the content of the version again.
use synch.Common.{
  ℕ, ◌+◌, ◌≡◌, ◌≢◌, refl, sym, ◌∙◌, ap, subst, String, ◌==◌, eq_iff, eq_refl, true, false, Option,
  none, some, arith, Result, ok, err, ok_inj, inl, inr, Option-cases, trim,
}
use synch.Domain.EntryPolicy.{
  EntryOp, upsert, delete, before_restore, is_current_revision, is_restore_payload_compatible,
  same_op, same_blob, blob_after, is_delete,
}
use synch.Storage.Rows.{Database, EntryRow, EntryVersionRow}
use synch.Storage.Entries.{read_entry}
use synch.Storage.Versions.{read_entry_version}
use synch.Mutation.{
  SocketSession, CommitEnvironment, CommitMutationResult, accepted, commit_accepted,
  commit_rejected, commit_mutation,
}
use synch.Mutation.Outcome.{view, Move, refuse, again, write}
use synch.Mutation.Single.{commit_mutation-Move}
use synch.Entry.Restore.{
  Restore, check_restore, restore_mutation, EntryVersionRestored, restore_entry_version,
}

-- What a restore that passes its checks is known to have found.
record MayRestore (r : Restore) (now : ℕ) (db : Database) (target : EntryVersionRow) : Type 0 where
  pub current : EntryRow
  pub found : read_entry r.entry_id db ≡ some current
  pub version : read_entry_version r.entry_id r.version_id now db ≡ some target
  pub revision : current.revision ≡ r.base_revision
  pub op : target.op_type ≡ r.op
  pub blob_id : target.blob_id ≡ r.blob_id

same_op_eq : (a b : EntryOp) → same_op a b ≡ true → a ≡ b
same_op_eq upsert upsert h = refl
same_op_eq upsert delete h = absurd (ground arith)
same_op_eq delete upsert h = absurd (ground arith)
same_op_eq delete delete h = refl

same_blob_eq : (a b : Option String) → same_blob a b ≡ true → a ≡ b
same_blob_eq none none h = refl
same_blob_eq none (some b) h = absurd (ground arith)
same_blob_eq (some a) none h = absurd (ground arith)
same_blob_eq (some a) (some b) h = ap some ((eq_iff a b).0 h)

check_restore-MayRestore :
    (r : Restore) (now : ℕ) (db : Database) {target : EntryVersionRow}
    → check_restore r now db ≡ ok target
    → MayRestore r now db target
unfolding check_restore is_current_revision is_restore_payload_compatible
check_restore-MayRestore r now db {target} h = elim (Option-cases (read_entry r.entry_id db)) [
  | inl e ↦ absurd (ground arith)
  | inr (current, e) ↦ elim (Option-cases (read_entry_version r.entry_id r.version_id now db)) [
    | inl f ↦ absurd (ground arith)
    | inr (v, f) ↦
        let same : v ≡ target = ground arith in
        record {
          current = current;
          found = e;
          version = f ∙ ap some same;
          revision = ground arith;
          op =
              same_op_eq target.op_type r.op
                (ground (arith, ap (λ (x : EntryVersionRow). x.op_type) same));
          blob_id =
              same_blob_eq target.blob_id r.blob_id
                (ground (arith, ap (λ (x : EntryVersionRow). x.blob_id) same));
        }
  ]
]

-- The database after the restore of a version, against the one before it.
pub record HasRestored (r : Restore) (now : ℕ) (reply : EntryVersionRestored) (db db' : Database)
    : Type 0 where
  pub target : EntryVersionRow
  pub version : read_entry_version r.entry_id r.version_id now db ≡ some target
  pub new : EntryRow
  pub stored : read_entry r.entry_id db' ≡ some new
  pub blob_id : new.blob_id ≡ blob_after target.op_type target.blob_id
  pub deleted : new.deleted ≡ is_delete target.op_type
  pub encrypted_metadata : new.encrypted_metadata ≡ r.encrypted_metadata
  pub revision : new.revision ≡ r.base_revision + 1
  pub reported :
      (reply.revision ≡ new.revision) × (reply.restored_from_revision ≡ target.source_revision)
  pub others : (k : String) → (r.entry_id == k) ≡ false → read_entry k db' ≡ read_entry k db

module _ (r : Restore) (id : String) (now : ℕ) (db db' : Database) (target : EntryVersionRow)
    (may : MayRestore r now db target)
    (fresh : (e : EntryRow)
      → read_entry r.entry_id db ≡ some e
      → e.last_mutation_id ≢ some (trim id)) where
  Move-HasRestored :
      (id' k : String) (c rev : ℕ) (reply : EntryVersionRestored) {x : _}
      → Move (restore_mutation id r) (trim id) (view db) (view db') x
      → x ≡ accepted id' c k rev
      → reply.revision ≡ rev
      → reply.restored_from_revision ≡ target.source_revision
      → HasRestored r now reply db db'
  Move-HasRestored id' k c rev reply (refuse e _ q same) p s t = absurd (ground arith)
  Move-HasRestored id' k c rev reply (again e _ found last q same) p s t =
      absurd (fresh e found last)
  Move-HasRestored id' k c rev reply (write new _ based holds q same) p s t = record {
    target = target;
    version = may.version;
    new = new;
    stored = same r.entry_id ∙ (rw (eq_refl r.entry_id) refl);
    blob_id = rw (may.op, may.blob_id) holds.blob_id;
    deleted = rw may.op holds.deleted;
    encrypted_metadata = holds.encrypted_metadata;
    revision = holds.revision;
    reported = (ground arith, t);
    others = λ j n. same j ∙ (rw n refl);
  }

-- If a restore succeeds under a mutation id that is new to the entry, the entry holds the requested
-- version's blob (or is deleted, if the version is a deletion) with the metadata sent, under the revision
-- after the one that the restore is based on, and every other entry is as it was.
pub restore_entry_version-HasRestored :
    (env : CommitEnvironment) (session : SocketSession) (id : String) (r : Restore) (now : ℕ)
    (db db' : Database) (reply : EntryVersionRestored)
    → ((e : EntryRow) → read_entry r.entry_id db ≡ some e → e.last_mutation_id ≢ some (trim id))
    → restore_entry_version env session id r now db ≡ (ok reply, db')
    → HasRestored r now reply db db'
unfolding restore_entry_version
restore_entry_version-HasRestored env session id r now db db' reply fresh h =
    go (check_restore r now db) refl
  where
    committed :
        (target : EntryVersionRow)
        → check_restore r now db ≡ ok target
        → (x : Result (CommitMutationResult × Database))
        → commit_mutation env session (some before_restore) (restore_mutation id r) db ≡ x
        → HasRestored r now reply db db'
    committed target t (err e) q = absurd (ground arith)
    committed target t (ok (commit_rejected e, db₁)) q = absurd (ground arith)
    committed target t (ok (commit_accepted c k rev b, db₁)) q =
        let replied : _ ≡ (ok reply, db') = rw (restore_entry_version, t, q) at h in
        let stored : db₁ ≡ db' = ap (λ (x : Result EntryVersionRestored × Database). x.1) replied in
        let answer = ok_inj (ap (λ (x : Result EntryVersionRestored × Database). x.0) replied) in
        let (id', mv) =
          commit_mutation-Move env session (some before_restore) (restore_mutation id r) db c rev k
            b db₁ q in
        subst (HasRestored r now reply db) stored (
          Move-HasRestored r id now db db₁ target
            (check_restore-MayRestore r now db {target = target} t) fresh id' k c rev reply mv refl
            (sym (ap (λ (x : EntryVersionRestored). x.revision) answer))
            (sym (ap (λ (x : EntryVersionRestored). x.restored_from_revision) answer)))

    go : (x : Result EntryVersionRow) → check_restore r now db ≡ x → HasRestored r now reply db db'
    go (err e) q = absurd (ground arith)
    go (ok target) q = committed target q _ refl
