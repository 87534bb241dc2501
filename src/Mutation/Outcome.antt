-- ===== src/Mutation/Outcome.antt =====
-- Each mutation of a batch is one move of a store of entries under compare-and-set.
use synch.Common.{
  ℕ, ◌+◌, ◌≡◌, refl, ap, ◌∙◌, subst, String, ◌==◌, eq_iff, Option, none, some, List, [], ◌∷◌, ◌++◌,
  arith, Error, Result, ok, err, >>=-eq-ok, ok_inj, if◌then◌else◌, inl, inr, Bool-cases,
  Option-cases, contains, trim, length, length-append,
}
use synch.Domain.EntryPolicy.{
  ApplyPlan, EntryMutationDecision, idempotent, stale_revision, apply, decide_entry_mutation,
  plan_mutation, current_revision, blob_after, is_delete,
}
use synch.Storage.Rows.{Database, EntryRow}
use synch.Storage.Entries.{read_entry}
use synch.Storage.Entries.Lookup.{find-upsert, find-entry_id}
use synch.Mutation.{
  CommitContext, CommitMutationPayload, CommitMutationBatchResult, accepted, rejected, BatchState,
  current_of, next_entry, next_base, apply_writes, check_next_blob, commit_apply, commit_again,
  decision_for, commit_checked, commit_decided, commit_one, commit_all, push,
}
use synch.Mutation.Writes.{Checked, check_next_blob-Checked, apply_writes_parts}

-- What a client can read: the entry under each id.
abbrev pub View : Type 0
View = String → Option EntryRow

abbrev pub view : Database → View
view db k = read_entry k db

-- The content that a payload asks for.
pub record Holds (m : CommitMutationPayload) (id : String) (new : EntryRow) : Type 0 where
  pub revision : new.revision ≡ m.base_revision + 1
  pub blob_id : new.blob_id ≡ blob_after m.op m.blob_id
  pub encrypted_metadata : new.encrypted_metadata ≡ m.encrypted_metadata
  pub deleted : new.deleted ≡ is_delete m.op
  pub last_mutation_id : new.last_mutation_id ≡ some id

-- The three moves: a refusal and a repetition change no entry; a write needs the revision that it is
-- based on, and changes its own entry alone.
pub data Move (m : CommitMutationPayload) (id : String) (v w : View)
    : CommitMutationBatchResult → Type 0 where
  refuse :
      (e : Error) (r : CommitMutationBatchResult)
      → r ≡ rejected id m.entry_id e
      → ((k : String) → w k ≡ v k)
      → Move m id v w r
  again :
      (e : EntryRow) (r : CommitMutationBatchResult)
      → v m.entry_id ≡ some e
      → e.last_mutation_id ≡ some id
      → r ≡ accepted id e.updated_seq m.entry_id e.revision
      → ((k : String) → w k ≡ v k)
      → Move m id v w r
  write :
      (new : EntryRow) (r : CommitMutationBatchResult)
      → current_revision (current_of (v m.entry_id)) ≡ m.base_revision
      → Holds m id new
      → r ≡ accepted id new.updated_seq m.entry_id new.revision
      → ((k : String) → w k ≡ (if m.entry_id == k then some new else v k))
      → Move m id v w r

-- One more result, and the move that it reports.
abbrev pub Reports : CommitMutationPayload → BatchState → BatchState → Type 0
Reports m st st' =
    (r : CommitMutationBatchResult) × (st'.results ≡ st.results ++ r ∷ [])
    × Move m (trim m.mutation_id) (view st.db) (view st'.db) r

read_entry-eq :
    (k : String) (a b : Database) → a.entries ≡ b.entries → read_entry k a ≡ read_entry k b
unfolding read_entry
read_entry-eq k a b e = rw e

pub read_entry_id :
    (k : String) (db : Database) {e : EntryRow} → read_entry k db ≡ some e → e.entry_id ≡ k
unfolding read_entry
read_entry_id k db {e} h = find-entry_id k db.entries {e = e} h

module _ (ctx : CommitContext) (m : CommitMutationPayload) (id : String) (current : Option EntryRow)
    (plan : ApplyPlan) where
  -- An applied mutation is read back, and every other entry as it was.
  view-writes :
      (cursor n : ℕ) (db : Database) (k : String)
      → view (apply_writes ctx m id current plan cursor n db).0 k
        ≡ (if m.entry_id == k then some (next_entry ctx m id plan cursor) else view db k)
  unfolding read_entry
  view-writes cursor n db k =
      let (pe, pb, ps) = apply_writes_parts ctx m id current plan cursor n db in
      rw pe (find-upsert (next_entry ctx m id plan cursor) k db.entries)

-- What a decision to apply is known to have checked and planned.
plan_facts :
    (ctx : CommitContext) (m : CommitMutationPayload) (id : String) (current : Option EntryRow)
    {plan : ApplyPlan}
    → decision_for ctx m id current ≡ apply plan
    → (current_revision (current_of current) ≡ m.base_revision)
      × (plan.revision ≡ m.base_revision + 1)
      × (plan.next_blob_id ≡ blob_after m.op m.blob_id)
      × (plan.next_deleted ≡ is_delete m.op)
unfolding decision_for decide_entry_mutation plan_mutation
plan_facts ctx m id current {plan} h = ground arith

idempotent_fact :
    (ctx : CommitContext) (m : CommitMutationPayload) (id : String) (e : EntryRow)
    → decision_for ctx m id (some e) ≡ idempotent
    → e.last_mutation_id ≡ some id
unfolding decision_for decide_entry_mutation
idempotent_fact ctx m id e h = elim (Option-cases e.last_mutation_id) [
  | inl n ↦ absurd (ground arith)
  | inr (l, s) ↦ ground (arith, eq_iff l id)
]

module _ (ctx : CommitContext) (m : CommitMutationPayload) where
  abbrev id : String
  id = trim m.mutation_id

  apply_Reports :
      (current : Option EntryRow) (plan : ApplyPlan) (st : BatchState) (db : Database)
      {st' : BatchState}
      → read_entry m.entry_id st.db ≡ current
      → decision_for ctx m id current ≡ apply plan
      → Checked plan.next_blob_id st.db db
      → commit_apply ctx m id current plan st db ≡ ok st'
      → Reports m st st'
  unfolding commit_apply
  apply_Reports current plan st db {st'} c d k h =
      let (base, eb, es) = >>=-eq-ok (next_base ctx st.next_cursor db) _ {b = st'} h in
      let (based, rev, blob, del) = plan_facts ctx m id current {plan = plan} d in
      let new = next_entry ctx m id plan (base + 1) in
      subst (Reports m st) (ok_inj es) (
        accepted id (base + 1) m.entry_id plan.revision,
        refl,
        write new _ (rw c based)
            (record {
              revision = rev;
              blob_id = blob;
              encrypted_metadata = refl;
              deleted = del;
              last_mutation_id = refl;
            })
            refl
            (λ j.
              view-writes ctx m id current plan (base + 1) st.uuids db j
              ∙ ap (λ o. if m.entry_id == j then some new else o)
                  (read_entry-eq j db st.db k.same_entries)),
      )

  checked_Reports :
      (current : Option EntryRow) (plan : ApplyPlan) (st : BatchState) {st' : BatchState}
      → read_entry m.entry_id st.db ≡ current
      → decision_for ctx m id current ≡ apply plan
      → commit_checked ctx m id current plan st ≡ ok st'
      → Reports m st st'
  unfolding commit_checked
  checked_Reports current plan st {st'} c d h =
      go (check_next_blob ctx plan.next_blob_id st.db) refl h
    where
      go :
          (r : Result Database)
          → check_next_blob ctx plan.next_blob_id st.db ≡ r
          → ◌≡◌ {A = Result BatchState}
              (elim r [
                | err e ↦ ok (push (rejected id m.entry_id e) st)
                | ok db ↦ commit_apply ctx m id current plan st db
              ])
              (ok st')
          → Reports m st st'
      go (err e) p q =
          subst (Reports m st) (ok_inj q)
            (rejected id m.entry_id e, refl, refuse e _ refl (λ j. refl))
      go (ok db) p q =
          apply_Reports current plan st db {st' = st'} c d
            (check_next_blob-Checked ctx plan.next_blob_id st.db db p) q

  decided_Reports :
      (current : Option EntryRow) (d : EntryMutationDecision) (st : BatchState) {st' : BatchState}
      → read_entry m.entry_id st.db ≡ current
      → decision_for ctx m id current ≡ d
      → commit_decided ctx m id current d st ≡ ok st'
      → Reports m st st'
  unfolding commit_decided commit_again
  decided_Reports none idempotent st c e h = absurd (cc)
  decided_Reports (some x) idempotent st c e h = subst (Reports m st) (ok_inj h) (
    accepted id x.updated_seq x.entry_id x.revision,
    refl,
    again x _ c (idempotent_fact ctx m id x e)
        (ap (λ k. accepted id x.updated_seq k x.revision) (read_entry_id m.entry_id st.db c))
        (λ j. refl),
  )
  decided_Reports current (stale_revision x r) st c e h =
      subst (Reports m st) (ok_inj h) (rejected id m.entry_id _, refl, refuse _ _ refl (λ j. refl))
  decided_Reports current (apply plan) st {st'} c e h =
      checked_Reports current plan st {st' = st'} c e h

  -- Each round of the loop reports one result, and makes the move that this result stands for: a
  -- rejection leaves every entry as it was; an acceptance either repeats the answer to a mutation
  -- that the entry has already taken, or finds the entry at the revision that the mutation is based
  -- on, gives it the payload's content under the next revision, and leaves every other entry.
  pub commit_one-Reports : (st st' : BatchState) → commit_one ctx m st ≡ ok st' → Reports m st st'
  unfolding commit_one
  commit_one-Reports st st' h = elim (Bool-cases (contains st.seen_mutation_ids id)) [
    | inl e ↦
        subst (Reports m st) (ok_inj (rw e at h))
          (rejected id m.entry_id _, refl, refuse _ _ refl (λ j. refl))
    | inr e ↦
        decided_Reports (read_entry m.entry_id st.db) _
          (record st { seen_mutation_ids = id ∷ st.seen_mutation_ids }) {st' = st'} refl refl
          (rw e at h)
  ]

-- Every mutation of a batch has its result, in order.
commit_all-length :
    (ctx : CommitContext) (ms : List CommitMutationPayload) (st st' : BatchState)
    → commit_all ctx ms st ≡ ok st'
    → length st'.results ≡ length st.results + length ms
unfolding commit_all
commit_all-length ctx [] st st' h = let e : st ≡ st' = ok_inj h in rw (← e) (omega arith)
commit_all-length ctx (m ∷ ms) st st' h =
    let (mid, first, rest) = >>=-eq-ok (commit_one ctx m st) _ {b = st'} h in
    let (r, e, mv) = commit_one-Reports ctx m st mid first in
    omega
      (arith, commit_all-length ctx ms mid st' rest, ap length e, length-append st.results (r ∷ []))
