-- ===== src/Mutation/Invariant.antt =====
-- A batch of mutations keeps the vault's database consistent.
use synch.Common.{
  ℕ, ◌+◌, ◌≡◌, refl, sym, ◌∙◌, subst, String, true, Option, none, some, List, [], ◌∷◌, arith,
  Result, ok, err, ◌>>=◌, >>=-eq-ok, ok_inj, is_some, inl, inr, Bool-cases, Option-cases, contains,
  trim, All, All-map,
}
use synch.Domain.EntryPolicy.{
  EntryVersionCaptureReason, EntryOp, blob_after, ApplyPlan, EntryMutationDecision, idempotent,
  stale_revision, apply, decide_entry_mutation, plan_mutation, upsert, delete,
}
use synch.Storage.Rows.{Database, EntryRow, CoordinatorState}
use synch.Storage.State.{save_commit, read_sync_pause, read_version_history_retention_days}
use synch.Storage.Entries.{read_entry}
use synch.Storage.Invariant.{IsConsistent}
use synch.Storage.Invariant.Backing.{AllBacked, IsBacked}
use synch.Storage.Invariant.Accounting.{IsCounted, total_size}
use synch.Storage.Invariant.Sequence.{IsSequenced, IsSequencedAt, IsSequencedAt-upsert}
use synch.Storage.Table.{All-upsert_where}
use synch.Mutation.{
  CommitContext, CommitMutationPayload, BatchState, SocketSession, truthy, blob_of, next_entry,
  read_cursor, next_base, apply_writes, check_next_blob, commit_apply, commit_again, decision_for,
  commit_checked, commit_decided, commit_one, commit_all, batch_start, save_next, finish_batch,
  CommitMutationsResult, push, rejected, CommitEnvironment, commit_transaction, context_for,
  commit_mutations,
}
use synch.Mutation.Cursor.{read_cursor_state}
use synch.Protocol.{IsParsed, parse_commit_payloads, parse_commit_payloads-IsParsed}
use synch.Mutation.Writes.{
  Checked, check_next_blob-Checked, IsNamed, IsRecorded, apply_writes_parts, entries_after,
  live_blobs, live_blobs-AllBacked, live_blobs-IsBacked, retired_blobs-AllBacked,
  total_size-live_blobs, total_size-retired_blobs,
}

-- While a batch runs its cursor is ahead of the stored one.
abbrev pub SequencedSoFar : Option ℕ → Option CoordinatorState → List EntryRow → Type 0
SequencedSoFar none state es = IsSequenced state es
SequencedSoFar (some c) state es = (is_some state ≡ true) × IsSequencedAt c es

pub record LoopInv (st : BatchState) : Type 0 where
  pub backed : AllBacked st.db.blobs st.db.entries
  pub counted : IsCounted st.db.state st.db.blobs
  pub sequenced : SequencedSoFar st.next_cursor st.db.state st.db.entries

pub IsCounted-of_total :
    (state : Option CoordinatorState) (xs ys : List _)
    → total_size ys ≡ total_size xs
    → IsCounted state xs
    → IsCounted state ys
IsCounted-of_total none xs ys e h = tt
IsCounted-of_total (some s) xs ys e h = omega (arith, e)

-- The cursor that a write goes on from is not behind any entry.
next_base_sequenced :
    (ctx : CommitContext) (o : Option ℕ) (db : Database) {c : ℕ}
    → next_base ctx o db ≡ ok c
    → SequencedSoFar o db.state db.entries
    → SequencedSoFar (some c) db.state db.entries
unfolding next_base
next_base_sequenced ctx none db {c} h q =
    let (s, e, f) = read_cursor_state ctx.session db {c = c} h in
    let q' : IsSequenced (some s) db.entries = subst (λ x. IsSequenced x db.entries) e q in
    (rw e, subst (λ k. IsSequencedAt k db.entries) f q')
next_base_sequenced ctx (some k) db {c} h q =
    (q.0, subst (λ x. IsSequencedAt x db.entries) (ground arith) q.1)

truthy_named : (o : Option String) → IsNamed o → truthy o ≡ o
truthy_named none v = refl
truthy_named (some b) v = rw v

module _ (ctx : CommitContext) (m : CommitMutationPayload) (id : String) (current : Option EntryRow)
    (plan : ApplyPlan) (named : IsNamed plan.next_blob_id) (db : Database) where
  -- The tables after an applied mutation, from the tables before it.
  writes_backed :
      (cursor n : ℕ)
      → IsRecorded db.blobs (truthy plan.next_blob_id)
      → AllBacked db.blobs db.entries
      → let w = (apply_writes ctx m id current plan cursor n db).0 in AllBacked w.blobs w.entries
  writes_backed cursor n r h =
      let new = next_entry ctx m id plan cursor in
      let (pe, pb, ps) = apply_writes_parts ctx m id current plan cursor n db in
      let r' : IsRecorded db.blobs plan.next_blob_id =
        subst (IsRecorded db.blobs) (truthy_named plan.next_blob_id named) r in
      rw (pe, pb)
        (retired_blobs-AllBacked ctx.now (blob_of current) plan.next_blob_id
          (entries_after new db.entries) (live_blobs plan.next_blob_id db.blobs)
          (All-upsert_where (λ e. IsBacked (live_blobs plan.next_blob_id db.blobs) e.blob_id) _ new
            _ db.entries (live_blobs-IsBacked plan.next_blob_id db.blobs named r')
            (λ x _ _. live_blobs-IsBacked plan.next_blob_id db.blobs named r')
            (live_blobs-AllBacked plan.next_blob_id db.blobs db.entries h)))

  writes-IsCounted :
      (cursor n : ℕ)
      → IsCounted db.state db.blobs
      → let w = (apply_writes ctx m id current plan cursor n db).0 in IsCounted w.state w.blobs
  writes-IsCounted cursor n h =
      let (pe, pb, ps) = apply_writes_parts ctx m id current plan cursor n db in
      rw (pb, ps)
        (IsCounted-of_total db.state db.blobs _
          (total_size-retired_blobs ctx.now (blob_of current) plan.next_blob_id _ _
            ∙ total_size-live_blobs plan.next_blob_id db.blobs)
          h)

  writes_sequenced :
      (base n : ℕ)
      → SequencedSoFar (some base) db.state db.entries
      → let w = (apply_writes ctx m id current plan (base + 1) n db).0 in
        SequencedSoFar (some (base + 1)) w.state w.entries
  writes_sequenced base n q =
      let (pe, pb, ps) = apply_writes_parts ctx m id current plan (base + 1) n db in
      rw (pe, ps)
        (
          q.0,
          IsSequencedAt-upsert base (next_entry ctx m id plan (base + 1)) (omega arith) db.entries
              q.1,
        )

  commit_apply-LoopInv :
      (st : BatchState) {st' : BatchState}
      → LoopInv st
      → Checked plan.next_blob_id st.db db
      → commit_apply ctx m id current plan st db ≡ ok st'
      → LoopInv st'
  unfolding commit_apply
  commit_apply-LoopInv st {st'} inv k h =
      let (base, eb, es) = >>=-eq-ok (next_base ctx st.next_cursor db) _ {b = st'} h in
      let same : _ ≡ st' = ok_inj es in
      let backed₀ : AllBacked db.blobs db.entries =
        subst (AllBacked db.blobs) (sym k.same_entries) (k.backed inv.backed) in
      let counted₀ : IsCounted db.state db.blobs =
        subst (λ x. IsCounted x db.blobs) (sym k.same_state)
          (IsCounted-of_total st.db.state st.db.blobs db.blobs k.same_total inv.counted) in
      let sequenced₀ : SequencedSoFar st.next_cursor db.state db.entries =
        rw (k.same_state, k.same_entries) inv.sequenced in
      subst LoopInv same (record {
        backed = writes_backed (base + 1) st.uuids k.recorded backed₀;
        counted = writes-IsCounted (base + 1) st.uuids counted₀;
        sequenced =
            writes_sequenced base st.uuids
              (next_base_sequenced ctx st.next_cursor db {c = base} eb sequenced₀);
      })

-- The plan of a mutation names the payload's blob, or none.
plan-IsNamed :
    (ctx : CommitContext) (m : CommitMutationPayload) (id : String) (current : Option EntryRow)
    {plan : ApplyPlan}
    → IsNamed m.blob_id
    → decision_for ctx m id current ≡ apply plan
    → IsNamed plan.next_blob_id
unfolding decision_for decide_entry_mutation plan_mutation
plan-IsNamed ctx m id current {plan} v h =
    let same : blob_after m.op m.blob_id ≡ plan.next_blob_id = ground arith in
    subst IsNamed same (named_after m.op v)
  where
    named_after : (op : EntryOp) → IsNamed m.blob_id → IsNamed (blob_after op m.blob_id)
    named_after upsert n = n
    named_after delete n = tt

module _ (ctx : CommitContext) (m : CommitMutationPayload) (named : IsNamed m.blob_id) where
  commit_checked-LoopInv :
      (id : String) (current : Option EntryRow) (plan : ApplyPlan) (st : BatchState)
      {st' : BatchState}
      → IsNamed plan.next_blob_id
      → LoopInv st
      → commit_checked ctx m id current plan st ≡ ok st'
      → LoopInv st'
  unfolding commit_checked
  commit_checked-LoopInv id current plan st {st'} v inv h =
      go (check_next_blob ctx plan.next_blob_id st.db) refl h
    where
      go :
          (r : Result Database)
          → check_next_blob ctx plan.next_blob_id st.db ≡ r
          → ◌≡◌ {A = Result BatchState}
              (elim r [
                | err e ↦ ok (push (rejected id m.entry_id e) st)
                | ok db ↦ commit_apply ctx m id current plan st db
              ])
              (ok st')
          → LoopInv st'
      go (err e) p q =
          subst LoopInv (ok_inj q)
            (record { backed = inv.backed; counted = inv.counted; sequenced = inv.sequenced })
      go (ok db) p q =
          commit_apply-LoopInv ctx m id current plan v db st {st' = st'} inv
            (check_next_blob-Checked ctx plan.next_blob_id st.db db p) q

  commit_decided-LoopInv :
      (id : String) (current : Option EntryRow) (d : EntryMutationDecision) (st : BatchState)
      {st' : BatchState}
      → decision_for ctx m id current ≡ d
      → LoopInv st
      → commit_decided ctx m id current d st ≡ ok st'
      → LoopInv st'
  unfolding commit_decided commit_again
  commit_decided-LoopInv id none idempotent st e inv h = absurd (cc)
  commit_decided-LoopInv id (some c) idempotent st e inv h =
      subst LoopInv (ok_inj h)
        (record { backed = inv.backed; counted = inv.counted; sequenced = inv.sequenced })
  commit_decided-LoopInv id current (stale_revision x r) st e inv h =
      subst LoopInv (ok_inj h)
        (record { backed = inv.backed; counted = inv.counted; sequenced = inv.sequenced })
  commit_decided-LoopInv id current (apply plan) st {st'} e inv h =
      commit_checked-LoopInv id current plan st {st' = st'}
        (plan-IsNamed ctx m id current {plan = plan} named e) inv h

  -- One round of the loop keeps the invariant.
  pub commit_one-LoopInv :
      (st : BatchState) {st' : BatchState} → LoopInv st → commit_one ctx m st ≡ ok st' → LoopInv st'
  unfolding commit_one
  commit_one-LoopInv st {st'} inv h =
      elim (Bool-cases (contains st.seen_mutation_ids (trim m.mutation_id))) [
        | inl e ↦
            subst LoopInv (ok_inj (rw e at h))
              (record { backed = inv.backed; counted = inv.counted; sequenced = inv.sequenced })
        | inr e ↦
            commit_decided-LoopInv (trim m.mutation_id) (read_entry m.entry_id st.db) _ _
              {st' = st'} refl
              (record { backed = inv.backed; counted = inv.counted; sequenced = inv.sequenced })
              (rw e at h)
      ]

commit_all-LoopInv :
    (ctx : CommitContext) (ms : List CommitMutationPayload) (st : BatchState) {st' : BatchState}
    → All (λ m. IsNamed m.blob_id) ms
    → LoopInv st
    → commit_all ctx ms st ≡ ok st'
    → LoopInv st'
unfolding commit_all
commit_all-LoopInv ctx [] st v inv h = subst LoopInv (ok_inj h) inv
commit_all-LoopInv ctx (m ∷ ms) st {st'} v inv h =
    let (mid, first, rest) = >>=-eq-ok (commit_one ctx m st) _ {b = st'} h in
    commit_all-LoopInv ctx ms mid {st' = st'} v.1
      (commit_one-LoopInv ctx m v.0 st {st' = mid} inv first) rest

-- Saving the batch's cursor makes the database consistent again.
save_next-IsConsistent :
    (now : ℕ) (o : Option ℕ) (db : Database)
    → AllBacked db.blobs db.entries
    → IsCounted db.state db.blobs
    → SequencedSoFar o db.state db.entries
    → IsConsistent (save_next now o db)
unfolding save_next save_commit
save_next-IsConsistent now none db b c q = record { backed = b; counted = c; sequenced = q }
save_next-IsConsistent now (some k) db b c q = elim (Option-cases db.state) [
  | inl e ↦ absurd (ground arith)
  | inr (s, e) ↦ record { backed = b; counted = rw e (rw e at c); sequenced = rw e q.1 }
]

finish_batch-IsConsistent :
    (ctx : CommitContext) (st : BatchState) {r : CommitMutationsResult × Database}
    → LoopInv st
    → finish_batch ctx st ≡ ok r
    → IsConsistent r.1
unfolding finish_batch
finish_batch-IsConsistent ctx st {r} inv h =
    let saved = save_next ctx.now st.next_cursor st.db in
    let (c, ec, er) =
      >>=-eq-ok
        (elim st.highest_response_cursor [ none ↦ read_cursor ctx.session saved | some c ↦ ok c ]) _
        {b = r} h in
    subst (λ (x : CommitMutationsResult × Database). IsConsistent x.1) (ok_inj er)
      (save_next-IsConsistent ctx.now st.next_cursor st.db inv.backed inv.counted inv.sequenced)

commit_transaction-IsConsistent :
    (ctx : CommitContext) (ms : List CommitMutationPayload) (db : Database)
    {r : CommitMutationsResult × Database}
    → All (λ m. IsNamed m.blob_id) ms
    → IsConsistent db
    → commit_transaction ctx ms db ≡ ok r
    → IsConsistent r.1
unfolding commit_transaction
commit_transaction-IsConsistent ctx ms db {r} v inv h =
    elim (Bool-cases (is_some (read_sync_pause db))) [
      | inl e ↦ absurd (ground arith)
      | inr e ↦
          let h' : (commit_all ctx ms (batch_start db) >>= finish_batch ctx) ≡ ok r = rw e at h in
          let (st, el, ef) =
            >>=-eq-ok (commit_all ctx ms (batch_start db)) (finish_batch ctx) {b = r} h' in
          let start : LoopInv (batch_start db) = record {
            backed = inv.backed;
            counted = inv.counted;
            sequenced = inv.sequenced;
          } in
          finish_batch-IsConsistent ctx st {r = r}
            (commit_all-LoopInv ctx ms (batch_start db) {st' = st} v start el) ef
    ]

-- A batch of mutations that the schema let through leaves a consistent database consistent: each
-- current entry's blob is recorded as live, the storage counter is the sum of the recorded sizes, and
-- no two entries share a cursor or are ahead of the vault's.
pub commit_mutations-IsConsistent :
    (env : CommitEnvironment) (session : SocketSession) (forced : Option EntryVersionCaptureReason)
    (raws ms : List CommitMutationPayload) (db : Database) (r : CommitMutationsResult × Database)
    → parse_commit_payloads raws ≡ some ms
    → IsConsistent db
    → commit_mutations env session forced ms db ≡ ok r
    → IsConsistent r.1
unfolding commit_mutations
commit_mutations-IsConsistent env session forced raws ms db r p inv h =
    let named =
      All-map IsParsed (λ m. IsNamed m.blob_id) ms (λ m q. q.named)
        (parse_commit_payloads-IsParsed raws {ms = ms} p) in
    let (days, ed, et) = >>=-eq-ok (read_version_history_retention_days db) _ {b = r} h in
    commit_transaction-IsConsistent (context_for env session forced ms days) ms db {r = r} named inv
      et
