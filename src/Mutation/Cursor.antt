-- ===== src/Mutation/Cursor.antt =====
-- The vault's cursor: a batch moves it exactly when it writes, and announces where it is then.
use synch.Common.{
  ℕ, ◌+◌, ◌≤◌, ◌<◌, ◌≡◌, refl, sym, ◌∙◌, ap, subst, ◌⊎◌, String, Option, none, some, List, [], ◌∷◌,
  arith, Result, ok, err, ◌>>=◌, >>=-eq-ok, ok_inj, inl, inr, Bool-cases, Option-cases, is_some,
  contains, trim,
}
use synch.Domain.EntryPolicy.{
  EntryVersionCaptureReason, ApplyPlan, EntryMutationDecision, idempotent, stale_revision, apply,
}
use synch.Storage.Rows.{Database, EntryRow, CoordinatorState}
use synch.Storage.State.{
  read_vault_id, current_cursor, save_commit, read_sync_pause, read_version_history_retention_days,
}
use synch.Storage.Entries.{read_entry}
use synch.Mutation.{
  CommitContext, CommitMutationPayload, BatchState, SocketSession, CommitMutationsResult,
  CommitEnvironment, rejected, push, higher, read_cursor, next_base, check_next_blob, commit_apply,
  commit_again, commit_checked, commit_decided, commit_one, commit_all, batch_start, save_next,
  finish_batch, commit_transaction, context_for, commit_mutations,
}
use synch.Mutation.Writes.{Checked, check_next_blob-Checked, apply_writes_parts}

-- Nothing is written yet, or the batch's cursor is ahead of the stored one and is what will be
-- announced.
abbrev pub Progress : Database → BatchState → Type 0
Progress db st =
    ((st.next_cursor ≡ none) × (st.highest_broadcast_cursor ≡ none) × (st.db ≡ db))
    ⊎ ((c : ℕ) × (s : CoordinatorState) × (st.next_cursor ≡ some c)
        × (st.highest_broadcast_cursor ≡ some c)
        × (db.state ≡ some s)
        × (st.db.state ≡ some s)
        × (s.current_cursor < c))

pub read_cursor_state :
    (session : SocketSession) (db : Database) {c : ℕ}
    → read_cursor session db ≡ ok c
    → (s : CoordinatorState) × (db.state ≡ some s) × (s.current_cursor ≡ c)
unfolding read_cursor read_vault_id current_cursor
read_cursor_state session db {c} h = elim (Option-cases db.state) [
  | inl e ↦ absurd (ground arith)
  | inr (s, e) ↦ (s, e, ground arith)
]

-- The cursor that a write goes on from, under the progress so far.
base_state :
    (ctx : CommitContext) (db₀ : Database) (st : BatchState) (db : Database) {base : ℕ}
    → db.state ≡ st.db.state
    → next_base ctx st.next_cursor db ≡ ok base
    → Progress db₀ st
    → (s : CoordinatorState) × (db₀.state ≡ some s)
      × (st.db.state ≡ some s)
      × (s.current_cursor ≤ base)
      × (higher st.highest_broadcast_cursor (base + 1) ≡ some (base + 1))
unfolding next_base
base_state ctx db₀ st db {base} e h (inl (n, b, d)) =
    let h' : read_cursor ctx.session db ≡ ok base = (λ i. next_base ctx (sym n i) db) ∙ h in
    let (s, f, g) = read_cursor_state ctx.session db {c = base} h' in
    let f' : st.db.state ≡ some s = sym e ∙ f in
    (s, ap (λ (x : Database). x.state) (sym d) ∙ f', f', omega arith, rw b (ap some (omega arith)))
base_state ctx db₀ st db {base} e h (inr (c, s, n, b, f, g, l)) =
    let h' : ◌≡◌ {A = Result ℕ} (ok c) (ok base) = (λ i. next_base ctx (sym n i) db) ∙ h in
    let same : c ≡ base = ok_inj h' in (s, f, g, omega arith, rw b (ap some (omega arith)))

module _ (ctx : CommitContext) (m : CommitMutationPayload) (db₀ : Database) where
  abbrev id : String
  id = trim m.mutation_id

  apply_Progress :
      (current : Option EntryRow) (plan : ApplyPlan) (st : BatchState) (db : Database)
      {st' : BatchState}
      → Checked plan.next_blob_id st.db db
      → Progress db₀ st
      → commit_apply ctx m id current plan st db ≡ ok st'
      → Progress db₀ st'
  unfolding commit_apply
  apply_Progress current plan st db {st'} k p h =
      let (base, eb, es) = >>=-eq-ok (next_base ctx st.next_cursor db) _ {b = st'} h in
      let (s, f, g, l, b) = base_state ctx db₀ st db {base = base} k.same_state eb p in
      let (pe, pb, ps) = apply_writes_parts ctx m id current plan (base + 1) st.uuids db in
      subst (Progress db₀) (ok_inj es)
        (inr (base + 1, s, refl, b, f, ps ∙ k.same_state ∙ g, omega arith))

  checked_Progress :
      (current : Option EntryRow) (plan : ApplyPlan) (st : BatchState) {st' : BatchState}
      → Progress db₀ st
      → commit_checked ctx m id current plan st ≡ ok st'
      → Progress db₀ st'
  unfolding commit_checked
  checked_Progress current plan st {st'} pr h =
      go (check_next_blob ctx plan.next_blob_id st.db) refl h
    where
      go :
          (r : Result Database)
          → check_next_blob ctx plan.next_blob_id st.db ≡ r
          → ◌≡◌ {A = Result BatchState}
              (elim r [
                | err e ↦ ok (push (rejected id m.entry_id e) st)
                | ok db ↦ commit_apply ctx m id current plan st db
              ])
              (ok st')
          → Progress db₀ st'
      go (err e) p q = subst (Progress db₀) (ok_inj q) pr
      go (ok db) p q =
          apply_Progress current plan st db {st' = st'}
            (check_next_blob-Checked ctx plan.next_blob_id st.db db p) pr q

  decided_Progress :
      (current : Option EntryRow) (d : EntryMutationDecision) (st : BatchState) {st' : BatchState}
      → Progress db₀ st
      → commit_decided ctx m id current d st ≡ ok st'
      → Progress db₀ st'
  unfolding commit_decided commit_again
  decided_Progress none idempotent st p h = absurd (cc)
  decided_Progress (some x) idempotent st p h = subst (Progress db₀) (ok_inj h) p
  decided_Progress current (stale_revision x r) st p h = subst (Progress db₀) (ok_inj h) p
  decided_Progress current (apply plan) st {st'} p h =
      checked_Progress current plan st {st' = st'} p h

  one_Progress :
      (st : BatchState) {st' : BatchState}
      → Progress db₀ st
      → commit_one ctx m st ≡ ok st'
      → Progress db₀ st'
  unfolding commit_one
  one_Progress st {st'} p h = elim (Bool-cases (contains st.seen_mutation_ids id)) [
    | inl e ↦ subst (Progress db₀) (ok_inj (rw e at h)) p
    | inr e ↦
        decided_Progress (read_entry m.entry_id st.db) _
          (record st { seen_mutation_ids = id ∷ st.seen_mutation_ids }) {st' = st'} p (rw e at h)
  ]

pub all_Progress :
    (ctx : CommitContext) (ms : List CommitMutationPayload) (db₀ : Database) (st : BatchState)
    {st' : BatchState}
    → Progress db₀ st
    → commit_all ctx ms st ≡ ok st'
    → Progress db₀ st'
unfolding commit_all
all_Progress ctx [] db₀ st p h = subst (Progress db₀) (ok_inj h) p
all_Progress ctx (m ∷ ms) db₀ st {st'} p h =
    let (mid, first, rest) = >>=-eq-ok (commit_one ctx m st) _ {b = st'} h in
    all_Progress ctx ms db₀ mid {st' = st'} (one_Progress ctx m db₀ st {st' = mid} p first) rest

-- What a committed batch does to the vault's state.
abbrev pub Advances : ℕ → Database → CommitMutationsResult × Database → Type 0
Advances now db r =
    ((r.0.broadcast_cursor ≡ none) × (r.1 ≡ db))
    ⊎ ((c : ℕ) × (s : CoordinatorState) × (r.0.broadcast_cursor ≡ some c)
        × (db.state ≡ some s)
        × (r.1.state ≡ some (record s { current_cursor = c; last_commit_at = some now }))
        × (s.current_cursor < c))

pub finish_batch_parts :
    (ctx : CommitContext) (st : BatchState) {r : CommitMutationsResult × Database}
    → finish_batch ctx st ≡ ok r
    → (r.0.results ≡ st.results) × (r.1 ≡ save_next ctx.now st.next_cursor st.db)
unfolding finish_batch
finish_batch_parts ctx st {r} h =
    let saved = save_next ctx.now st.next_cursor st.db in
    let (c, ec, er) =
      >>=-eq-ok
        (elim st.highest_response_cursor [ none ↦ read_cursor ctx.session saved | some k ↦ ok k ]) _
        {b = r} h in
    (
      sym (ap (λ (x : CommitMutationsResult × Database). x.0.results) (ok_inj er)),
      sym (ap (λ (x : CommitMutationsResult × Database). x.1) (ok_inj er)),
    )

finish_Advances :
    (ctx : CommitContext) (st : BatchState) (db : Database) {r : CommitMutationsResult × Database}
    → Progress db st
    → finish_batch ctx st ≡ ok r
    → Advances ctx.now db r
unfolding finish_batch save_next save_commit
finish_Advances ctx st db {r} p h =
    let saved = save_next ctx.now st.next_cursor st.db in
    let (c, ec, er) =
      >>=-eq-ok
        (elim st.highest_response_cursor [ none ↦ read_cursor ctx.session saved | some k ↦ ok k ]) _
        {b = r} h in
    subst (Advances ctx.now db) (ok_inj er) (go c p)
  where
    go :
        (cursor : ℕ)
        → Progress db st
        → Advances ctx.now db (
          record {
            cursor = cursor;
            results = st.results;
            broadcast_cursor = st.highest_broadcast_cursor;
          },
          save_next ctx.now st.next_cursor st.db,
        )
    go cursor (inl (n, b, d)) = inl (b, rw n d)
    go cursor (inr (k, s, n, b, f, g, l)) = inr (k, s, b, f, rw n (rw g), l)

transaction_Advances :
    (ctx : CommitContext) (ms : List CommitMutationPayload) (db : Database)
    {r : CommitMutationsResult × Database}
    → commit_transaction ctx ms db ≡ ok r
    → Advances ctx.now db r
unfolding commit_transaction
transaction_Advances ctx ms db {r} h = elim (Bool-cases (is_some (read_sync_pause db))) [
  | inl e ↦ absurd (ground arith)
  | inr e ↦
      let h' : (commit_all ctx ms (batch_start db) >>= finish_batch ctx) ≡ ok r = rw e at h in
      let (st, el, ef) =
        >>=-eq-ok (commit_all ctx ms (batch_start db)) (finish_batch ctx) {b = r} h' in
      finish_Advances ctx st db {r = r}
        (all_Progress ctx ms db (batch_start db) {st' = st} (inl (refl, refl, refl)) el) ef
]

-- A committed batch that announces no cursor has left the whole database as it was. One that announces
-- a cursor has stored exactly that cursor, which is ahead of the one before, with the time of the
-- commit, and has left the rest of the vault's state (usage, limits and pause) alone.
pub commit_mutations-Advances :
    (env : CommitEnvironment) (session : SocketSession) (forced : Option EntryVersionCaptureReason)
    (ms : List CommitMutationPayload) (db : Database) (r : CommitMutationsResult × Database)
    → commit_mutations env session forced ms db ≡ ok r
    → Advances env.now db r
unfolding commit_mutations context_for
commit_mutations-Advances env session forced ms db r h =
    let (days, ed, et) = >>=-eq-ok (read_version_history_retention_days db) _ {b = r} h in
    transaction_Advances (context_for env session forced ms days) ms db {r = r} et
