-- ===== src/Mutation/Retry.antt =====
-- A client that has lost the answer to a mutation may send it again.
use synch.Common.{
  ℕ, ◌≡◌, refl, sym, ◌∙◌, ap, subst, String, eq_refl, Option, none, some, [], ◌∷◌, arith, ok,
  >>=-eq-ok, ok_inj, inl, inr, Option-cases, contains, trim,
}
use synch.Domain.EntryPolicy.{EntryVersionCaptureReason, decide_entry_mutation}
use synch.Storage.Rows.{Database, EntryRow, CoordinatorState}
use synch.Storage.State.{
  save_commit, read_sync_pause, read_version_history_retention_days, read_vault_limits,
}
use synch.Storage.Entries.{read_entry}
use synch.Mutation.{
  CommitMutationPayload, CommitMutationBatchResult, accepted, rejected, BatchState, SocketSession,
  CommitMutationsResult, CommitMutationResult, commit_accepted, CommitEnvironment, decision_for,
  commit_again, commit_decided, commit_one, commit_all, batch_start, save_next, finish_batch,
  commit_transaction, context_for, commit_mutations, single_result, commit_mutation,
}
use synch.Mutation.Outcome.{
  View, view, Move, refuse, again, write, commit_one-Reports, read_entry_id,
}
use synch.Mutation.Cursor.{commit_mutations-Advances, finish_batch_parts}

-- The entry has taken the mutation `id`, under this cursor and this revision.
pub record HasTaken (db : Database) (k id : String) (cursor revision : ℕ) : Type 0 where
  pub entry : EntryRow
  pub read : read_entry k db ≡ some entry
  pub last : entry.last_mutation_id ≡ some id
  pub cursor_eq : entry.updated_seq ≡ cursor
  pub revision_eq : entry.revision ≡ revision

-- The vault is initialised and not paused.
pub record IsOpen (db : Database) : Type 0 where
  pub state : CoordinatorState
  pub stored : db.state ≡ some state
  pub running : state.sync_paused_at ≡ none

pub read_entry-save_next :
    (now : ℕ) (o : Option ℕ) (db : Database) (k : String)
    → read_entry k (save_next now o db) ≡ read_entry k db
unfolding save_next save_commit read_entry
read_entry-save_next now none db k = refl
read_entry-save_next now (some c) db k = refl

Move-HasTaken :
    (m : CommitMutationPayload) (id : String) (v : View) (db : Database) (c rev : ℕ) (k : String)
    (r : CommitMutationBatchResult) (reported : String)
    → Move m id v (view db) r
    → r ≡ accepted reported c k rev
    → (k ≡ m.entry_id) × HasTaken db m.entry_id id c rev
Move-HasTaken m id v db c rev k r reported (refuse e _ p same) q = absurd (cc)
Move-HasTaken m id v db c rev k r reported (again e _ f l p same) q = (
  ground arith,
  record {
    entry = e;
    read = same m.entry_id ∙ f;
    last = l;
    cursor_eq = ground arith;
    revision_eq = ground arith;
  },
)
Move-HasTaken m id v db c rev k r reported (write new _ based holds p same) q = (
  ground arith,
  record {
    entry = new;
    read = same m.entry_id ∙ (rw (eq_refl m.entry_id));
    last = holds.last_mutation_id;
    cursor_eq = ground arith;
    revision_eq = ground arith;
  },
)

pause_state :
    (db : Database) (s : CoordinatorState)
    → db.state ≡ some s
    → read_sync_pause db ≡ none
    → s.sync_paused_at ≡ none
unfolding read_sync_pause
pause_state db s e h = elim (Option-cases s.sync_paused_at) [
  | inl n ↦ n
  | inr (at, p) ↦ absurd (ground arith)
]

days_state :
    (db : Database) {days : ℕ}
    → read_version_history_retention_days db ≡ ok days
    → (s : CoordinatorState) × (db.state ≡ some s)
unfolding read_version_history_retention_days read_vault_limits
days_state db {days} h = elim (Option-cases db.state) [
  | inl e ↦ absurd (ground arith)
  | inr (s, e) ↦ (s, e)
]

-- A single accepted answer comes from one accepted result.
pub accepted_shape :
    {c rev : ℕ} {k : String} {b : Option ℕ} (o : Option ℕ) (x : CommitMutationBatchResult)
    → single_result o (x ∷ []) ≡ ok (commit_accepted c k rev b)
    → (id : String) × (x ≡ accepted id c k rev)
accepted_shape o (accepted id c k rev) h = (id, cc)
accepted_shape o (rejected id k e) h = absurd (ground arith)

-- What the answer to a committed single mutation tells.
module _ (env : CommitEnvironment) (session : SocketSession)
    (forced : Option EntryVersionCaptureReason) (m : CommitMutationPayload) (db : Database) where
  IsOpen-after :
      (r : CommitMutationsResult × Database)
      → commit_mutations env session forced (m ∷ []) db ≡ ok r
      → IsOpen db
      → IsOpen r.1
  IsOpen-after r h o = elim (commit_mutations-Advances env session forced (m ∷ []) db r h) [
    | inl (n, same) ↦ subst IsOpen (sym same) o
    | inr (c, s, b, f, g, l) ↦ record {
      state = record s { current_cursor = c; last_commit_at = some env.now };
      stored = g;
      running =
          let same : o.state ≡ s = ground (arith, o.stored, f) in
          sym (ap (λ (x : CoordinatorState). x.sync_paused_at) same) ∙ o.running;
    }
  ]

  transaction_taken :
      (days c rev : ℕ) (k : String) (b : Option ℕ) (r : CommitMutationsResult × Database)
      → commit_transaction (context_for env session forced (m ∷ []) days) (m ∷ []) db ≡ ok r
      → single_result r.0.broadcast_cursor r.0.results ≡ ok (commit_accepted c k rev b)
      → (read_sync_pause db ≡ none)
        × (k ≡ m.entry_id)
        × HasTaken r.1 m.entry_id (trim m.mutation_id) c rev
  unfolding commit_transaction commit_all
  transaction_taken days c rev k b r h a = elim (Option-cases (read_sync_pause db)) [
    | inr (p, e) ↦ absurd (ground arith)
    | inl e ↦
        let ctx = context_for env session forced (m ∷ []) days in
        let (st, el, ef) =
          >>=-eq-ok (commit_all ctx (m ∷ []) (batch_start db)) (finish_batch ctx) {b = r}
            (rw e at h) in
        let (st₁, first, last) = >>=-eq-ok (commit_one ctx m (batch_start db)) _ {b = st} el in
        let (x, res, mv) = commit_one-Reports ctx m (batch_start db) st₁ first in
        let (fr, fd) = finish_batch_parts ctx st {r = r} ef in
        let done : st₁ ≡ st = ok_inj last in
        let results : r.0.results ≡ x ∷ [] =
          fr ∙ sym (ap (λ (y : BatchState). y.results) done) ∙ res in
        let entries : (j : String) → read_entry j r.1 ≡ read_entry j st₁.db = λ j.
          ap (read_entry j) fd
          ∙ read_entry-save_next ctx.now st.next_cursor st.db j
          ∙ sym (ap (λ (y : BatchState). read_entry j y.db) done) in
        let (reported, shape) = accepted_shape _ x (rw results at a) in
        let (ke, t) = Move-HasTaken m (trim m.mutation_id) _ st₁.db c rev k x reported mv shape in
        (
          e,
          ke,
          record {
            entry = t.entry;
            read = entries m.entry_id ∙ t.read;
            last = t.last;
            cursor_eq = t.cursor_eq;
            revision_eq = t.revision_eq;
          },
        )
  ]

-- An entry that has taken a mutation answers it again in the same words, and nothing is written.
pub commit_mutation_again :
    (env : CommitEnvironment) (session : SocketSession) (forced : Option EntryVersionCaptureReason)
    (m : CommitMutationPayload) (db : Database) (c rev : ℕ)
    → IsOpen db
    → HasTaken db m.entry_id (trim m.mutation_id) c rev
    → commit_mutation env session forced m db ≡ ok (commit_accepted c m.entry_id rev none, db)
unfolding commit_mutation commit_mutations commit_transaction context_for commit_all commit_one
    commit_decided commit_again finish_batch save_next read_sync_pause
    read_version_history_retention_days read_vault_limits contains decision_for
    decide_entry_mutation
commit_mutation_again env session forced m db c rev o t = ground (
  arith,
  eq_refl (trim m.mutation_id),
  o.stored,
  o.running,
  t.read,
  t.last,
  t.cursor_eq,
  t.revision_eq,
  read_entry_id m.entry_id db {e = t.entry} t.read,
)

-- After a mutation of an entry was accepted, sending a mutation of the same entry under the same
-- mutation id (whatever else it says, and whoever sends it) gets the same cursor and revision, announces
-- nothing and leaves the database as it is.
pub commit_mutation-retry :
    (env env' : CommitEnvironment) (session session' : SocketSession)
    (forced forced' : Option EntryVersionCaptureReason) (m m' : CommitMutationPayload)
    (db db' : Database) (c rev : ℕ) (k : String) (b : Option ℕ)
    → m'.entry_id ≡ m.entry_id
    → trim m'.mutation_id ≡ trim m.mutation_id
    → commit_mutation env session forced m db ≡ ok (commit_accepted c k rev b, db')
    → commit_mutation env' session' forced' m' db' ≡ ok (commit_accepted c k rev none, db')
unfolding commit_mutation commit_mutations
commit_mutation-retry env env' session session' forced forced' m m' db db' c rev k b same_entry
      same_id h =
    let (r, er, eq) =
      >>=-eq-ok (commit_mutations env session forced (m ∷ []) db) _
        {b = (commit_accepted c k rev b, db')} h in
    let (a, ea, ed) =
      >>=-eq-ok (single_result r.0.broadcast_cursor r.0.results) _
        {b = (commit_accepted c k rev b, db')} eq in
    let (days, eday, et) = >>=-eq-ok (read_version_history_retention_days db) _ {b = r} er in
    let answer : a ≡ commit_accepted c k rev b =
      ap (λ (x : CommitMutationResult × Database). x.0) (ok_inj ed) in
    let stored : r.1 ≡ db' = ap (λ (x : CommitMutationResult × Database). x.1) (ok_inj ed) in
    let (running, ke, taken) =
      transaction_taken env session forced m db days c rev k b r et (ea ∙ ap ok answer) in
    let (s, es) = days_state db {days = days} eday in
    let before : IsOpen db = record {
      state = s;
      stored = es;
      running = pause_state db s es running;
    } in
    let after : IsOpen db' =
      subst IsOpen stored (IsOpen-after env session forced m db r er before) in
    let taken' : HasTaken db' m'.entry_id (trim m'.mutation_id) c rev =
      rw (same_entry, same_id)
        (subst (λ x. HasTaken x m.entry_id (trim m.mutation_id) c rev) stored taken) in
    commit_mutation_again env' session' forced' m' db' c rev after taken'
    ∙ ap (λ x. ok (commit_accepted c x rev none, db')) (same_entry ∙ sym ke)
