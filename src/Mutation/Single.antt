-- ===== src/Mutation/Single.antt =====
-- `commitMutation`: a single mutation that is accepted is one move of the store of entries.
use synch.Common.{
  ℕ, ◌≡◌, sym, ◌∙◌, ap, subst, String, Option, [], ◌∷◌, arith, ok, >>=-eq-ok, ok_inj, inl, inr,
  Option-cases, trim,
}
use synch.Domain.EntryPolicy.{EntryVersionCaptureReason}
use synch.Storage.Rows.{Database}
use synch.Storage.State.{read_sync_pause, read_version_history_retention_days}
use synch.Storage.Entries.{read_entry}
use synch.Mutation.{
  CommitMutationPayload, CommitMutationBatchResult, accepted, BatchState, SocketSession,
  CommitMutationsResult, CommitMutationResult, commit_accepted, CommitEnvironment, commit_one,
  commit_all, batch_start, finish_batch, commit_transaction, context_for, commit_mutations,
  single_result, commit_mutation,
}
use synch.Mutation.Outcome.{View, view, Move, refuse, again, write, commit_one-Reports}
use synch.Mutation.Cursor.{finish_batch_parts}
use synch.Mutation.Retry.{read_entry-save_next, accepted_shape}

-- The entries read alike in `w'` as in `w`.
Move-view :
    (m : CommitMutationPayload) (id : String) (v w w' : View) (r : CommitMutationBatchResult)
    → ((j : String) → w' j ≡ w j)
    → Move m id v w r
    → Move m id v w' r
Move-view m id v w w' r same (refuse e _ q f) = refuse e r q (λ j. same j ∙ f j)
Move-view m id v w w' r same (again e _ p l q f) = again e r p l q (λ j. same j ∙ f j)
Move-view m id v w w' r same (write new _ p h q f) = write new r p h q (λ j. same j ∙ f j)

module _ (env : CommitEnvironment) (session : SocketSession)
    (forced : Option EntryVersionCaptureReason) (m : CommitMutationPayload) (db : Database) where
  transaction-Move :
      (days c rev : ℕ) (k : String) (b : Option ℕ) (r : CommitMutationsResult × Database)
      → commit_transaction (context_for env session forced (m ∷ []) days) (m ∷ []) db ≡ ok r
      → single_result r.0.broadcast_cursor r.0.results ≡ ok (commit_accepted c k rev b)
      → (id : String) × Move m (trim m.mutation_id) (view db) (view r.1) (accepted id c k rev)
  unfolding commit_transaction commit_all
  transaction-Move days c rev k b r h a = elim (Option-cases (read_sync_pause db)) [
    | inr (p, e) ↦ absurd (ground arith)
    | inl e ↦
        let ctx = context_for env session forced (m ∷ []) days in
        let (st, el, ef) =
          >>=-eq-ok (commit_all ctx (m ∷ []) (batch_start db)) (finish_batch ctx) {b = r}
            (rw e at h) in
        let (st₁, first, last) = >>=-eq-ok (commit_one ctx m (batch_start db)) _ {b = st} el in
        let (x, res, mv) = commit_one-Reports ctx m (batch_start db) st₁ first in
        let (fr, fd) = finish_batch_parts ctx st {r = r} ef in
        let done : st₁ ≡ st = ok_inj last in
        let results : r.0.results ≡ x ∷ [] =
          fr ∙ sym (ap (λ (y : BatchState). y.results) done) ∙ res in
        let entries : (j : String) → read_entry j r.1 ≡ read_entry j st₁.db = λ j.
          ap (read_entry j) fd
          ∙ read_entry-save_next ctx.now st.next_cursor st.db j
          ∙ sym (ap (λ (y : BatchState). read_entry j y.db) done) in
        let (id, shape) = accepted_shape _ x (rw results at a) in
        (
          id,
          Move-view m (trim m.mutation_id) (view db) (view st₁.db) (view r.1) _ entries
              (subst (Move m (trim m.mutation_id) (view db) (view st₁.db)) shape mv),
        )
  ]

  -- A single mutation that is accepted with a cursor and a revision is a move that reports them: it
  -- repeats an answer, or it writes the payload's content over the revision that it is based on.
  pub commit_mutation-Move :
      (c rev : ℕ) (k : String) (b : Option ℕ) (db' : Database)
      → commit_mutation env session forced m db ≡ ok (commit_accepted c k rev b, db')
      → (id : String) × Move m (trim m.mutation_id) (view db) (view db') (accepted id c k rev)
  unfolding commit_mutation commit_mutations
  commit_mutation-Move c rev k b db' h =
      let (r, er, eq) =
        >>=-eq-ok (commit_mutations env session forced (m ∷ []) db) _
          {b = (commit_accepted c k rev b, db')} h in
      let (a, ea, ed) =
        >>=-eq-ok (single_result r.0.broadcast_cursor r.0.results) _
          {b = (commit_accepted c k rev b, db')} eq in
      let (days, eday, et) = >>=-eq-ok (read_version_history_retention_days db) _ {b = r} er in
      let answer : a ≡ commit_accepted c k rev b =
        ap (λ (x : CommitMutationResult × Database). x.0) (ok_inj ed) in
      let stored : r.1 ≡ db' = ap (λ (x : CommitMutationResult × Database). x.1) (ok_inj ed) in
      let (id, mv) = transaction-Move days c rev k b r et (ea ∙ ap ok answer) in
      (
        id,
        subst (λ x. Move m (trim m.mutation_id) (view db) (view x) (accepted id c k rev)) stored mv,
      )
