-- ===== src/Mutation/Examples.antt =====
-- The theorems on mutations at the small vault of the tests.
use synch.Common.{◌≡◌, refl, String, none, some, [], ◌∷◌, arith, Result, ok, err, trim}
use synch.Storage.Rows.{Database}
use synch.Storage.Invariant.{IsConsistent}
use synch.Storage.Invariant.Accounting.{total_size}
use synch.Storage.Invariant.Backing.{state_in}
use synch.Mutation.{
  CommitContext, CommitMutationPayload, CommitMutationsResult, CommitMutationResult, BatchState,
  accepted, commit_accepted, batch_start, context_for, commit_mutation,
}
use synch.Mutation.Outcome.{view, Move, Reports, commit_one-Reports}
use synch.Mutation.Invariant.{commit_mutations-IsConsistent}
use synch.Mutation.Cursor.{Advances, commit_mutations-Advances}
use synch.Mutation.Retry.{commit_mutation-retry}
use synch.Mutation.Single.{commit_mutation-Move}
use synch.Mutation.Tests.{
  vault, session, environment, edit, stale_edit, removal, run_commit, run_one, run_single,
}
use synch.Protocol.{parse_commit_payloads, parse_commit_payload}

-- What a call that is known to succeed returns.
abbrev pub value {ℓ} : {A : Type ℓ} → A → Result A → A
value d (ok a) = a
value d (err e) = d

pub vault-IsConsistent : IsConsistent vault
unfolding total_size state_in
vault-IsConsistent = record {
  backed = (refl, tt);
  counted = refl;
  sequenced = record { up_to = (omega arith, tt); differ = (tt, tt) };
}

abbrev pub trimmed : CommitMutationPayload → CommitMutationPayload
trimmed m = record m { mutation_id = trim m.mutation_id }

abbrev no_reply : CommitMutationsResult × Database
no_reply = (record { cursor = 0; results = []; broadcast_cursor = none }, vault)

commit_mutations-IsConsistent_example :
    IsConsistent (value no_reply (run_commit (trimmed edit ∷ trimmed removal ∷ []) vault)).1
unfolding run_commit parse_commit_payloads parse_commit_payload
commit_mutations-IsConsistent_example =
    commit_mutations-IsConsistent environment session none (edit ∷ removal ∷ [])
      (trimmed edit ∷ trimmed removal ∷ []) vault
      (value no_reply (run_commit (trimmed edit ∷ trimmed removal ∷ []) vault)) refl
      vault-IsConsistent refl

commit_mutations-Advances_example :
    Advances 100 vault (value no_reply (run_commit (edit ∷ stale_edit ∷ []) vault))
unfolding run_commit
commit_mutations-Advances_example =
    commit_mutations-Advances environment session none (edit ∷ stale_edit ∷ []) vault
      (value no_reply (run_commit (edit ∷ stale_edit ∷ []) vault)) refl

abbrev context : CommitContext
context = context_for environment session none (edit ∷ []) 1

abbrev start : BatchState
start = batch_start vault

commit_one-Reports_example : Reports edit start (value start (run_one context edit start))
unfolding run_one
commit_one-Reports_example =
    commit_one-Reports context edit start (value start (run_one context edit start)) refl

-- The same mutation from another device, with other content.
abbrev again_edit : CommitMutationPayload
again_edit = record edit { mutation_id = "w2"; base_revision = 5; encrypted_metadata = "m9" }

abbrev no_result : CommitMutationResult × Database
no_result = (commit_accepted 0 "" 0 none, vault)

abbrev pub edited : Database
edited = (value no_result (run_single edit vault)).1

commit_mutation-retry_example :
    commit_mutation environment session none again_edit edited
    ≡ ok (commit_accepted 8 "note" 2 none, edited)
unfolding run_single
commit_mutation-retry_example =
    commit_mutation-retry environment environment session session none none edit again_edit vault
      edited 8 2 "note" (some 8) refl refl refl

commit_mutation-Move_example :
    (id : String) × Move edit
      (trim edit.mutation_id)
      (view vault)
      (view edited)
      (accepted id 8 "note" 2)
unfolding run_single
commit_mutation-Move_example =
    commit_mutation-Move environment session none edit vault 8 2 "note" (some 8) edited refl
