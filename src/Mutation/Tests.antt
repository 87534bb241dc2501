-- ===== src/Mutation/Tests.antt =====
-- A small vault, and runs of `commit_mutations` over it.
use synch.Common.{
  ℕ, ◌≡◌, refl, true, false, none, some, List, [], ◌∷◌, map, Result, ok, err, ◌>>=◌, distinct, Bool,
  eqb, if◌then◌else◌, contains, select, any, find?, trim,
}
use synch.Common
use synch.Domain.BlobPolicy.{BlobLifecycleState, staged, live, pending_delete}
use synch.Domain.EntryPolicy.{upsert, delete}
use synch.Storage.Rows.{Database, EntryRow, BlobRow, CoordinatorState}
use synch.Domain.EntryPolicy.{decide_entry_mutation, bucket_start}
use synch.Storage.Table.{update_where, upsert_where}
use synch.Storage.State.{
  read_version_history_retention_days, read_vault_limits, read_sync_pause, current_cursor,
  save_commit,
}
use synch.Storage.Entries.{read_entry, upsert_entry}
use synch.Storage.Versions.{insert_entry_version}
use synch.Storage.References.{has_current_reference}
use synch.Storage.Blobs.{read_blob, update_state}
use synch.Mutation.{
  CommitContext, BatchState, CommitMutationResult, context_for, commit_mutation, SocketSession,
  CommitMutationPayload, CommitEnvironment, CommitMutationsResult, accepted, rejected, read_cursor,
  capture_before, capture_auto, mark_live, retire_replaced, apply_writes, check_next_blob,
  next_base, commit_apply, commit_again, decision_for, commit_checked, commit_decided, commit_one,
  commit_all, finish_batch, commit_mutations,
}

abbrev pub note : EntryRow
note = record {
  entry_id = "note";
  revision = 1;
  blob_id = some "b1";
  encrypted_metadata = "m1";
  deleted = false;
  updated_seq = 7;
  updated_at = 50;
  updated_by_user_id = "ann";
  updated_by_local_vault_id = "laptop";
  last_mutation_id = some "w1";
}

abbrev pub blob_1 : BlobRow
blob_1 = record {
  blob_id = "b1";
  state = live;
  size_bytes = 100;
  created_at = 40;
  last_uploaded_at = 40;
  delete_after = none;
}

abbrev pub blob_2 : BlobRow
blob_2 = record {
  blob_id = "b2";
  state = staged;
  size_bytes = 20;
  created_at = 60;
  last_uploaded_at = 60;
  delete_after = some 2000;
}

abbrev pub vault_state : CoordinatorState
vault_state = record {
  vault_id = "vault";
  current_cursor = 7;
  storage_used_bytes = 120;
  storage_limit_bytes = 1000;
  max_file_size_bytes = 500;
  version_history_retention_days = 1;
  last_commit_at = some 50;
  last_gc_at = none;
  sync_paused_at = none;
  sync_pause_reason = none;
}

abbrev pub vault : Database
vault = record {
  entries = note ∷ [];
  versions = [];
  blobs = blob_1 ∷ blob_2 ∷ [];
  state = some vault_state;
  connections = [];
}

abbrev pub session : SocketSession
session = record { vault_id = "vault"; user_id = "ann"; local_vault_id = "phone" }

abbrev pub environment : CommitEnvironment
environment = record {
  exists = λ key. true;
  blob_object_key = λ vault_id blob_id. blob_id;
  now = 100;
  blob_grace_period_ms = 1800;
  uuid = λ n. if eqb n 0 then "v0" else "v1";
}

abbrev pub edit : CommitMutationPayload
edit = record {
  mutation_id = " w2 ";
  entry_id = "note";
  op = upsert;
  base_revision = 1;
  blob_id = some "b2";
  encrypted_metadata = "m2";
}

abbrev pub stale_edit : CommitMutationPayload
stale_edit = record edit { mutation_id = "w3"; base_revision = 0 }

abbrev pub removal : CommitMutationPayload
removal = record {
  mutation_id = "w4";
  entry_id = "note";
  op = delete;
  base_revision = 2;
  blob_id = none;
  encrypted_metadata = "m3";
}

-- `commit_mutations` with all that it calls open.
unfoldable pub run_commit :
    List CommitMutationPayload → Database → Result (CommitMutationsResult × Database)
unfolding commit_mutations read_version_history_retention_days read_vault_limits distinct contains
    select read_sync_pause commit_all commit_one trim read_entry find? decision_for
    decide_entry_mutation bucket_start commit_decided commit_again commit_checked check_next_blob
    read_blob update_state update_where commit_apply next_base read_cursor current_cursor
    apply_writes capture_before capture_auto insert_entry_version any upsert_entry upsert_where
    mark_live retire_replaced has_current_reference finish_batch save_commit
run_commit ms db = commit_mutations environment session none ms db

-- One round of the loop, and a single mutation, likewise open.
unfoldable pub run_one : CommitContext → CommitMutationPayload → BatchState → Result BatchState
unfolding run_commit context_for
run_one ctx m st = commit_one ctx m st

unfoldable pub run_single :
    CommitMutationPayload → Database → Result (CommitMutationResult × Database)
unfolding run_commit commit_mutation
run_single m db = commit_mutation environment session none m db

-- An edit, the same edit again, a stale edit and a removal, in one batch.
batch_results :
    (do r ← run_commit (edit ∷ edit ∷ stale_edit ∷ removal ∷ []) vault; ok r.0.results)
    ≡ ok (
        accepted "w2" 8 "note" 2
        ∷ rejected "w2" "note" Common.duplicate_mutation_id
        ∷ rejected "w3" "note" (Common.stale_revision 2 0)
        ∷ accepted "w4" 9 "note" 3
        ∷ [])
unfolding run_commit
batch_results = refl

-- The entries with their cursors, the blobs' states, and the versions kept.
abbrev shape :
    Result (CommitMutationsResult × Database) → List (Bool × ℕ) × List BlobLifecycleState × List ℕ
shape (err e) = ([], [], [])
shape (ok r) = (
  map (λ e. (e.deleted, e.updated_seq)) r.1.entries,
  map (λ b. b.state) r.1.blobs,
  map (λ v. v.source_revision) r.1.versions,
)

-- Its writes: the entry is a deletion at cursor 9, both blobs wait to be deleted, and the
-- history holds the sampled edit and, once more, the content before the removal.
batch_writes :
    shape (run_commit (edit ∷ removal ∷ []) vault)
    ≡ ((true, 9) ∷ [], pending_delete ∷ pending_delete ∷ [], 2 ∷ 2 ∷ [])
unfolding run_commit
batch_writes = refl
