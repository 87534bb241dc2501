-- ===== src/Entry/Restore.antt =====
-- entry-service.ts: `restoreEntryVersion` and `restoreEntryVersions`.
use synch.Common.{
  ℕ, suc, ◌+◌, String, Bool, true, false, not, Option, none, some, List, [], ◌∷◌, ◌++◌, Error,
  Result, ok, err, ◌>>=◌, ◌>>◌, guard, if◌then◌else◌, length, get_elem?, set, or_else,
}
use synch.Common
use synch.Domain.EntryPolicy.{
  EntryOp, before_restore, is_current_revision, is_restore_payload_compatible,
}
use synch.Storage.Rows.{Database, EntryVersionRow}
use synch.Storage.State.{current_cursor}
use synch.Storage.Entries.{read_entry}
use synch.Storage.Versions.{read_entry_version}
use synch.Mutation.{
  SocketSession, CommitMutationPayload, CommitEnvironment, CommitMutationBatchResult, accepted,
  rejected, commit_mutation, commit_mutations, commit_accepted, commit_rejected,
  CommitMutationResult,
}

pub record Restore : Type 0 where
  pub entry_id : String
  pub version_id : String
  pub base_revision : ℕ
  pub op : EntryOp
  pub blob_id : Option String
  pub encrypted_metadata : String

-- The checks on a restore: the version to restore, or the refusal.
unfoldable pub check_restore : Restore → ℕ → Database → Result EntryVersionRow
check_restore r now db = elim (read_entry r.entry_id db) [
  | none ↦ err Common.not_found
  | some current ↦ elim (read_entry_version r.entry_id r.version_id now db) [
    | none ↦ err Common.not_found
    | some target ↦
        if not (is_current_revision current.revision r.base_revision)
        then err (Common.stale_revision current.revision r.base_revision)
        else if not (is_restore_payload_compatible target.op_type target.blob_id r.op r.blob_id)
        then err Common.version_mismatch
        else ok target
  ]
]

-- The mutation that a restore commits; `mutation_id` stands for `crypto.randomUUID()`.
abbrev pub restore_mutation : String → Restore → CommitMutationPayload
restore_mutation mutation_id r = record {
  mutation_id = mutation_id;
  entry_id = r.entry_id;
  op = r.op;
  base_revision = r.base_revision;
  blob_id = r.blob_id;
  encrypted_metadata = r.encrypted_metadata;
}

pub record EntryVersionRestored : Type 0 where
  pub restored_from_revision : ℕ
  pub cursor : ℕ
  pub revision : ℕ
  pub broadcast_cursor : Option ℕ

-- The reply, or the error of the refused commit, together with the database that the commit left.
abbrev pub restored_reply :
    EntryVersionRow → CommitMutationResult × Database → Result EntryVersionRestored × Database
restored_reply target (commit_accepted cursor entry_id revision broadcast, db) = (
  ok (record {
    restored_from_revision = target.source_revision;
    cursor = cursor;
    revision = revision;
    broadcast_cursor = broadcast;
  }),
  db,
)
restored_reply target (commit_rejected e, db) = (err e, db)

-- Of `env.now`, the commit's time, and `now`, that of the checks, each is read for itself.
unfoldable pub restore_entry_version :
    CommitEnvironment
    → SocketSession
    → String
    → Restore
    → ℕ
    → Database
    → Result EntryVersionRestored × Database
unfolding check_restore
restore_entry_version env session mutation_id r now db = elim (check_restore r now db) [
  | err e ↦ (err e, db)
  | ok target ↦
      elim (commit_mutation env session (some before_restore) (restore_mutation mutation_id r) db) [
        | err e ↦ (err e, db)
        | ok committed ↦ restored_reply target committed
      ]
]

pub data RestoreResult : Type 0 where
  restore_accepted : String → String → ℕ → ℕ → ℕ → RestoreResult
  restore_rejected : String → String → Error → RestoreResult
  restore_pending : String → String → RestoreResult

-- The variables of the loop over the restores.
pub record RestorePlan : Type 0 where
  pub results : List RestoreResult
  pub mutation_indexes : List ℕ
  pub restored_from_revisions : List ℕ
  pub mutations : List CommitMutationPayload

abbrev pub plan_one : (ℕ → String) → ℕ → Database → Restore → RestorePlan → RestorePlan
plan_one uuid now db r p = elim (check_restore r now db) [
  | err e ↦ record p { results = p.results ++ restore_rejected r.entry_id r.version_id e ∷ [] }
  | ok target ↦ record {
    results = p.results ++ restore_pending r.entry_id r.version_id ∷ [];
    mutation_indexes = p.mutation_indexes ++ length p.results ∷ [];
    restored_from_revisions = p.restored_from_revisions ++ target.source_revision ∷ [];
    mutations = p.mutations ++ restore_mutation (uuid (length p.mutations)) r ∷ [];
  }
]

unfoldable pub plan_restores :
    (ℕ → String) → ℕ → Database → List Restore → RestorePlan → RestorePlan
unfolding check_restore
plan_restores uuid now db [] p = p
plan_restores uuid now db (r ∷ rs) p = plan_restores uuid now db rs (plan_one uuid now db r p)

abbrev pub no_restores : RestorePlan
no_restores = record {
  results = [];
  mutation_indexes = [];
  restored_from_revisions = [];
  mutations = [];
}

abbrev pub restore_result : Restore → Option ℕ → CommitMutationBatchResult → RestoreResult
restore_result r from (accepted mutation_id cursor entry_id revision) =
    restore_accepted r.entry_id r.version_id (or_else from r.base_revision) cursor revision
restore_result r from (rejected mutation_id entry_id e) = restore_rejected r.entry_id r.version_id e

abbrev pub place_one :
    List Restore
    → RestorePlan
    → ℕ
    → CommitMutationBatchResult
    → List RestoreResult
    → List RestoreResult
place_one restores p i result results = elim (get_elem? p.mutation_indexes i) [
  | none ↦ results
  | some at ↦ elim (get_elem? restores at) [
    | none ↦ results
    | some r ↦ set results at (restore_result r (get_elem? p.restored_from_revisions i) result)
  ]
]

-- The loop over the commit's results, from index `i` on.
unfoldable pub place_results :
    List Restore
    → RestorePlan
    → ℕ
    → List CommitMutationBatchResult
    → List RestoreResult
    → List RestoreResult
place_results restores p i [] results = results
place_results restores p i (c ∷ cs) results =
    place_results restores p (suc i) cs (place_one restores p i c results)

pub record EntryVersionsRestored : Type 0 where
  pub cursor : ℕ
  pub results : List RestoreResult
  pub broadcast_cursor : Option ℕ

unfoldable pub commit_restores :
    CommitEnvironment
    → SocketSession
    → List Restore
    → RestorePlan
    → Database
    → Result (EntryVersionsRestored × Database)
unfolding place_results
commit_restores env session restores p db = elim p.mutations [
  | [] ↦ do
    cursor ← current_cursor db
    ok (record { cursor = cursor; results = p.results; broadcast_cursor = none }, db)
  | _ ∷ _ ↦ do
    committed ← commit_mutations env session (some before_restore) p.mutations db
    ok (
      record {
        cursor = committed.0.cursor;
        results = place_results restores p 0 committed.0.results p.results;
        broadcast_cursor = committed.0.broadcast_cursor;
      },
      committed.1,
    )
]

unfoldable pub restore_entry_versions :
    CommitEnvironment
    → SocketSession
    → (ℕ → String)
    → List Restore
    → ℕ
    → Database
    → Result (EntryVersionsRestored × Database)
unfolding plan_restores commit_restores
restore_entry_versions env session uuid restores now db =
    commit_restores env session restores (plan_restores uuid now db restores no_restores) db
