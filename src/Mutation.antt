-- ===== src/Mutation.antt =====
-- application/services/mutation-service.ts: a batch of entry mutations is committed in one
-- transaction, under optimistic concurrency.
pub mod Writes
pub mod Invariant
pub mod Outcome
pub mod Cursor
pub mod Retry
pub mod Single
pub mod Tests
pub mod Examples
use synch.Common.{
  ℕ, suc, ◌+◌, ◌*◌, String, ◌==◌, Bool, true, false, not, ◌&&◌, Option, none, some, List, [], ◌∷◌,
  ◌++◌, Error, Result, ok, err, ◌>>=◌, ◌>>◌, guard, if◌then◌else◌, is_some, or_else, max, contains,
  distinct, trim, select,
}
use synch.Common
use synch.Domain.BlobPolicy.{staged, live, pending_delete, same_state}
use synch.Domain.EntryPolicy.{
  EntryVersionCaptureReason, auto, EntryOp, upsert, delete, CurrentEntry, ApplyPlan, idempotent,
  stale_revision, apply, EntryMutationDecision, decide_entry_mutation, same_op, same_blob,
}
use synch.Storage.Rows.{Database, EntryRow, EntryVersionRow}
use synch.Storage.State.{
  current_cursor, read_vault_id, read_sync_pause, save_commit, read_version_history_retention_days,
}
use synch.Storage.Entries.{read_entry, upsert_entry}
use synch.Storage.Versions.{insert_entry_version}
use synch.Storage.References.{has_current_reference}
use synch.Storage.Blobs.{read_blob, update_state}

pub record SocketSession : Type 0 where
  pub vault_id : String
  pub user_id : String
  pub local_vault_id : String

pub record CommitMutationPayload : Type 0 where
  pub mutation_id : String
  pub entry_id : String
  pub op : EntryOp
  pub base_revision : ℕ
  pub blob_id : Option String
  pub encrypted_metadata : String

pub data CommitMutationBatchResult : Type 0 where
  accepted : String → ℕ → String → ℕ → CommitMutationBatchResult
  rejected : String → String → Error → CommitMutationBatchResult

-- What `commitMutations` has fixed before its transaction begins. `uuid` stands for the values that
-- `crypto.randomUUID` returns in turn.
pub record CommitContext : Type 0 where
  pub session : SocketSession
  pub now : ℕ
  pub version_history_retention_ms : ℕ
  pub blob_grace_period_ms : ℕ
  pub forced_history_before : Option EntryVersionCaptureReason
  pub unavailable_blob_ids : List String
  pub uuid : ℕ → String

-- The variables of the transaction's loop.
pub record BatchState : Type 0 where
  pub db : Database
  pub next_cursor : Option ℕ
  pub results : List CommitMutationBatchResult
  pub highest_response_cursor : Option ℕ
  pub highest_broadcast_cursor : Option ℕ
  pub seen_mutation_ids : List String
  pub uuids : ℕ

-- A text that JavaScript takes for true.
abbrev pub truthy : Option String → Option String
truthy none = none
truthy (some b) = if b == "" then none else some b

unfoldable pub read_cursor : SocketSession → Database → Result ℕ
unfolding read_vault_id
read_cursor session db = elim (read_vault_id db) [
  | none ↦ err Common.vault_mismatch
  | some vault_id ↦
      if vault_id == session.vault_id then current_cursor db else err Common.vault_mismatch
]

abbrev pub push : CommitMutationBatchResult → BatchState → BatchState
push r st = record st { results = st.results ++ r ∷ [] }

abbrev pub higher : Option ℕ → ℕ → Option ℕ
higher current cursor = some (max (or_else current 0) cursor)

abbrev pub to_current : EntryRow → CurrentEntry
to_current e = record { revision = e.revision; last_mutation_id = e.last_mutation_id }

abbrev pub current_of : Option EntryRow → Option CurrentEntry
current_of none = none
current_of (some e) = some (to_current e)

abbrev pub op_of : EntryRow → EntryOp
op_of e = if e.deleted then delete else upsert

abbrev pub blob_of : Option EntryRow → Option String
blob_of none = none
blob_of (some e) = e.blob_id

-- The row of the version that holds the entry as it was.
abbrev pub version_of_current :
    CommitContext → String → String → EntryRow → EntryVersionCaptureReason → EntryVersionRow
version_of_current ctx version_id entry_id e reason = record {
  version_id = version_id;
  entry_id = entry_id;
  source_revision = e.revision;
  op_type = op_of e;
  blob_id = e.blob_id;
  encrypted_metadata = e.encrypted_metadata;
  reason = reason;
  bucket_start_ms = none;
  captured_at = ctx.now;
  expires_at = ctx.now + ctx.version_history_retention_ms;
  created_by_user_id = ctx.session.user_id;
  created_by_local_vault_id = ctx.session.local_vault_id;
}

-- The row of the sampled version that holds the entry as it becomes.
abbrev pub version_of_next :
    CommitContext → String → CommitMutationPayload → ApplyPlan → EntryVersionRow
version_of_next ctx version_id m plan = record {
  version_id = version_id;
  entry_id = m.entry_id;
  source_revision = plan.revision;
  op_type = m.op;
  blob_id = plan.next_blob_id;
  encrypted_metadata = m.encrypted_metadata;
  reason = auto;
  bucket_start_ms = plan.auto_version_bucket_start;
  captured_at = ctx.now;
  expires_at = ctx.now + ctx.version_history_retention_ms;
  created_by_user_id = ctx.session.user_id;
  created_by_local_vault_id = ctx.session.local_vault_id;
}

abbrev pub next_entry : CommitContext → CommitMutationPayload → String → ApplyPlan → ℕ → EntryRow
next_entry ctx m mutation_id plan cursor = record {
  entry_id = m.entry_id;
  revision = plan.revision;
  blob_id = plan.next_blob_id;
  encrypted_metadata = m.encrypted_metadata;
  deleted = plan.next_deleted;
  updated_seq = cursor;
  updated_at = ctx.now;
  updated_by_user_id = ctx.session.user_id;
  updated_by_local_vault_id = ctx.session.local_vault_id;
  last_mutation_id = some mutation_id;
}

-- Each part of the writes takes the database and the count of uuids drawn, and returns both.
unfoldable pub capture_before :
    CommitContext → String → Option EntryRow → ApplyPlan → ℕ → Database → Database × ℕ
capture_before ctx entry_id none plan n db = (db, n)
capture_before ctx entry_id (some e) plan n db = elim plan.forced_history_before [
  | none ↦ (db, n)
  | some reason ↦
      (insert_entry_version (version_of_current ctx (ctx.uuid n) entry_id e reason) db, suc n)
]

unfoldable pub capture_auto :
    CommitContext → CommitMutationPayload → ApplyPlan → ℕ → Database → Database × ℕ
capture_auto ctx m plan n db =
    if plan.capture_auto_version
    then (insert_entry_version (version_of_next ctx (ctx.uuid n) m plan) db, suc n)
    else (db, n)

unfoldable pub mark_live : Option String → Database → Database
mark_live next db = elim (truthy next) [ none ↦ db | some b ↦ update_state b live none db ]

unfoldable pub retire_replaced : ℕ → Option String → Option String → Database → Database
retire_replaced now current next db = elim (truthy current) [
  | none ↦ db
  | some b ↦
      if not (same_blob (some b) next) && not (has_current_reference b db)
      then update_state b pending_delete (some now) db
      else db
]

-- The writes of one applied mutation, in the order of the source.
unfoldable pub apply_writes :
    CommitContext
    → CommitMutationPayload
    → String
    → Option EntryRow
    → ApplyPlan
    → ℕ
    → ℕ
    → Database
    → Database × ℕ
apply_writes ctx m mutation_id current plan cursor n db =
    let (db₁, n₁) = capture_before ctx m.entry_id current plan n db in
    let db₂ = upsert_entry (next_entry ctx m mutation_id plan cursor) db₁ in
    let (db₃, n₂) = capture_auto ctx m plan n₁ db₂ in
    let db₄ = mark_live plan.next_blob_id db₃ in
    (retire_replaced ctx.now (blob_of current) plan.next_blob_id db₄, n₂)

-- The check of the blob that the entry is to point at: a refusal, or the database to go on with.
unfoldable pub check_next_blob : CommitContext → Option String → Database → Result Database
check_next_blob ctx next db = elim (truthy next) [
  | none ↦ ok db
  | some b ↦
      if contains ctx.unavailable_blob_ids b
      then err Common.blob_not_found
      else elim (read_blob b db) [
        | none ↦ err Common.blob_not_staged
        | some r ↦
            if same_state r.state pending_delete
            then ok (update_state b staged (some (ctx.now + ctx.blob_grace_period_ms)) db)
            else ok db
      ]
]

-- `nextCursor ?? readCursor()`
unfoldable pub next_base : CommitContext → Option ℕ → Database → Result ℕ
next_base ctx none db = read_cursor ctx.session db
next_base ctx (some c) db = ok c

unfoldable pub commit_apply :
    CommitContext
    → CommitMutationPayload
    → String
    → Option EntryRow
    → ApplyPlan
    → BatchState
    → Database
    → Result BatchState
commit_apply ctx m mutation_id current plan st db = do
  base ← next_base ctx st.next_cursor db
  let cursor = base + 1
  let written = apply_writes ctx m mutation_id current plan cursor st.uuids db
  ok (record st {
    db = written.0;
    next_cursor = some cursor;
    results = st.results ++ accepted mutation_id cursor m.entry_id plan.revision ∷ [];
    highest_response_cursor = higher st.highest_response_cursor cursor;
    highest_broadcast_cursor = higher st.highest_broadcast_cursor cursor;
    uuids = written.1;
  })

-- The answer to a mutation that the entry has already taken.
unfoldable pub commit_again : String → Option EntryRow → BatchState → Result BatchState
commit_again mutation_id none st = err Common.no_current_entry
commit_again mutation_id (some e) st = ok (record st {
  highest_response_cursor = higher st.highest_response_cursor e.updated_seq;
  results = st.results ++ accepted mutation_id e.updated_seq e.entry_id e.revision ∷ [];
})

unfoldable pub decision_for :
    CommitContext → CommitMutationPayload → String → Option EntryRow → EntryMutationDecision
decision_for ctx m mutation_id current = decide_entry_mutation (record {
  current = current_of current;
  mutation_id = mutation_id;
  base_revision = m.base_revision;
  op = m.op;
  blob_id = m.blob_id;
  forced_history_before = ctx.forced_history_before;
  now = ctx.now;
})

unfoldable pub commit_checked :
    CommitContext
    → CommitMutationPayload
    → String
    → Option EntryRow
    → ApplyPlan
    → BatchState
    → Result BatchState
commit_checked ctx m mutation_id current plan st =
    elim (check_next_blob ctx plan.next_blob_id st.db) [
      | err e ↦ ok (push (rejected mutation_id m.entry_id e) st)
      | ok db ↦ commit_apply ctx m mutation_id current plan st db
    ]

unfoldable pub commit_decided :
    CommitContext
    → CommitMutationPayload
    → String
    → Option EntryRow
    → EntryMutationDecision
    → BatchState
    → Result BatchState
commit_decided ctx m mutation_id current idempotent st = commit_again mutation_id current st
commit_decided ctx m mutation_id current (stale_revision expected received) st =
    ok (push (rejected mutation_id m.entry_id (Common.stale_revision expected received)) st)
commit_decided ctx m mutation_id current (apply plan) st =
    commit_checked ctx m mutation_id current plan st

-- One round of the loop.
unfoldable pub commit_one : CommitContext → CommitMutationPayload → BatchState → Result BatchState
commit_one ctx m st =
    let mutation_id = trim m.mutation_id in
    if contains st.seen_mutation_ids mutation_id
    then ok (push (rejected mutation_id m.entry_id Common.duplicate_mutation_id) st)
    else let current = read_entry m.entry_id st.db in
      commit_decided ctx m mutation_id current (decision_for ctx m mutation_id current)
        (record st { seen_mutation_ids = mutation_id ∷ st.seen_mutation_ids })

unfoldable pub commit_all :
    CommitContext → List CommitMutationPayload → BatchState → Result BatchState
commit_all ctx [] st = ok st
commit_all ctx (m ∷ ms) st = do st' ← commit_one ctx m st; commit_all ctx ms st'

pub record CommitMutationsResult : Type 0 where
  pub cursor : ℕ
  pub results : List CommitMutationBatchResult
  pub broadcast_cursor : Option ℕ

abbrev pub batch_start : Database → BatchState
batch_start db = record {
  db = db;
  next_cursor = none;
  results = [];
  highest_response_cursor = none;
  highest_broadcast_cursor = none;
  seen_mutation_ids = [];
  uuids = 0;
}

unfoldable pub save_next : ℕ → Option ℕ → Database → Database
save_next now none db = db
save_next now (some cursor) db = save_commit cursor now db

unfoldable pub finish_batch : CommitContext → BatchState → Result (CommitMutationsResult × Database)
unfolding save_next
finish_batch ctx st = do
  let db = save_next ctx.now st.next_cursor st.db
  response ← elim st.highest_response_cursor [ none ↦ read_cursor ctx.session db | some c ↦ ok c ]
  ok (
    record {
      cursor = response;
      results = st.results;
      broadcast_cursor = st.highest_broadcast_cursor;
    },
    db,
  )

-- The transaction; on `err` the database is rolled back to the one given.
unfoldable pub commit_transaction :
    CommitContext
    → List CommitMutationPayload
    → Database
    → Result (CommitMutationsResult × Database)
commit_transaction ctx ms db =
    if is_some (read_sync_pause db)
    then err Common.sync_paused
    else do st ← commit_all ctx ms (batch_start db); finish_batch ctx st

-- The blobs that a batch of upserts names, each once.
abbrev pub upsert_blobs : List CommitMutationPayload → List String
upsert_blobs [] = []
upsert_blobs (m ∷ ms) = elim (truthy m.blob_id) [
  | none ↦ upsert_blobs ms
  | some b ↦ if same_op m.op upsert then b ∷ upsert_blobs ms else upsert_blobs ms
]

-- What the service needs besides the message: `exists` answers for the object store.
pub record CommitEnvironment : Type 0 where
  pub exists : String → Bool
  pub blob_object_key : String → String → String
  pub now : ℕ
  pub blob_grace_period_ms : ℕ
  pub uuid : ℕ → String

abbrev pub day_in_ms : ℕ
day_in_ms = 24 * 60 * 60 * 1000

unfoldable pub context_for :
    CommitEnvironment
    → SocketSession
    → Option EntryVersionCaptureReason
    → List CommitMutationPayload
    → ℕ
    → CommitContext
context_for env session forced ms retention_days = record {
  session = session;
  now = env.now;
  version_history_retention_ms = retention_days * day_in_ms;
  blob_grace_period_ms = env.blob_grace_period_ms;
  forced_history_before = forced;
  unavailable_blob_ids =
      select (λ b. not (env.exists (env.blob_object_key session.vault_id b)))
        (distinct [] (upsert_blobs ms));
  uuid = env.uuid;
}

unfoldable pub commit_mutations :
    CommitEnvironment
    → SocketSession
    → Option EntryVersionCaptureReason
    → List CommitMutationPayload
    → Database
    → Result (CommitMutationsResult × Database)
unfolding commit_transaction context_for
commit_mutations env session forced ms db = do
  retention_days ← read_version_history_retention_days db
  commit_transaction (context_for env session forced ms retention_days) ms db

pub data CommitMutationResult : Type 0 where
  commit_accepted : ℕ → String → ℕ → Option ℕ → CommitMutationResult
  commit_rejected : Error → CommitMutationResult

abbrev pub single_result : Option ℕ → List CommitMutationBatchResult → Result CommitMutationResult
single_result broadcast [] = err Common.no_result
single_result broadcast (accepted mutation_id cursor entry_id revision ∷ rest) =
    ok (commit_accepted cursor entry_id revision broadcast)
single_result broadcast (rejected mutation_id entry_id e ∷ rest) = ok (commit_rejected e)

unfoldable pub commit_mutation :
    CommitEnvironment
    → SocketSession
    → Option EntryVersionCaptureReason
    → CommitMutationPayload
    → Database
    → Result (CommitMutationResult × Database)
unfolding commit_mutations
commit_mutation env session forced m db = do
  batch ← commit_mutations env session forced (m ∷ []) db
  result ← single_result batch.0.broadcast_cursor batch.0.results
  ok (result, batch.1)
