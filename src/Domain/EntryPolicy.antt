-- ===== src/Domain/EntryPolicy.antt =====
-- apps/api/src/sync-coordinator/domain/entry-policy.ts: optimistic concurrency of entry mutations,
-- restores and purges.
use synch.Common.{
  ℕ, ◌+◌, ◌*◌, ◌/◌, String, ◌==◌, Bool, true, false, not, ◌&&◌, Option, none, some, eqb, ltb,
  is_some, if◌then◌else◌,
}

pub data EntryVersionCaptureReason : Type 0 where
  auto before_delete before_restore manual : EntryVersionCaptureReason

pub data EntryOp : Type 0 where
  upsert delete : EntryOp

abbrev pub auto_entry_version_bucket_ms : ℕ
auto_entry_version_bucket_ms = 5 * 60 * 1000

pub record CurrentEntry : Type 0 where
  pub revision : ℕ
  pub last_mutation_id : Option String

pub record EntryMutationInput : Type 0 where
  pub current : Option CurrentEntry
  pub mutation_id : String
  pub base_revision : ℕ
  pub op : EntryOp
  pub blob_id : Option String
  pub forced_history_before : Option EntryVersionCaptureReason
  pub now : ℕ

pub record ApplyPlan : Type 0 where
  pub previous_revision : ℕ
  pub revision : ℕ
  pub next_blob_id : Option String
  pub next_deleted : Bool
  pub forced_history_before : Option EntryVersionCaptureReason
  pub capture_auto_version : Bool
  pub auto_version_bucket_start : Option ℕ

pub data EntryMutationDecision : Type 0 where
  idempotent : EntryMutationDecision
  stale_revision : ℕ → ℕ → EntryMutationDecision
  apply : ApplyPlan → EntryMutationDecision

-- `a === b` where either may be null and `b` is a text.
abbrev pub is_text : Option String → String → Bool
is_text none b = false
is_text (some a) b = a == b

abbrev pub last_mutation : Option CurrentEntry → Option String
last_mutation none = none
last_mutation (some c) = c.last_mutation_id

abbrev pub current_revision : Option CurrentEntry → ℕ
current_revision none = 0
current_revision (some c) = c.revision

abbrev pub forced_history :
    EntryOp → Option EntryVersionCaptureReason → Option EntryVersionCaptureReason
forced_history delete forced = some before_delete
forced_history upsert forced = forced

abbrev pub blob_after : EntryOp → Option String → Option String
blob_after delete blob = none
blob_after upsert blob = blob

abbrev pub is_delete : EntryOp → Bool
is_delete delete = true
is_delete upsert = false

unfoldable pub bucket_start : ℕ → ℕ
bucket_start now = now / auto_entry_version_bucket_ms * auto_entry_version_bucket_ms

unfoldable pub plan_mutation : EntryMutationInput → ApplyPlan
plan_mutation i =
    let previous = current_revision i.current in
    let forced = forced_history i.op i.forced_history_before in
    let capture = not (is_some forced) && ltb 0 i.base_revision in
    record {
      previous_revision = previous;
      revision = previous + 1;
      next_blob_id = blob_after i.op i.blob_id;
      next_deleted = is_delete i.op;
      forced_history_before = forced;
      capture_auto_version = capture;
      auto_version_bucket_start = if capture then some (bucket_start i.now) else none;
    }

unfoldable pub decide_entry_mutation : EntryMutationInput → EntryMutationDecision
unfolding plan_mutation
decide_entry_mutation i =
    if is_text (last_mutation i.current) i.mutation_id
    then idempotent
    else if not (eqb (current_revision i.current) i.base_revision)
    then stale_revision (current_revision i.current) i.base_revision
    else apply (plan_mutation i)

unfoldable pub is_current_revision : ℕ → ℕ → Bool
is_current_revision current received = eqb current received

abbrev pub same_op : EntryOp → EntryOp → Bool
same_op upsert upsert = true
same_op delete delete = true
same_op _ _ = false

-- `a === b` for two texts that may be null.
abbrev pub same_blob : Option String → Option String → Bool
same_blob none none = true
same_blob (some a) (some b) = a == b
same_blob _ _ = false

unfoldable pub is_restore_payload_compatible :
    EntryOp → Option String → EntryOp → Option String → Bool
is_restore_payload_compatible target_op target_blob restore_op restore_blob =
    same_op target_op restore_op && same_blob target_blob restore_blob

pub record PurgeFacts : Type 0 where
  pub revision : ℕ
  pub deleted : Bool

pub data DeletedEntryPurgeDecision : Type 0 where
  not_found not_deleted no_history accepted : DeletedEntryPurgeDecision
  stale : ℕ → DeletedEntryPurgeDecision

unfoldable pub decide_deleted_entry_purge : Option PurgeFacts → ℕ → Bool → DeletedEntryPurgeDecision
decide_deleted_entry_purge none received history = not_found
decide_deleted_entry_purge (some c) received history =
    if not c.deleted
    then not_deleted
    else if not (eqb c.revision received)
    then stale c.revision
    else if not history
    then no_history
    else accepted
