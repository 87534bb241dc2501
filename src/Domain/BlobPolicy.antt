-- ===== src/Domain/BlobPolicy.antt =====
-- apps/api/src/sync-coordinator/domain/blob-policy.ts: whether an upload may be staged.
use Prim.Native.String.{◌++◌ as str_append}
use text.Mathlib.Text.{starts_with}
use synch.Common.{
  ℕ, ◌+◌, String, Bool, true, false, not, ◌&&◌, Option, none, some, leb, ltb, eqb, if◌then◌else◌,
}

pub data BlobLifecycleState : Type 0 where
  staged live pending_delete : BlobLifecycleState

abbrev pub same_state : BlobLifecycleState → BlobLifecycleState → Bool
same_state staged staged = true
same_state live live = true
same_state pending_delete pending_delete = true
same_state _ _ = false

pub record ExistingBlobForStage : Type 0 where
  pub state : BlobLifecycleState
  pub size_bytes : ℕ
  pub created_at : ℕ

-- The rejections, with the numbers that they carry.
pub data StageRejection : Type 0 where
  file_too_large : ℕ → ℕ → StageRejection
  blob_already_live : ℕ → StageRejection
  blob_size_changed : ℕ → ℕ → StageRejection
  quota_exceeded : ℕ → ℕ → ℕ → StageRejection

pub data BlobStageDecision : Type 0 where
  sync_paused : String → BlobStageDecision
  rejected : StageRejection → BlobStageDecision
  stage : ℕ → BlobStageDecision

abbrev pub stale_staged_blob_pause_reason_prefix : String
stale_staged_blob_pause_reason_prefix = "staged blob "

unfoldable pub is_stale_staged_blob_pause_reason : String → Bool
is_stale_staged_blob_pause_reason reason = starts_with reason stale_staged_blob_pause_reason_prefix

unfoldable pub stale_staged_reason : String → String
stale_staged_reason blob_id =
    str_append stale_staged_blob_pause_reason_prefix
      (str_append blob_id " remained staged for at least one hour")

pub record StageInput : Type 0 where
  pub blob_id : String
  pub size_bytes : ℕ
  pub now : ℕ
  pub stale_after_ms : ℕ
  pub existing : Option ExistingBlobForStage
  pub is_pinned : Bool
  pub storage_used_bytes : ℕ
  pub storage_limit_bytes : ℕ
  pub max_file_size_bytes : ℕ

-- `now - createdAt >= staleAfterMs`, over the integers.
unfoldable pub is_stale_staged : Option ExistingBlobForStage → ℕ → ℕ → Bool
is_stale_staged none now stale_after = false
is_stale_staged (some b) now stale_after =
    same_state b.state staged && leb (b.created_at + stale_after) now

-- The checks on an upload of a blob that has no row, and of one that has.
unfoldable pub decide_new : StageInput → BlobStageDecision
decide_new i =
    if ltb 0 i.storage_limit_bytes
      && ltb i.storage_limit_bytes (i.storage_used_bytes + i.size_bytes)
    then rejected (quota_exceeded i.storage_limit_bytes i.size_bytes i.storage_used_bytes)
    else stage i.size_bytes

unfoldable pub decide_existing : StageInput → ExistingBlobForStage → BlobStageDecision
decide_existing i b =
    if i.is_pinned
    then rejected (blob_already_live i.size_bytes)
    else if not (eqb b.size_bytes i.size_bytes)
    then rejected (blob_size_changed b.size_bytes i.size_bytes)
    else stage 0

unfoldable pub decide_blob_stage : StageInput → BlobStageDecision
unfolding is_stale_staged decide_new decide_existing
decide_blob_stage i =
    if i.is_pinned && is_stale_staged i.existing i.now i.stale_after_ms
    then sync_paused (stale_staged_reason i.blob_id)
    else if ltb 0 i.max_file_size_bytes && ltb i.max_file_size_bytes i.size_bytes
    then rejected (file_too_large i.max_file_size_bytes i.size_bytes)
    else elim i.existing [ none ↦ decide_new i | some b ↦ decide_existing i b ]
