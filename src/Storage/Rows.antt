-- ===== src/Storage/Rows.antt =====
-- The tables' rows (apps/api/src/db/do/index.ts) and the database.
use synch.Common.{ℕ, zero, suc, ◌+◌, ◌-◌, String, Bool, Option, List}
use synch.Domain.BlobPolicy.{BlobLifecycleState}
use synch.Domain.EntryPolicy.{EntryOp, EntryVersionCaptureReason}

pub record EntryRow : Type 0 where
  pub entry_id : String
  pub revision : ℕ
  pub blob_id : Option String
  pub encrypted_metadata : String
  pub deleted : Bool
  pub updated_seq : ℕ
  pub updated_at : ℕ
  pub updated_by_user_id : String
  pub updated_by_local_vault_id : String
  pub last_mutation_id : Option String

pub record EntryVersionRow : Type 0 where
  pub version_id : String
  pub entry_id : String
  pub source_revision : ℕ
  pub op_type : EntryOp
  pub blob_id : Option String
  pub encrypted_metadata : String
  pub reason : EntryVersionCaptureReason
  pub bucket_start_ms : Option ℕ
  pub captured_at : ℕ
  pub expires_at : ℕ
  pub created_by_user_id : String
  pub created_by_local_vault_id : String

pub record BlobRow : Type 0 where
  pub blob_id : String
  pub state : BlobLifecycleState
  pub size_bytes : ℕ
  pub created_at : ℕ
  pub last_uploaded_at : ℕ
  pub delete_after : Option ℕ

pub record CoordinatorState : Type 0 where
  pub vault_id : String
  pub current_cursor : ℕ
  pub storage_used_bytes : ℕ
  pub storage_limit_bytes : ℕ
  pub max_file_size_bytes : ℕ
  pub version_history_retention_days : ℕ
  pub last_commit_at : Option ℕ
  pub last_gc_at : Option ℕ
  pub sync_paused_at : Option ℕ
  pub sync_pause_reason : Option String

pub record ConnectionRow : Type 0 where
  pub user_id : String
  pub local_vault_id : String
  pub last_connected_at : ℕ

-- `coordinator_state` has at most the row whose id is 1.
pub record Database : Type 0 where
  pub entries : List EntryRow
  pub versions : List EntryVersionRow
  pub blobs : List BlobRow
  pub state : Option CoordinatorState
  pub connections : List ConnectionRow

-- A change of a byte count, which may be negative; `negsuc n` is -(n + 1).
pub data ℤ : Type 0 where
  pos : ℕ → ℤ
  negsuc : ℕ → ℤ

abbrev pub neg : ℕ → ℤ
neg zero = pos 0
neg (suc n) = negsuc n

-- SQL's `max(0, n + delta)`
abbrev pub clamp_add : ℕ → ℤ → ℕ
clamp_add n (pos d) = n + d
clamp_add n (negsuc d) = n - suc d
