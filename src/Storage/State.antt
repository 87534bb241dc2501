-- ===== src/Storage/State.antt =====
-- adapters/outbound/sqlite/coordinator-state-store.ts: cursor, usage, limits and the sync pause.
use synch.Common.{
  ℕ, String, ◌==◌, Bool, true, false, Option, none, some, Result, ok, err, vault_mismatch,
  uninitialized, ◌>>=◌, if◌then◌else◌, or_else,
}
use synch.Storage.Rows.{Database, CoordinatorState, ℤ, clamp_add}

pub record VaultStateLimits : Type 0 where
  pub storage_limit_bytes : ℕ
  pub max_file_size_bytes : ℕ
  pub version_history_retention_days : ℕ

pub record SyncPauseState : Type 0 where
  pub paused_at : ℕ
  pub reason : String

-- UPDATE coordinator_state … WHERE id = 1
abbrev pub on_state : (CoordinatorState → CoordinatorState) → Database → Database
on_state f db = record db { state = elim db.state [ none ↦ none | some s ↦ some (f s) ] }

abbrev pub read_state {ℓ} : {A : Type ℓ} → (CoordinatorState → A) → Database → Result A
read_state f db = elim db.state [ none ↦ err uninitialized | some s ↦ ok (f s) ]

unfoldable pub record_gc_completed : ℕ → Database → Database
record_gc_completed now = on_state (λ s. record s { last_gc_at = some now })

unfoldable pub current_cursor : Database → Result ℕ
current_cursor = read_state (λ s. s.current_cursor)

abbrev pub initial_state : String → VaultStateLimits → CoordinatorState
initial_state vault_id limits = record {
  vault_id = vault_id;
  current_cursor = 0;
  storage_used_bytes = 0;
  storage_limit_bytes = limits.storage_limit_bytes;
  max_file_size_bytes = limits.max_file_size_bytes;
  version_history_retention_days = limits.version_history_retention_days;
  last_commit_at = none;
  last_gc_at = none;
  sync_paused_at = none;
  sync_pause_reason = none;
}

unfoldable pub ensure_vault_state : String → VaultStateLimits → Database → Result Database
ensure_vault_state vault_id limits db = elim db.state [
  | none ↦ ok (record db { state = some (initial_state vault_id limits) })
  | some s ↦ if s.vault_id == vault_id then ok db else err vault_mismatch
]

unfoldable pub read_vault_id : Database → Option String
read_vault_id db = elim db.state [ none ↦ none | some s ↦ some s.vault_id ]

abbrev pub pause_of : CoordinatorState → Option SyncPauseState
pause_of s = elim s.sync_paused_at [
  | none ↦ none
  | some at ↦
      some (record { paused_at = at; reason = or_else s.sync_pause_reason "vault sync paused" })
]

unfoldable pub read_sync_pause : Database → Option SyncPauseState
read_sync_pause db = elim db.state [ none ↦ none | some s ↦ pause_of s ]

unfoldable pub clear_sync_pause : Database → Database
clear_sync_pause = on_state (λ s. record s { sync_paused_at = none; sync_pause_reason = none })

-- An empty vault id reads as no vault: `!existingVaultId`.
abbrev pub exists_for : Option String → String → Result Bool
exists_for none vault_id = ok false
exists_for (some existing) vault_id =
    if existing == ""
    then ok false
    else if existing == vault_id
    then ok true
    else err vault_mismatch

unfoldable pub vault_state_exists_for : String → Database → Result Bool
unfolding read_vault_id
vault_state_exists_for vault_id db = exists_for (read_vault_id db) vault_id

unfoldable pub read_vault_limits : Database → Result VaultStateLimits
read_vault_limits = read_state λ s. record {
  storage_limit_bytes = s.storage_limit_bytes;
  max_file_size_bytes = s.max_file_size_bytes;
  version_history_retention_days = s.version_history_retention_days;
}

-- Returns whether the policy was applied, and the database.
unfoldable pub apply_vault_policy : String → VaultStateLimits → Database → Result (Bool × Database)
unfolding vault_state_exists_for
apply_vault_policy vault_id limits db = do
  known ← vault_state_exists_for vault_id db
  if known
      then ok (
        true,
        on_state
            (λ s. record s {
              storage_limit_bytes = limits.storage_limit_bytes;
              max_file_size_bytes = limits.max_file_size_bytes;
              version_history_retention_days = limits.version_history_retention_days;
            })
            db,
      )
      else ok (false, db)

unfoldable pub read_version_history_retention_days : Database → Result ℕ
unfolding read_vault_limits
read_version_history_retention_days db = do
  limits ← read_vault_limits db
  ok limits.version_history_retention_days

unfoldable pub read_storage_used_bytes : Database → Result ℕ
read_storage_used_bytes = read_state (λ s. s.storage_used_bytes)

unfoldable pub adjust_storage_used_bytes : ℤ → Database → Database
adjust_storage_used_bytes delta =
    on_state (λ s. record s { storage_used_bytes = clamp_add s.storage_used_bytes delta })

abbrev pub coalesce {ℓ} : {A : Type ℓ} → Option A → A → Option A
coalesce none a = some a
coalesce (some b) a = some b

unfoldable pub pause_sync : ℕ → String → Database → Database
pause_sync now reason = on_state λ s. record s {
  sync_paused_at = coalesce s.sync_paused_at now;
  sync_pause_reason = coalesce s.sync_pause_reason reason;
}

unfoldable pub save_commit : ℕ → ℕ → Database → Database
save_commit cursor now =
    on_state (λ s. record s { current_cursor = cursor; last_commit_at = some now })
