-- ===== src/Health/Examples.antt =====
-- Flushes of a vault whose one client never committed, and of one with an upload of ten minutes ago.
use synch.Common.{ℕ, ◌+◌, ◌*◌, ◌≡◌, refl, Option, none, some, [], ◌∷◌, arith, select}
use synch.Domain.BlobPolicy.{staged}
use synch.Domain.BlobGcPolicy.{minimum}
use synch.Domain.HealthPolicy.{
  warning, ok, active_without_recent_commit, evaluate_health, storage_health,
  next_health_summary_flush_at, commit_warning_due, future_due_from_age,
}
use synch.Storage.Rows.{Database, CoordinatorState}
use synch.Storage.Blobs.{collectible_pending_delete}
use synch.Storage.Health.{read_health_snapshot, health_facts, delete_times}
use synch.Health.{flushed_health, next_flush_at}
use synch.Health.Unchanged.{flushed_health-same}

abbrev ttl : ℕ
ttl = 30 * 24 * 60 * 60 * 1000

abbrev state : Option ℕ → CoordinatorState
state commit_at = record {
  vault_id = "vault";
  current_cursor = 0;
  storage_used_bytes = 85;
  storage_limit_bytes = 1000;
  max_file_size_bytes = 100;
  version_history_retention_days = 30;
  last_commit_at = commit_at;
  last_gc_at = none;
  sync_paused_at = none;
  sync_pause_reason = none;
}

abbrev idle_vault : Database
idle_vault = record {
  entries = [];
  versions = [];
  blobs = [];
  state = some (state none);
  connections =
      record { user_id = "ann"; local_vault_id = "laptop"; last_connected_at = 5000 } ∷ [];
}

-- The vault is warned about, no flush is asked for, and after thirty days it is well again.
idle_warned :
    flushed_health 6000 ttl idle_vault
    ≡ some (record { status = warning; reasons = active_without_recent_commit ∷ [] })
unfolding flushed_health read_health_snapshot health_facts evaluate_health storage_health select
    collectible_pending_delete delete_times
idle_warned = refl

idle_not_flushed : next_flush_at 6000 ttl idle_vault ≡ none
unfolding next_flush_at read_health_snapshot health_facts next_health_summary_flush_at
    commit_warning_due future_due_from_age select delete_times
idle_not_flushed = refl

idle_forgotten :
    flushed_health (ttl + 6000) ttl idle_vault ≡ some (record { status = ok; reasons = [] })
unfolding flushed_health read_health_snapshot health_facts evaluate_health storage_health select
    collectible_pending_delete delete_times
idle_forgotten = refl

-- The upload is stale at 5000000; nothing changes by 4999999.
abbrev uploading : Database
uploading = record idle_vault {
  blobs =
      record {
        blob_id = "upload";
        state = staged;
        size_bytes = 10;
        created_at = 1400000;
        last_uploaded_at = 1400000;
        delete_after = some 90000000;
      }
      ∷ [];
  state = some (state (some 1000000));
}

flushed_health-same_example :
    flushed_health 4999999 ttl uploading ≡ flushed_health 2000000 ttl uploading
unfolding next_flush_at read_health_snapshot health_facts next_health_summary_flush_at
    commit_warning_due future_due_from_age select delete_times minimum collectible_pending_delete
flushed_health-same_example =
    flushed_health-same 2000000 4999999 ttl uploading (omega arith) refl refl (omega arith)
