-- ===== src/Storage/Health.antt =====
-- adapters/outbound/sqlite/health-store.ts: what the health policy is told of a database, at a time. The
-- other counts of the snapshot, which are only reported, are left out.
use synch.Common.{ℕ, ◌+◌, ◌-◌, Option, none, some, List, [], ◌∷◌, leb, Bool, select, map, length}
use synch.Domain.BlobPolicy.{staged, same_state}
use synch.Domain.HealthPolicy.{VaultHealthFacts, earliest}
use synch.Storage.Rows.{Database, BlobRow, ConnectionRow, CoordinatorState}
use synch.Storage.Blobs.{collectible_pending_delete}

-- `lastConnectedAt >= now - activeCursorTtlMs`, over the integers.
abbrev pub is_active : ℕ → ℕ → ConnectionRow → Bool
is_active now ttl c = leb now (c.last_connected_at + ttl)

abbrev pub is_staged : BlobRow → Bool
is_staged r = same_state r.state staged

-- The times that are there, as `min` reads a column.
unfoldable pub delete_times : List BlobRow → List ℕ
delete_times [] = []
delete_times (r ∷ rs) =
    let rest = delete_times rs in elim r.delete_after [ none ↦ rest | some d ↦ d ∷ rest ]

-- `Math.max(0, now - timestamp)`
abbrev pub age_ms : ℕ → Option ℕ → Option ℕ
age_ms now none = none
age_ms now (some timestamp) = some (now - timestamp)

abbrev pub collectible_rows : ℕ → Database → List BlobRow
collectible_rows now db = select (collectible_pending_delete db now) db.blobs

unfoldable pub health_facts : ℕ → ℕ → Database → CoordinatorState → VaultHealthFacts
unfolding delete_times
health_facts now ttl db s = record {
  storage_used_bytes = s.storage_used_bytes;
  storage_limit_bytes = s.storage_limit_bytes;
  oldest_staged_blob_age_ms =
      age_ms now (earliest (map (λ (r : BlobRow). r.created_at) (select is_staged db.blobs)));
  oldest_pending_delete_age_ms = age_ms now (earliest (delete_times (collectible_rows now db)));
  collectible_pending_delete_blob_count = length (collectible_rows now db);
  active_local_vault_count = length (select (is_active now ttl) db.connections);
  last_commit_at = s.last_commit_at;
}

unfoldable pub read_health_snapshot : ℕ → ℕ → Database → Option VaultHealthFacts
unfolding health_facts
read_health_snapshot now ttl db = elim db.state [
  | none ↦ none
  | some s ↦ some (health_facts now ttl db s)
]
