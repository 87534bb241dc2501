-- ===== src/Storage/Connections.antt =====
-- adapters/outbound/sqlite/local-vault-connection-store.ts: who has connected, and when.
use synch.Common.{ℕ, String, ◌==◌, Bool, ◌&&◌}
use synch.Storage.Table.{upsert_where, delete_where}
use synch.Storage.Rows.{Database, ConnectionRow}

abbrev pub is_connection : String → String → ConnectionRow → Bool
is_connection user_id local_vault_id c = c.user_id == user_id && c.local_vault_id == local_vault_id

unfoldable pub record_local_vault_connection : String → String → ℕ → Database → Database
record_local_vault_connection user_id local_vault_id now db = record db {
  connections =
      upsert_where (is_connection user_id local_vault_id)
        (record { user_id = user_id; local_vault_id = local_vault_id; last_connected_at = now })
        (λ c. record c { last_connected_at = now }) db.connections;
}

unfoldable pub delete_local_vault_connection : String → String → Database → Database
delete_local_vault_connection user_id local_vault_id db = record db {
  connections = delete_where (is_connection user_id local_vault_id) db.connections;
}
