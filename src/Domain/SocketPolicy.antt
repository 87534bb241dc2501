-- ===== src/Domain/SocketPolicy.antt =====
-- apps/api/src/sync-coordinator/domain/socket-policy.ts: one connection for a local vault.
use synch.Common.{String, ◌==◌, Bool, ◌&&◌}

pub record SocketSessionIdentity : Type 0 where
  pub user_id : String
  pub local_vault_id : String

unfoldable pub should_replace_socket_session : SocketSessionIdentity → SocketSessionIdentity → Bool
should_replace_socket_session existing incoming =
    existing.user_id == incoming.user_id && existing.local_vault_id == incoming.local_vault_id
