-- ===== src/Health.antt =====
-- application/services/health-service.ts: what a flush of the summary reports, and when it asks for the
-- next one. Writing the summary and the broadcast of the storage status are left out.
pub mod Examples
pub mod Unchanged
use synch.Common.{ℕ, Option, none, some}
use synch.Domain.HealthPolicy.{
  Health, VaultHealthFacts, evaluate_health, next_health_summary_flush_at,
}
use synch.Storage.Rows.{Database}
use synch.Storage.Health.{read_health_snapshot}

-- The status and the reasons of the summary, if there is a snapshot.
unfoldable pub flushed_health : ℕ → ℕ → Database → Option Health
unfolding read_health_snapshot evaluate_health
flushed_health now ttl db = elim (read_health_snapshot now ttl db) [
  | none ↦ none
  | some facts ↦ some (evaluate_health facts now)
]

unfoldable pub next_flush_at : ℕ → ℕ → Database → Option ℕ
unfolding read_health_snapshot next_health_summary_flush_at
next_flush_at now ttl db = elim (read_health_snapshot now ttl db) [
  | none ↦ none
  | some facts ↦ next_health_summary_flush_at facts now
]
