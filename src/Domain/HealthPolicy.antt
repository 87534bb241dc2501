-- ===== src/Domain/HealthPolicy.antt =====
-- apps/api/src/sync-coordinator/domain/health-policy.ts: the health of a vault's sync state, and
-- when to look again.
pub mod Status
use synch.Common.{
  ℕ, ◌+◌, ◌-◌, ◌*◌, ◌/◌, Bool, true, false, ◌&&◌, ◌||◌, Option, none, some, List, [], ◌∷◌, ◌++◌,
  leb, ltb, min, if◌then◌else◌,
}
use synch.Domain.BlobGcPolicy.{minimum}

pub data VaultSyncHealthStatus : Type 0 where
  ok warning critical unknown : VaultSyncHealthStatus

pub data HealthReason : Type 0 where
  storage_over_limit storage_near_limit staged_blob_stale : HealthReason
  pending_delete_stale pending_delete_backlog active_without_recent_commit : HealthReason

pub record VaultHealthFacts : Type 0 where
  pub storage_used_bytes : ℕ
  pub storage_limit_bytes : ℕ
  pub oldest_staged_blob_age_ms : Option ℕ
  pub oldest_pending_delete_age_ms : Option ℕ
  pub collectible_pending_delete_blob_count : ℕ
  pub active_local_vault_count : ℕ
  pub last_commit_at : Option ℕ

abbrev pub staged_blob_stale_ms : ℕ
staged_blob_stale_ms = 60 * 60 * 1000

abbrev pub pending_delete_stale_ms : ℕ
pending_delete_stale_ms = 24 * 60 * 60 * 1000

abbrev pub active_without_recent_commit_ms : ℕ
active_without_recent_commit_ms = 24 * 60 * 60 * 1000

abbrev pub pending_delete_backlog_warning_count : ℕ
pending_delete_backlog_warning_count = 100

-- The loop state of `evaluateHealth`: the status and the reasons found so far.
pub record Health : Type 0 where
  pub status : VaultSyncHealthStatus
  pub reasons : List HealthReason

abbrev pub warn : HealthReason → Health → Health
warn reason h = record {
  status = elim h.status [ ok ↦ warning | s ↦ s ];
  reasons = h.reasons ++ reason ∷ [];
}

abbrev pub alarm : HealthReason → Health → Health
alarm reason h = record { status = critical; reasons = h.reasons ++ reason ∷ [] }

-- A nullable age that has reached a threshold.
abbrev pub aged : Option ℕ → ℕ → Bool
aged none threshold = false
aged (some age) threshold = leb threshold age

-- `lastCommitAt === null || now - lastCommitAt >= threshold`, over the integers.
abbrev pub no_recent_commit : Option ℕ → ℕ → Bool
no_recent_commit none now = true
no_recent_commit (some at) now = leb (at + active_without_recent_commit_ms) now

abbrev pub over_limit : VaultHealthFacts → Bool
over_limit f = ltb 0 f.storage_limit_bytes && leb f.storage_limit_bytes f.storage_used_bytes

-- `Math.floor(limit * 0.8)`, which is `limit * 4 / 5` for every limit below 2^50.
abbrev pub near_limit : VaultHealthFacts → Bool
near_limit f =
    ltb 0 f.storage_limit_bytes && leb (f.storage_limit_bytes * 4 / 5) f.storage_used_bytes

abbrev pub without_recent_commit : VaultHealthFacts → ℕ → Bool
without_recent_commit f now =
    ltb 0 f.active_local_vault_count && no_recent_commit f.last_commit_at now

abbrev pub warn_if : Bool → HealthReason → Health → Health
warn_if test reason h = if test then warn reason h else h

unfoldable pub storage_health : VaultHealthFacts → Health → Health
storage_health f h =
    if over_limit f
    then alarm storage_over_limit h
    else if near_limit f
    then warn storage_near_limit h
    else h

unfoldable pub evaluate_health : VaultHealthFacts → ℕ → Health
unfolding storage_health
evaluate_health f now = warn_if (without_recent_commit f now) active_without_recent_commit (
    warn_if (ltb pending_delete_backlog_warning_count f.collectible_pending_delete_blob_count)
      pending_delete_backlog
      (warn_if (aged f.oldest_pending_delete_age_ms pending_delete_stale_ms) pending_delete_stale (
        warn_if (aged f.oldest_staged_blob_age_ms staged_blob_stale_ms) staged_blob_stale
          (storage_health f (record { status = ok; reasons = [] })))))

unfoldable pub future_due_from_age : ℕ → Option ℕ → ℕ → List ℕ
future_due_from_age now none threshold = []
future_due_from_age now (some age) threshold =
    if leb threshold age then [] else (now + (threshold - age)) ∷ []

unfoldable pub commit_warning_due : VaultHealthFacts → ℕ → List ℕ
commit_warning_due f now = elim f.last_commit_at [
  | none ↦ []
  | some at ↦
      if ltb 0 f.active_local_vault_count && ltb now (at + active_without_recent_commit_ms)
      then (at + active_without_recent_commit_ms) ∷ []
      else []
]

-- The earliest of the candidates, or none.
abbrev pub earliest : List ℕ → Option ℕ
earliest [] = none
earliest (d ∷ ds) = some (minimum d ds)

unfoldable pub next_health_summary_flush_at : VaultHealthFacts → ℕ → Option ℕ
unfolding commit_warning_due future_due_from_age minimum
next_health_summary_flush_at f now = earliest (
    commit_warning_due f now
    ++ future_due_from_age now f.oldest_staged_blob_age_ms staged_blob_stale_ms
    ++ future_due_from_age now f.oldest_pending_delete_age_ms pending_delete_stale_ms)
