-- ===== src/Health/Unchanged.antt =====
-- When the health of a vault is looked at again, and what can change before.
use synch.Common.{
  ℕ, ◌+◌, ◌-◌, ◌≤◌, ◌<◌, ◌≡◌, refl, ap, ◌&&◌, Option, none, some, List, [], ◌∷◌, ◌++◌, arith, inl,
  inr, Bool-cases, Option-cases, leb, ltb, min, All, map, select,
}
use synch.Domain.BlobGcPolicy.{minimum}
use synch.Domain.HealthPolicy.{
  VaultHealthFacts, evaluate_health, storage_health, aged, without_recent_commit, earliest,
  commit_warning_due, future_due_from_age, next_health_summary_flush_at,
  active_without_recent_commit_ms, staged_blob_stale_ms, pending_delete_stale_ms,
}
use synch.Storage.Rows.{Database, BlobRow, CoordinatorState}
use synch.Storage.Blobs.{collectible_pending_delete}
use synch.Storage.Health.{
  is_active, is_staged, delete_times, age_ms, collectible_rows, health_facts, read_health_snapshot,
}
use synch.Health.{flushed_health, next_flush_at}

-- The time `t` is before a time that may be there.
abbrev pub Before : ℕ → Option ℕ → Type 0
Before t none = Unit {0}
Before t (some d) = t < d

minimum_before : (t d : ℕ) (ds : List ℕ) → t < minimum d ds → (t < d) × All (λ x. t < x) ds
unfolding minimum
minimum_before t d [] h = (h, tt)
minimum_before t d (x ∷ xs) h =
    let (a, b) = minimum_before t (min d x) xs h in (omega (arith, a), (omega (arith, a), b))

earliest-Before : (t : ℕ) (ds : List ℕ) → Before t (earliest ds) → All (λ x. t < x) ds
earliest-Before t [] h = tt
earliest-Before t (d ∷ ds) h = minimum_before t d ds h

All-split : (P : ℕ → Type 0) (xs ys : List ℕ) → All P (xs ++ ys) → All P xs × All P ys
All-split P [] ys h = (tt, h)
All-split P (x ∷ xs) ys h = let (a, b) = All-split P xs ys h.1 in ((h.0, a), b)

aged_before :
    (now t threshold : ℕ) (at : Option ℕ)
    → now ≤ t
    → All (λ x. t < x) (future_due_from_age now (age_ms now at) threshold)
    → aged (age_ms t at) threshold ≡ aged (age_ms now at) threshold
unfolding future_due_from_age
aged_before now t threshold none l h = refl
aged_before now t threshold (some at) l h = elim (Bool-cases (leb threshold (now - at))) [
  | inl e ↦ ground (arith, e)
  | inr e ↦
      let due : All (λ x. t < x) ((now + (threshold - (now - at))) ∷ []) =
        rw (future_due_from_age, e) at h in
      ground (arith, e, due.0)
]

commit_before :
    (now t : ℕ) (f : VaultHealthFacts)
    → now ≤ t
    → All (λ x. t < x) (commit_warning_due f now)
    → without_recent_commit f t ≡ without_recent_commit f now
unfolding commit_warning_due
commit_before now t f l h = go f.last_commit_at refl
  where
    go :
        (o : Option ℕ)
        → f.last_commit_at ≡ o
        → without_recent_commit f t ≡ without_recent_commit f now
    go none e = rw e refl
    go (some at) e =
        elim (Bool-cases
          (ltb 0 f.active_local_vault_count && ltb now (at + active_without_recent_commit_ms))) [
            | inl c ↦
                let due : All (λ x. t < x) ((at + active_without_recent_commit_ms) ∷ []) =
                  rw (commit_warning_due, e, c) at h in
                rw e (ground (arith, c, due.0))
            | inr c ↦ rw e (ground (arith, c))
          ]

module _ (now t ttl : ℕ) (db : Database) (l : now ≤ t)
    (same_clients : select (is_active t ttl) db.connections
      ≡ select (is_active now ttl) db.connections)
    (same_due : collectible_rows t db ≡ collectible_rows now db) where
  facts-same :
      (s : CoordinatorState)
      → Before t (next_health_summary_flush_at (health_facts now ttl db s) now)
      → evaluate_health (health_facts t ttl db s) t
        ≡ evaluate_health (health_facts now ttl db s) now
  unfolding evaluate_health next_health_summary_flush_at storage_health health_facts
  facts-same s h =
      let f = health_facts now ttl db s in
      let staged_at = earliest (map (λ (r : BlobRow). r.created_at) (select is_staged db.blobs)) in
      let pending_at = earliest (delete_times (collectible_rows now db)) in
      let first = commit_warning_due f now in
      let second = future_due_from_age now f.oldest_staged_blob_age_ms staged_blob_stale_ms in
      let third = future_due_from_age now f.oldest_pending_delete_age_ms pending_delete_stale_ms in
      let all = earliest-Before t (first ++ second ++ third) h in
      let (start, b) = All-split (λ x. t < x) (first ++ second) third all in
      let (c, a) = All-split (λ x. t < x) first second start in
      rw
        (
          same_clients,
          same_due,
          commit_before now t f l c,
          aged_before now t staged_blob_stale_ms staged_at l a,
          aged_before now t pending_delete_stale_ms pending_at l b,
        )
        refl

-- For a database that does not change, while the clients that count as active and the retired blobs that
-- can be collected stay the same, a flush before the time of the next one (or at any later time, if there
-- is none) reports the status and the reasons of the last. The time alone also takes clients off and adds
-- blobs, which the time of the next flush does not foresee.
pub flushed_health-same :
    (now t ttl : ℕ) (db : Database)
    → now ≤ t
    → select (is_active t ttl) db.connections ≡ select (is_active now ttl) db.connections
    → collectible_rows t db ≡ collectible_rows now db
    → Before t (next_flush_at now ttl db)
    → flushed_health t ttl db ≡ flushed_health now ttl db
unfolding flushed_health next_flush_at read_health_snapshot collectible_pending_delete
flushed_health-same now t ttl db l clients due h = elim (Option-cases db.state) [
  | inl e ↦ rw e refl
  | inr (s, e) ↦ rw e (ap some (facts-same now t ttl db l clients due s (rw e at h)))
]
