-- ===== src/Domain/HealthPolicy/Status.antt =====
-- What the status of a vault says.
use synch.Common.{
  ℕ, ◌≡◌, ◌↔◌, refl, Bool, true, false, List, [], ◌∷◌, ◌++◌, arith, inl, inr, Bool-cases, ltb,
}
use synch.Domain.HealthPolicy.{
  VaultHealthFacts, VaultSyncHealthStatus, ok, warning, critical, unknown, Health, evaluate_health,
  storage_health, over_limit, aged, without_recent_commit, HealthReason, staged_blob_stale,
  pending_delete_stale, pending_delete_backlog, active_without_recent_commit,
  pending_delete_backlog_warning_count, warn, warn_if, near_limit, staged_blob_stale_ms,
  pending_delete_stale_ms,
}

-- What the status says of the limit and of the reasons.
abbrev pub IsSound : Bool → Health → Type 0
IsSound over h = (h.status ≡ critical ↔ over ≡ true) × (h.status ≡ ok ↔ h.reasons ≡ [])

append_one : (rs : List HealthReason) (r : HealthReason) → ((rs ++ r ∷ []) ≡ []) → ⊥
append_one [] r h = cc
append_one (x ∷ xs) r h = cc

warn-IsSound :
    (over : Bool) (r : HealthReason) (s : VaultSyncHealthStatus) (rs : List HealthReason)
    → IsSound over (record { status = s; reasons = rs })
    → IsSound over (warn r (record { status = s; reasons = rs }))
warn-IsSound over r ok rs h = (
  ((λ e. absurd (ground arith)), (λ e. absurd (ground (arith, h.0.1 e)))),
  ((λ e. absurd (ground arith)), (λ e. absurd (append_one rs r e))),
)
warn-IsSound over r warning rs h =
    (h.0, ((λ e. absurd (ground arith)), (λ e. absurd (append_one rs r e))))
warn-IsSound over r unknown rs h =
    (h.0, ((λ e. absurd (ground arith)), (λ e. absurd (append_one rs r e))))
warn-IsSound over r critical rs h =
    (h.0, ((λ e. absurd (ground arith)), (λ e. absurd (append_one rs r e))))

warn_if-IsSound :
    (over test : Bool) (r : HealthReason) (h : Health)
    → IsSound over h
    → IsSound over (warn_if test r h)
warn_if-IsSound over true r h k = warn-IsSound over r h.status h.reasons k
warn_if-IsSound over false r h k = k

storage-IsSound :
    (f : VaultHealthFacts)
    → IsSound (over_limit f) (storage_health f (record { status = ok; reasons = [] }))
unfolding storage_health
storage-IsSound f = elim (Bool-cases (over_limit f)) [
  | inl e ↦
      rw (storage_health, e)
        (((λ k. refl), (λ k. refl)), ((λ k. absurd (ground arith)), (λ k. absurd (ground arith))))
  | inr e ↦ elim (Bool-cases (near_limit f)) [
    | inl n ↦
        rw (storage_health, e, n)
          (
            ((λ k. absurd (ground arith)), (λ k. absurd (ground arith))),
            ((λ k. absurd (ground arith)), (λ k. absurd (ground arith))),
          )
    | inr n ↦
        rw (storage_health, e, n)
          (((λ k. absurd (ground arith)), (λ k. absurd (ground arith))), ((λ k. refl), (λ k. refl)))
  ]
]

-- A vault is critical exactly when its storage is over the limit, and ok exactly when there is no
-- reason to report.
pub evaluate_health-IsSound :
    (f : VaultHealthFacts) (now : ℕ) → IsSound (over_limit f) (evaluate_health f now)
unfolding evaluate_health
evaluate_health-IsSound f now =
    let over = over_limit f in
    let h₀ = storage_health f (record { status = ok; reasons = [] }) in
    let aged₁ = aged f.oldest_staged_blob_age_ms staged_blob_stale_ms in
    let h₁ = warn_if aged₁ staged_blob_stale h₀ in
    let aged₂ = aged f.oldest_pending_delete_age_ms pending_delete_stale_ms in
    let h₂ = warn_if aged₂ pending_delete_stale h₁ in
    let many = ltb pending_delete_backlog_warning_count f.collectible_pending_delete_blob_count in
    let h₃ = warn_if many pending_delete_backlog h₂ in
    warn_if-IsSound over (without_recent_commit f now) active_without_recent_commit h₃ (
      warn_if-IsSound over many pending_delete_backlog h₂ (
        warn_if-IsSound over aged₂ pending_delete_stale h₁
          (warn_if-IsSound over aged₁ staged_blob_stale h₀ (storage-IsSound f))))
