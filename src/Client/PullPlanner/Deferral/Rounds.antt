-- ===== src/Client/PullPlanner/Deferral/Rounds.antt =====
-- The rounds of deferrals end.
use synch.Common.{
  ℕ, zero, suc, ◌+◌, ◌≤◌, ◌<◌, ◌≡◌, refl, ap, ◌∙◌, String, Bool, true, false, not, ◌&&◌, ◌||◌,
  Bool-cases, some, List, [], ◌∷◌, ◌==◌, eq_iff, eq_refl, ltb, contains, length, select,
  length-select-le, All, All-map, arith, inl, inr,
}
use synch.Client.PullPlanner.{ValidatedManifestItem, PlannerDeps, id_of}
use synch.Client.PullPlanner.Deferral.{
  defers_kind, defer_round, active_ids, defer_loop, deferred_entry_ids,
}

abbrev waits : List String → ValidatedManifestItem → Bool
waits deferred v = not (contains deferred (id_of v))

-- The items that are not deferred.
remaining : List ValidatedManifestItem → List String → ℕ
remaining active deferred = length (select (waits deferred) active)

has_id : List ValidatedManifestItem → String → Bool
has_id [] id = false
has_id (v ∷ vs) id = id_of v == id || has_id vs id

remaining-cons-le :
    (active : List ValidatedManifestItem) (deferred : List String) (id : String)
    → remaining active (id ∷ deferred) ≤ remaining active deferred
unfolding remaining select contains
remaining-cons-le [] deferred id = omega arith
remaining-cons-le (v ∷ vs) deferred id = ground (arith, remaining-cons-le vs deferred id)

-- An active item that is deferred is one less.
remaining-cons-lt :
    (active : List ValidatedManifestItem) (deferred : List String) (id : String)
    → has_id active id ≡ true
    → contains deferred id ≡ false
    → suc (remaining active (id ∷ deferred)) ≤ remaining active deferred
unfolding remaining select contains has_id
remaining-cons-lt [] deferred id h k = absurd (ground arith)
remaining-cons-lt (v ∷ vs) deferred id h k = elim (Bool-cases (id_of v == id)) [
  | inl e ↦
      let same : id_of v ≡ id = (eq_iff (id_of v) id).0 e in
      rw (same, k, eq_refl id) (ground (arith, remaining-cons-le vs deferred id))
  | inr e ↦
      let other : (id == id_of v) ≡ false =
        ground (arith, eq_iff id (id_of v), eq_iff (id_of v) id) in
      ground (arith, remaining-cons-lt vs deferred id)
]

has_id-cons :
    (v : ValidatedManifestItem) (vs : List ValidatedManifestItem) (id : String)
    → has_id vs id ≡ true
    → has_id (v ∷ vs) id ≡ true
unfolding has_id
has_id-cons v vs id h = ground arith

has_id_self :
    (vs : List ValidatedManifestItem)
    → All (λ (v : ValidatedManifestItem). has_id vs (id_of v) ≡ true) vs
has_id_self [] = tt
has_id_self (v ∷ vs) = (
  unfold has_id in ground (arith, eq_refl (id_of v)),
  All-map (λ (w : ValidatedManifestItem). has_id vs (id_of w) ≡ true)
      (λ (w : ValidatedManifestItem). has_id (v ∷ vs) (id_of w) ≡ true) vs
      (λ w h. has_id-cons v vs (id_of w) h) (has_id_self vs),
)

module _ (deps : PlannerDeps) where
  defer_round-remaining :
      (ids : List String) (active vs : List ValidatedManifestItem) (deferred : List String)
      → All (λ (v : ValidatedManifestItem). has_id active (id_of v) ≡ true) vs
      → remaining active (defer_round deps ids vs deferred)
          + length (defer_round deps ids vs deferred)
        ≤ remaining active deferred + length deferred
  unfolding defer_round
  defer_round-remaining ids active [] deferred h = omega arith
  defer_round-remaining ids active (v ∷ vs) deferred h =
      elim (Bool-cases (not (contains deferred (id_of v)) && defers_kind deps ids v v.kind)) [
        | inl e ↦ rw e (
            omega (
              arith,
              defer_round-remaining ids active vs (id_of v ∷ deferred) h.1,
              remaining-cons-lt active deferred (id_of v) h.0 (ground arith),
            ))
        | inr e ↦ rw e (defer_round-remaining ids active vs deferred h.1)
      ]

  length-defer_round :
      (ids : List String) (vs : List ValidatedManifestItem) (deferred : List String)
      → length deferred ≤ length (defer_round deps ids vs deferred)
  unfolding defer_round
  length-defer_round ids [] deferred = omega arith
  length-defer_round ids (v ∷ vs) deferred =
      elim (Bool-cases (not (contains deferred (id_of v)) && defers_kind deps ids v v.kind)) [
        | inl e ↦ rw e (omega (arith, length-defer_round ids vs (id_of v ∷ deferred)))
        | inr e ↦ rw e (length-defer_round ids vs deferred)
      ]

  module _ (ids : List String) (v : ValidatedManifestItem) (vs : List ValidatedManifestItem)
      (deferred : List String) where
    round_more :
        (not (contains deferred (id_of v)) && defers_kind deps ids v v.kind) ≡ true
        → defer_round deps ids (v ∷ vs) deferred ≡ defer_round deps ids vs (id_of v ∷ deferred)
    unfolding defer_round
    round_more e = rw e refl

    round_same :
        (not (contains deferred (id_of v)) && defers_kind deps ids v v.kind) ≡ false
        → defer_round deps ids (v ∷ vs) deferred ≡ defer_round deps ids vs deferred
    unfolding defer_round
    round_same e = rw e refl

  -- A round defers nothing more: each item is deferred already, or has no reason to be.
  abbrev pub IsSettled : List String → List String → List ValidatedManifestItem → Type 0
  IsSettled ids deferred = All (λ (v : ValidatedManifestItem).
      (not (contains deferred (id_of v)) && defers_kind deps ids v v.kind) ≡ false)

  defer_round-IsSettled :
      (ids : List String) (vs : List ValidatedManifestItem) (deferred : List String)
      → length (defer_round deps ids vs deferred) ≤ length deferred
      → (defer_round deps ids vs deferred ≡ deferred) × IsSettled ids deferred vs
  defer_round-IsSettled ids [] deferred h = (unfold defer_round in refl, tt)
  defer_round-IsSettled ids (v ∷ vs) deferred h =
      elim (Bool-cases (not (contains deferred (id_of v)) && defers_kind deps ids v v.kind)) [
        | inl e ↦ absurd (
            omega (
              arith,
              length-defer_round ids vs (id_of v ∷ deferred),
              ap (λ (l : List String). length l) (round_more ids v vs deferred e),
            ))
        | inr e ↦
            let same = round_same ids v vs deferred e in
            let rest = defer_round-IsSettled ids vs deferred (rw (← same) h) in
            (same ∙ rest.0, (e, rest.1))
      ]

  defer_loop-total :
      (fuel : ℕ) (active : List ValidatedManifestItem) (deferred : List String)
      → remaining active deferred < fuel
      → (ids : List String) × (defer_loop deps fuel active deferred ≡ some ids)
        × IsSettled (active_ids deps active ids) ids active
  unfolding defer_loop
  defer_loop-total zero active deferred h = absurd (omega arith)
  defer_loop-total (suc fuel) active deferred h =
      let next = defer_round deps (active_ids deps active deferred) active deferred in
      elim (Bool-cases (ltb (length deferred) (length next))) [
        | inl e ↦ rw e (
            defer_loop-total fuel active next (
              ground (
                arith,
                defer_round-remaining (active_ids deps active deferred) active active deferred
                    (has_id_self active),
              )))
        | inr e ↦
            let fixed =
              defer_round-IsSettled (active_ids deps active deferred) active deferred
                (ground arith) in
            rw (e, fixed.0) (deferred, refl, fixed.1)
      ]

  -- The rounds that defer items to the owners of their paths end: within one round more than there are
  -- items a round defers nothing new. Then every item that is not deferred is deleted, or is managed by its
  -- latest version, or no entry outside of those that go on owns its path and cannot be adopted.
  pub deferred_entry_ids-IsSettled :
      (active : List ValidatedManifestItem)
      → (ids : List String) × (deferred_entry_ids deps true active ≡ some ids)
        × IsSettled (active_ids deps active ids) ids active
  unfolding deferred_entry_ids remaining
  deferred_entry_ids-IsSettled active =
      defer_loop-total (length active + 1) active []
        (omega (arith, length-select-le (waits []) active))
