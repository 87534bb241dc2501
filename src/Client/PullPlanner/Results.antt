-- ===== src/Client/PullPlanner/Results.antt =====
-- What holds of a planned manifest.
use synch.Common.{
  ℕ, ◌≡◌, subst, String, Option, Option-cases, some, List, [], ◌++◌, All, All-map, Has-All,
  Has-append_left, Has-append_right, arith, inl, inr,
}
use synch.Client.PullPlanner.{
  PullEntryStateManifestItem, ValidatedManifestItem, PlannerDeps, PlanOptions,
}
use synch.Client.PullPlanner.Accounted.{
  of_sorted, of_divided, of_plans, sort_items-Fate, divide-Fate, plan_items-Fate,
}
use synch.Client.PullPlanner.Deferral.{deferred_entry_ids, deferred_cursor_threshold}
use synch.Client.PullPlanner.Fates.{
  Lists, Fate, is_applied, is_context, goes_on, is_planned, is_deferred, is_superseded, is_skipped,
  is_reported,
}
use synch.Client.PullPlanner.Planning.{
  Plans, Manifest, delta_ids, plan_items, assemble, plan_active, plan_sorted, plan_manifest,
}
use synch.Client.PullPlanner.Sorting.{Sorted, Divided, sort_items, divide}

module _ (deps : PlannerDeps) (options : PlanOptions) where
  -- The passes of a planning that comes to its end.
  pub record Passes (manifest : List PullEntryStateManifestItem) (m : Manifest) : Type 0 where
    pub sorted : Sorted
    pub threshold : Option ℕ
    pub delta : List String
    pub plans : Plans
    pub is_sorted : sort_items deps options manifest ≡ some sorted
    pub are_planned :
        plan_items deps options threshold delta
          (divide deps options sorted.validated sorted.validated).active
          []
        ≡ some plans
    pub is_assembled :
        assemble sorted (divide deps options sorted.validated sorted.validated) (some plans)
        ≡ some m

  pub plan_manifest-Passes :
      (manifest : List PullEntryStateManifestItem) {m : Manifest}
      → plan_manifest deps options manifest ≡ some m
      → Passes manifest m
  unfolding plan_manifest plan_sorted plan_active assemble
  plan_manifest-Passes manifest {m} h = elim (Option-cases (sort_items deps options manifest)) [
    | inl e ↦ absurd (ground arith)
    | inr (s, e) ↦
        let d = divide deps options s.validated s.validated in
        elim (Option-cases (deferred_entry_ids deps options.defer_external_path_owners d.active)) [
          | inl f ↦ absurd (ground arith)
          | inr (ids, f) ↦
              let t = deferred_cursor_threshold d.active ids in
              elim (Option-cases (plan_items deps options t (delta_ids t d.active) d.active [])) [
                | inl g ↦ absurd (ground arith)
                | inr (p, g) ↦ record {
                  sorted = s;
                  threshold = t;
                  delta = delta_ids t d.active;
                  plans = p;
                  is_sorted = e;
                  are_planned = g;
                  is_assembled = ground arith;
                }
              ]
        ]
  ]

abbrev pub manifest_of : Sorted → Divided → Plans → Manifest
manifest_of s d p = record {
  plans = p.plans;
  deferred = p.deferred;
  superseded = d.superseded;
  skipped = s.skipped;
  rollbacks = s.rollbacks ++ (d.rollbacks ++ p.rollbacks);
}

pub assemble-manifest_of :
    (s : Sorted) (d : Divided) (p : Plans) {m : Manifest}
    → assemble s d (some p) ≡ some m
    → manifest_of s d p ≡ m
unfolding assemble
assemble-manifest_of s d p h = ground arith

abbrev pub of_manifest : Manifest → Lists
of_manifest m = record {
  onward = [];
  plans = m.plans;
  deferred = m.deferred;
  superseded = m.superseded;
  skipped = m.skipped;
  rollbacks = m.rollbacks;
}

module _ (options : PlanOptions) (s : Sorted) (d : Divided) (p : Plans) where
  abbrev Ends : PullEntryStateManifestItem → Type 0
  Ends item = Fate options item (of_manifest (manifest_of s d p))

  plans-Ends : (item : PullEntryStateManifestItem) → Fate options item (of_plans p) → Ends item
  plans-Ends item (is_applied h) = is_applied h
  plans-Ends item (is_context h) = is_context h
  plans-Ends item (goes_on h) = absurd h
  plans-Ends item (is_planned h) = is_planned h
  plans-Ends item (is_deferred h) = is_deferred h
  plans-Ends item (is_superseded h) = absurd h
  plans-Ends item (is_skipped h) = absurd h
  plans-Ends item (is_reported h) = is_reported (
      Has-append_right _ s.rollbacks (d.rollbacks ++ p.rollbacks)
        (Has-append_right _ d.rollbacks p.rollbacks h))

  divided-Ends :
      (item : PullEntryStateManifestItem)
      → All (λ (v : ValidatedManifestItem). Ends v.item) d.active
      → Fate options item (of_divided d)
      → Ends item
  divided-Ends item a (is_applied h) = is_applied h
  divided-Ends item a (is_context h) = is_context h
  divided-Ends item a (goes_on h) =
      Has-All (λ (v : ValidatedManifestItem). v.item ≡ item)
        (λ (v : ValidatedManifestItem). Ends v.item) d.active a h (λ v e f. subst Ends e f)
  divided-Ends item a (is_planned h) = absurd h
  divided-Ends item a (is_deferred h) = absurd h
  divided-Ends item a (is_superseded h) = is_superseded h
  divided-Ends item a (is_skipped h) = absurd h
  divided-Ends item a (is_reported h) = is_reported (
      Has-append_right _ s.rollbacks (d.rollbacks ++ p.rollbacks)
        (Has-append_left _ d.rollbacks p.rollbacks h))

  sorted-Ends :
      (item : PullEntryStateManifestItem)
      → All (λ (v : ValidatedManifestItem). Ends v.item) s.validated
      → Fate options item (of_sorted s)
      → Ends item
  sorted-Ends item a (is_applied h) = is_applied h
  sorted-Ends item a (is_context h) = is_context h
  sorted-Ends item a (goes_on h) =
      Has-All (λ (v : ValidatedManifestItem). v.item ≡ item)
        (λ (v : ValidatedManifestItem). Ends v.item) s.validated a h (λ v e f. subst Ends e f)
  sorted-Ends item a (is_planned h) = absurd h
  sorted-Ends item a (is_deferred h) = absurd h
  sorted-Ends item a (is_superseded h) = absurd h
  sorted-Ends item a (is_skipped h) = is_skipped h
  sorted-Ends item a (is_reported h) =
      is_reported (Has-append_left _ s.rollbacks (d.rollbacks ++ p.rollbacks) h)

module _ (deps : PlannerDeps) (options : PlanOptions) where
  -- Each item of a manifest that is planned was applied before, is there as context only, is in a plan with its
  -- state, is deferred, superseded or skipped, or is reported as a rollback with its revision, which is
  -- older than the local one. None is lost.
  pub plan_manifest-Fate :
      (manifest : List PullEntryStateManifestItem) (m : Manifest)
      → plan_manifest deps options manifest ≡ some m
      → All (λ (i : PullEntryStateManifestItem). Fate options i (of_manifest m)) manifest
  plan_manifest-Fate manifest m h =
      let r = plan_manifest-Passes deps options manifest h in
      let s = r.sorted in
      let d = divide deps options s.validated s.validated in
      let p = r.plans in
      let active =
        All-map (λ (v : ValidatedManifestItem). Fate options v.item (of_plans p))
          (λ (v : ValidatedManifestItem). Ends options s d p v.item) d.active
          (λ v f. plans-Ends options s d p v.item f)
          (plan_items-Fate deps options r.threshold r.delta d.active [] r.are_planned) in
      let valid =
        All-map (λ (v : ValidatedManifestItem). Fate options v.item (of_divided d))
          (λ (v : ValidatedManifestItem). Ends options s d p v.item) s.validated
          (λ v f. divided-Ends options s d p v.item active f)
          (divide-Fate deps options s.validated s.validated) in
      subst
        (λ (x : Manifest).
          All (λ (i : PullEntryStateManifestItem). Fate options i (of_manifest x)) manifest)
        (assemble-manifest_of s d p r.is_assembled)
        (All-map (λ (i : PullEntryStateManifestItem). Fate options i (of_sorted s))
          (λ (i : PullEntryStateManifestItem). Ends options s d p i) manifest
          (λ i f. sorted-Ends options s d p i valid f)
          (sort_items-Fate deps options manifest r.is_sorted))
