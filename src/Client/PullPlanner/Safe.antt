-- ===== src/Client/PullPlanner/Safe.antt =====
-- What a plan never does: go back to an older revision, or send two entries to one path.
use synch.Common.{◌≡◌, sym, subst, false, some, List, [], ◌∷◌, ◌==◌, All, arith}
use synch.Client.PullPlanner.{
  PullEntryStateManifestItem, ValidatedManifestItem, PlannerDeps, PlanOptions, id_of,
}
use synch.Client.PullPlanner.Planning.{Manifest, plan_manifest}
use synch.Client.PullPlanner.Planning.Paths.{Named, Distinct, plan_items-Distinct}
use synch.Client.PullPlanner.Planning.Steps.{
  IsRecent, AllRecent, is_rollback-IsRecent, plan_items-AllRecent,
}
use synch.Client.PullPlanner.Results.{plan_manifest-Passes, assemble-manifest_of}
use synch.Client.PullPlanner.Sorting.{Sorted, Divided, sort_items, divide}
use synch.Client.PullPlanner.Sorting.Cases.{
  PlaceCase, accepts, rolls_back, was_applied, skips, sort_items-SortStep, DivideCase,
  was_applied_before, is_old, gives_way, is_context_only, is_active, divide_one-DivideCase,
}

module _ (deps : PlannerDeps) (options : PlanOptions) where
  abbrev pub ItemsRecent : List PullEntryStateManifestItem → Type 0
  ItemsRecent = All (λ (i : PullEntryStateManifestItem). IsRecent deps i.state)

  PlaceCase-recent :
      {v : ValidatedManifestItem} {rest s : Sorted}
      → PlaceCase deps options v rest s
      → ItemsRecent rest.skipped
      → ItemsRecent s.skipped
  PlaceCase-recent accepts h = h
  PlaceCase-recent (rolls_back old) h = h
  PlaceCase-recent (was_applied a) h = h
  PlaceCase-recent {v} (skips news) h = (is_rollback-IsRecent deps v.item.state news, h)

  skipped-recent :
      (items : List PullEntryStateManifestItem) {s : Sorted}
      → sort_items deps options items ≡ some s
      → ItemsRecent s.skipped
  skipped-recent [] {s} h = let e : s.skipped ≡ [] = unfold sort_items in ground arith in rw e tt
  skipped-recent (item ∷ items) h =
      let step = sort_items-SortStep deps options item items h in
      PlaceCase-recent step.case (skipped-recent items step.rest_sorted)

  DivideCase-recent :
      {v : ValidatedManifestItem} {rest d : Divided}
      → DivideCase deps options v rest d
      → ItemsRecent rest.superseded
      → ItemsRecent d.superseded
  DivideCase-recent (was_applied_before a) h = h
  DivideCase-recent (is_old old) h = h
  DivideCase-recent {v} (gives_way news) h = (is_rollback-IsRecent deps v.item.state news, h)
  DivideCase-recent (is_context_only c) h = h
  DivideCase-recent is_active h = h

  superseded-recent :
      (validated vs : List ValidatedManifestItem)
      → ItemsRecent (divide deps options validated vs).superseded
  unfolding divide
  superseded-recent validated [] = tt
  superseded-recent validated (v ∷ vs) =
      DivideCase-recent
        (divide_one-DivideCase deps options validated v (divide deps options validated vs))
        (superseded-recent validated vs)

  -- Nothing that is planned, superseded or skipped is older than what is known.
  pub record OnlyRecent (m : Manifest) : Type 0 where
    pub plans : AllRecent deps m.plans
    pub superseded : ItemsRecent m.superseded
    pub skipped : ItemsRecent m.skipped

  -- No state that is planned, and none that is superseded or skipped, has a revision older than the one
  -- that the store has of its entry: a server that hands out an old state again cannot bring it back.
  pub plan_manifest-OnlyRecent :
      (manifest : List PullEntryStateManifestItem) (m : Manifest)
      → plan_manifest deps options manifest ≡ some m
      → OnlyRecent m
  plan_manifest-OnlyRecent manifest m h =
      let r = plan_manifest-Passes deps options manifest h in
      let s = r.sorted in
      let d = divide deps options s.validated s.validated in
      subst OnlyRecent (assemble-manifest_of s d r.plans r.is_assembled) (record {
        plans = plan_items-AllRecent deps options r.threshold r.delta d.active [] r.are_planned;
        superseded = superseded-recent s.validated s.validated;
        skipped = skipped-recent manifest r.is_sorted;
      })

  PlaceCase-Named :
      {v : ValidatedManifestItem} {rest s : Sorted}
      → PlaceCase deps options v rest s
      → (id_of v == "") ≡ false
      → Named rest.validated
      → Named s.validated
  PlaceCase-Named accepts e h = (e, h)
  PlaceCase-Named (rolls_back old) e h = h
  PlaceCase-Named (was_applied a) e h = h
  PlaceCase-Named (skips news) e h = h

  abbrev pub ItemsNamed : List PullEntryStateManifestItem → Type 0
  ItemsNamed = All (λ (i : PullEntryStateManifestItem). (i.state.entry_id == "") ≡ false)

  validated-Named :
      (items : List PullEntryStateManifestItem) {s : Sorted}
      → ItemsNamed items
      → sort_items deps options items ≡ some s
      → Named s.validated
  validated-Named [] {s} named h =
      let e : s.validated ≡ [] = unfold sort_items in ground arith in rw e tt
  validated-Named (item ∷ items) named h =
      let step = sort_items-SortStep deps options item items h in
      PlaceCase-Named step.case
        (subst (λ (i : PullEntryStateManifestItem). (i.state.entry_id == "") ≡ false)
          (sym step.of_item) named.0)
        (validated-Named items named.1 step.rest_sorted)

  DivideCase-Named :
      {v : ValidatedManifestItem} {rest d : Divided}
      → DivideCase deps options v rest d
      → (id_of v == "") ≡ false
      → Named rest.active
      → Named d.active
  DivideCase-Named (was_applied_before a) e h = h
  DivideCase-Named (is_old old) e h = h
  DivideCase-Named (gives_way news) e h = h
  DivideCase-Named (is_context_only c) e h = h
  DivideCase-Named is_active e h = (e, h)

  active-Named :
      (validated vs : List ValidatedManifestItem)
      → Named vs
      → Named (divide deps options validated vs).active
  unfolding divide
  active-Named validated [] h = tt
  active-Named validated (v ∷ vs) h =
      DivideCase-Named
        (divide_one-DivideCase deps options validated v (divide deps options validated vs)) h.0
        (active-Named validated vs h.1)

  -- If every entry of the manifest has an identifier, a plan leads to the path of an earlier plan only
  -- where that path is its own and follows the latest remote version; otherwise no two plans lead to one
  -- path.
  pub plan_manifest-Distinct :
      (manifest : List PullEntryStateManifestItem) (m : Manifest)
      → ItemsNamed manifest
      → plan_manifest deps options manifest ≡ some m
      → Distinct deps m.plans
  plan_manifest-Distinct manifest m named h =
      let r = plan_manifest-Passes deps options manifest h in
      let s = r.sorted in
      let d = divide deps options s.validated s.validated in
      subst (λ (x : Manifest). Distinct deps x.plans)
        (assemble-manifest_of s d r.plans r.is_assembled)
        (plan_items-Distinct deps options r.threshold r.delta d.active
          (active-Named s.validated s.validated (validated-Named manifest named r.is_sorted))
          r.are_planned)
