-- ===== src/Client/PullPlanner/Accounted.antt =====
-- No item of a pulled manifest is lost.
use synch.Common.{ℕ, ◌≡◌, refl, subst, String, Option, some, List, [], ◌∷◌, All, All-map, inl}
use synch.Client.PullPlanner.{
  PullEntryStateManifestItem, ValidatedManifestItem, PlannerDeps, PlanOptions, id_of,
  rollback_event,
}
use synch.Client.PullPlanner.Fates.{
  Lists, Fate, is_applied, is_context, goes_on, is_planned, is_deferred, is_superseded, is_skipped,
  is_reported, Grows, Grows-refl, Fate-Grows, Grows-onward, Grows-plans, Grows-deferred,
  Grows-superseded, Grows-skipped, Grows-rollbacks, rollback_event-Tells,
}
use synch.Client.PullPlanner.Planning.{
  Reserved, Outcome, defer, roll_back, planned, Plans, reserve, add_outcome, plan_items,
}
use synch.Client.PullPlanner.Planning.Outcomes.{ItemCase}
use synch.Client.PullPlanner.Planning.Steps.{plan_items-StepOf}
use synch.Client.PullPlanner.Sorting.{Sorted, Divided, sort_items, divide, divide_one}
use synch.Client.PullPlanner.Sorting.Cases.{
  PlaceCase, accepts, rolls_back, was_applied, skips, sort_items-SortStep, DivideCase,
  was_applied_before, is_old, gives_way, is_context_only, is_active, divide_one-DivideCase,
}

abbrev pub of_sorted : Sorted → Lists
of_sorted s = record {
  onward = s.validated;
  plans = [];
  deferred = [];
  superseded = [];
  skipped = s.skipped;
  rollbacks = s.rollbacks;
}

abbrev pub of_divided : Divided → Lists
of_divided d = record {
  onward = d.active;
  plans = [];
  deferred = [];
  superseded = d.superseded;
  skipped = [];
  rollbacks = d.rollbacks;
}

abbrev pub of_plans : Plans → Lists
of_plans p = record {
  onward = [];
  plans = p.plans;
  deferred = p.deferred;
  superseded = [];
  skipped = [];
  rollbacks = p.rollbacks;
}

module _ (deps : PlannerDeps) (options : PlanOptions) where
  PlaceCase-Fate :
      {v : ValidatedManifestItem} {rest s : Sorted}
      → PlaceCase deps options v rest s
      → Fate options v.item (of_sorted s)
  PlaceCase-Fate accepts = goes_on (inl refl)
  PlaceCase-Fate {v} (rolls_back old) =
      is_reported (inl (rollback_event-Tells (deps.get_entry_by_id (id_of v)) v old))
  PlaceCase-Fate (was_applied a) = is_applied a
  PlaceCase-Fate (skips news) = is_skipped (inl refl)

  PlaceCase-Grows :
      (item : PullEntryStateManifestItem) {v : ValidatedManifestItem} {rest s : Sorted}
      → PlaceCase deps options v rest s
      → Grows item (of_sorted rest) (of_sorted s)
  PlaceCase-Grows item {v} {rest} accepts = Grows-onward item (of_sorted rest) v
  PlaceCase-Grows item {v} {rest} (rolls_back old) =
      Grows-rollbacks item (of_sorted rest) (rollback_event (deps.get_entry_by_id (id_of v)) v)
  PlaceCase-Grows item {v} {rest} (was_applied a) = Grows-refl item (of_sorted rest)
  PlaceCase-Grows item {v} {rest} (skips news) = Grows-skipped item (of_sorted rest) v.item

  pub sort_items-Fate :
      (items : List PullEntryStateManifestItem) {s : Sorted}
      → sort_items deps options items ≡ some s
      → All (λ (i : PullEntryStateManifestItem). Fate options i (of_sorted s)) items
  sort_items-Fate [] h = tt
  sort_items-Fate (item ∷ items) {s} h =
      let step = sort_items-SortStep deps options item items h in
      (
        subst (λ (i : PullEntryStateManifestItem). Fate options i (of_sorted s)) step.of_item
            (PlaceCase-Fate step.case),
        All-map (λ (i : PullEntryStateManifestItem). Fate options i (of_sorted step.rest))
            (λ (i : PullEntryStateManifestItem). Fate options i (of_sorted s)) items
            (λ i f. Fate-Grows (PlaceCase-Grows i step.case) f)
            (sort_items-Fate items step.rest_sorted),
      )

  DivideCase-Fate :
      {v : ValidatedManifestItem} {rest d : Divided}
      → DivideCase deps options v rest d
      → Fate options v.item (of_divided d)
  DivideCase-Fate (was_applied_before a) = is_applied a
  DivideCase-Fate {v} (is_old old) =
      is_reported (inl (rollback_event-Tells (deps.get_entry_by_id (id_of v)) v old))
  DivideCase-Fate (gives_way news) = is_superseded (inl refl)
  DivideCase-Fate (is_context_only c) = is_context c
  DivideCase-Fate is_active = goes_on (inl refl)

  DivideCase-Grows :
      (item : PullEntryStateManifestItem) {v : ValidatedManifestItem} {rest d : Divided}
      → DivideCase deps options v rest d
      → Grows item (of_divided rest) (of_divided d)
  DivideCase-Grows item {v} {rest} (was_applied_before a) = Grows-refl item (of_divided rest)
  DivideCase-Grows item {v} {rest} (is_old old) =
      Grows-rollbacks item (of_divided rest) (rollback_event (deps.get_entry_by_id (id_of v)) v)
  DivideCase-Grows item {v} {rest} (gives_way news) = Grows-superseded item (of_divided rest) v.item
  DivideCase-Grows item {v} {rest} (is_context_only c) = Grows-refl item (of_divided rest)
  DivideCase-Grows item {v} {rest} is_active = Grows-onward item (of_divided rest) v

  pub divide-Fate :
      (validated vs : List ValidatedManifestItem)
      → All
          (λ (v : ValidatedManifestItem).
            Fate options v.item (of_divided (divide deps options validated vs)))
          vs
  unfolding divide
  divide-Fate validated [] = tt
  divide-Fate validated (v ∷ vs) =
      let rest = divide deps options validated vs in
      let case = divide_one-DivideCase deps options validated v rest in
      (
        DivideCase-Fate case,
        All-map (λ (w : ValidatedManifestItem). Fate options w.item (of_divided rest))
            (λ (w : ValidatedManifestItem).
              Fate options w.item (of_divided (divide_one deps options validated v rest)))
            vs (λ w f. Fate-Grows (DivideCase-Grows w.item case) f) (divide-Fate validated vs),
      )

  add_outcome-Fate :
      (v : ValidatedManifestItem) (reserved : Reserved) (outcome : Outcome) (rest : Plans)
      → ItemCase deps reserved v outcome
      → Fate options v.item (of_plans (add_outcome deps v outcome rest))
  unfolding add_outcome
  add_outcome-Fate v reserved _ rest ItemCase.waits = is_deferred (inl refl)
  add_outcome-Fate v reserved _ rest (ItemCase.is_old old) =
      is_reported (inl (rollback_event-Tells (deps.get_entry_by_id (id_of v)) v old))
  add_outcome-Fate v reserved _ rest (ItemCase.is_planned p news o) = is_planned (inl o.same_state)

  add_outcome-Grows :
      (item : PullEntryStateManifestItem) (v : ValidatedManifestItem) (outcome : Outcome)
      (rest : Plans)
      → Grows item (of_plans rest) (of_plans (add_outcome deps v outcome rest))
  unfolding add_outcome
  add_outcome-Grows item v defer rest = Grows-deferred item (of_plans rest) v.item
  add_outcome-Grows item v (roll_back event) rest = Grows-rollbacks item (of_plans rest) event
  add_outcome-Grows item v (planned p) rest = Grows-plans item (of_plans rest) p

  pub plan_items-Fate :
      (threshold : Option ℕ) (delta : List String) (vs : List ValidatedManifestItem)
      (reserved : Reserved) {p : Plans}
      → plan_items deps options threshold delta vs reserved ≡ some p
      → All (λ (v : ValidatedManifestItem). Fate options v.item (of_plans p)) vs
  plan_items-Fate threshold delta [] reserved h = tt
  plan_items-Fate threshold delta (v ∷ vs) reserved {p} h =
      let s = plan_items-StepOf deps options threshold delta v vs reserved h in
      subst
        (λ (r : Plans).
          All (λ (w : ValidatedManifestItem). Fate options w.item (of_plans r)) (v ∷ vs))
        s.is_result
        (
          add_outcome-Fate v reserved s.outcome s.rest s.case,
          All-map (λ (w : ValidatedManifestItem). Fate options w.item (of_plans s.rest))
              (λ (w : ValidatedManifestItem).
                Fate options w.item (of_plans (add_outcome deps v s.outcome s.rest)))
              vs (λ w f. Fate-Grows (add_outcome-Grows w.item v s.outcome s.rest) f)
              (plan_items-Fate threshold delta vs (reserve deps v s.outcome reserved) s.is_later),
        )
