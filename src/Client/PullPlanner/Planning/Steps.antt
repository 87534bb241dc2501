-- ===== src/Client/PullPlanner/Planning/Steps.antt =====
-- The steps of the planning's loop, and that it plans nothing older than what is known.
use synch.Common.{
  ℕ, ◌≤◌, ◌≡◌, subst, String, false, Option-cases, Option, some, List, [], ◌∷◌, All, arith, inl,
  inr,
}
use synch.Client.EntryRecord.Rows.{SyncEntryRow}
use synch.Client.PullPlanner.{
  RemoteEntryState, ValidatedManifestItem, PlannedEntryState, PlannerDeps, PlanOptions, is_rollback,
}
use synch.Client.PullPlanner.Planning.{
  Reserved, Outcome, Plans, plan_item, reserve, add_outcome, plan_items,
}
use synch.Client.PullPlanner.Planning.Outcomes.{
  ItemCase, waits, is_old, is_planned, plan_item-ItemCase,
}

-- A round, and what the later rounds give.
pub record StepOf (deps : PlannerDeps) (v : ValidatedManifestItem) (reserved : Reserved)
    (later : Reserved → Option Plans) (result : Plans) : Type 0 where
  pub outcome : Outcome
  pub rest : Plans
  pub case : ItemCase deps reserved v outcome
  pub is_later : later (reserve deps v outcome reserved) ≡ some rest
  pub is_result : add_outcome deps v outcome rest ≡ result

module _ (deps : PlannerDeps) (options : PlanOptions) (threshold : Option ℕ)
    (delta : List String) where
  pub plan_items-StepOf :
      (v : ValidatedManifestItem) (vs : List ValidatedManifestItem) (reserved : Reserved)
      {result : Plans}
      → plan_items deps options threshold delta (v ∷ vs) reserved ≡ some result
      → StepOf deps v reserved (plan_items deps options threshold delta vs) result
  unfolding plan_items
  plan_items-StepOf v vs reserved {result} h =
      elim (Option-cases (plan_item deps options threshold delta reserved v)) [
        | inl e ↦ absurd (ground arith)
        | inr (o, e) ↦
            elim (Option-cases
              (plan_items deps options threshold delta vs (reserve deps v o reserved))) [
                | inl f ↦ absurd (ground arith)
                | inr (rest, f) ↦ record {
                  outcome = o;
                  rest = rest;
                  case = plan_item-ItemCase deps reserved options threshold delta v o e;
                  is_later = f;
                  is_result = ground arith;
                }
              ]
      ]

-- The state is no older than the revision that is known locally, if one is known.
pub record IsRecent (deps : PlannerDeps) (state : RemoteEntryState) : Type 0 where
  pub recent :
      (e : SyncEntryRow)
      → deps.get_entry_by_id state.entry_id ≡ some e
      → e.revision ≤ state.revision

pub is_rollback-IsRecent :
    (deps : PlannerDeps) (state : RemoteEntryState)
    → is_rollback (deps.get_entry_by_id state.entry_id) state ≡ false
    → IsRecent deps state
unfolding is_rollback
is_rollback-IsRecent deps state h = record { recent = λ e k. ground arith }

module _ (deps : PlannerDeps) where
  abbrev pub AllRecent : List PlannedEntryState → Type 0
  AllRecent = All (λ (p : PlannedEntryState). IsRecent deps p.state)

  add_outcome-AllRecent :
      (v : ValidatedManifestItem) (reserved : Reserved) (outcome : Outcome) (rest : Plans)
      → ItemCase deps reserved v outcome
      → AllRecent rest.plans
      → AllRecent (add_outcome deps v outcome rest).plans
  unfolding add_outcome
  add_outcome-AllRecent v reserved _ rest waits h = h
  add_outcome-AllRecent v reserved _ rest (is_old e) h = h
  add_outcome-AllRecent v reserved _ rest (is_planned p e o) h =
      (rw o.same_state (is_rollback-IsRecent deps v.item.state e), h)

module _ (deps : PlannerDeps) (options : PlanOptions) (threshold : Option ℕ)
    (delta : List String) where
  pub plan_items-AllRecent :
      (vs : List ValidatedManifestItem) (reserved : Reserved) {result : Plans}
      → plan_items deps options threshold delta vs reserved ≡ some result
      → AllRecent deps result.plans
  plan_items-AllRecent [] reserved {result} h =
      let e : result.plans ≡ [] = unfold plan_items in ground arith in rw e tt
  plan_items-AllRecent (v ∷ vs) reserved {result} h =
      let s = plan_items-StepOf deps options threshold delta v vs reserved h in
      subst (λ (r : Plans). AllRecent deps r.plans) s.is_result
        (add_outcome-AllRecent deps v reserved s.outcome s.rest s.case
          (plan_items-AllRecent vs (reserve deps v s.outcome reserved) s.is_later))
