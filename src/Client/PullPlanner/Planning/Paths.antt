-- ===== src/Client/PullPlanner/Planning/Paths.antt =====
-- No two plans lead to one path, but for the paths that follow the latest remote version.
use synch.Common.{
  ℕ, ◌≡◌, ap, sym, subst, ◌∙◌, String, true, false, Bool-cases, Option, none, some, List, [], ◌∷◌,
  ◌==◌, eq_iff, All, arith, inl, inr,
}
use synch.Client.EntryRecord.{is_truthy}
use synch.Client.EntryRecord.Accepted.{SyncedEntryMetadata}
use synch.Client.PullPlanner.{
  ValidatedManifestItem, PlannedEntryState, PlannerDeps, PlanOptions, id_of, path_of,
}
use synch.Client.PullPlanner.Planning.{
  Reserved, get_reserved, Outcome, Plans, reserve_path, reserve, add_outcome, plan_items,
}
use synch.Client.PullPlanner.Planning.Outcomes.{
  ItemCase, waits, is_old, is_planned, PlanOf, Leads, nowhere, to_free, to_managed,
}
use synch.Client.PullPlanner.Planning.Steps.{plan_items-StepOf}

module _ (deps : PlannerDeps) where
  -- A plan that leads to this path does so since the path is its own and follows the latest version.
  pub record Manages (path : String) (p : PlannedEntryState) : Type 0 where
    pub managed :
        p.final_path ≡ some path
        → (deps.should_use_latest_remote_version path ≡ true) × (path ≡ p.metadata.path)

  -- After a plan, only a plan that manages its path leads to that path.
  abbrev pub After : PlannedEntryState → List PlannedEntryState → Type 0
  After p ps = (path : String) → p.final_path ≡ some path → All (Manages path) ps

  abbrev pub Distinct : List PlannedEntryState → Type 0
  Distinct [] = Unit {0}
  Distinct (p ∷ ps) = After p ps × Distinct ps

  abbrev Holds : Reserved → List PlannedEntryState → Type 0
  Holds reserved ps =
      (path : String) → is_truthy (get_reserved path reserved) ≡ true → All (Manages path) ps

  -- A reserved path stays reserved.
  get_reserved-reserve_path :
      (id : String) (final : Option String) (reserved : Reserved) (path : String)
      → (id == "") ≡ false
      → is_truthy (get_reserved path reserved) ≡ true
      → is_truthy (get_reserved path (reserve_path deps id final reserved)) ≡ true
  unfolding reserve_path get_reserved is_truthy
  get_reserved-reserve_path id none reserved path named h = h
  get_reserved-reserve_path id (some p) reserved path named h = elim (Bool-cases (p == path)) [
    | inl e ↦ ground arith
    | inr e ↦ rw e h
  ]

  -- The path of a plan is reserved after it.
  get_reserved_own :
      (id : String) (final : Option String) (reserved : Reserved) (path : String)
      → (id == "") ≡ false
      → final ≡ some path
      → is_truthy (get_reserved path (reserve_path deps id final reserved)) ≡ true
  unfolding reserve_path get_reserved is_truthy
  get_reserved_own id none reserved path named h = absurd (ground arith)
  get_reserved_own id (some p) reserved path named h = ground (arith, eq_iff p path)

  Leads-managed :
      (reserved : Reserved) (v : ValidatedManifestItem) (final : Option String) (path own : String)
      → Leads deps reserved v final
      → is_truthy (get_reserved path reserved) ≡ true
      → final ≡ some path
      → own ≡ path_of v
      → (deps.should_use_latest_remote_version path ≡ true) × (path ≡ own)
  Leads-managed reserved v _ path own nowhere h e o = absurd (ground arith)
  Leads-managed reserved v _ path own (to_free p free) h e o =
      let same : p ≡ path = ground arith in absurd (ground arith)
  Leads-managed reserved v _ path own (to_managed p m q) h e o =
      let same : p ≡ path = ground arith in (rw same at m, sym same ∙ q ∙ sym o)

  Leads-Manages :
      (reserved : Reserved) (v : ValidatedManifestItem) (p : PlannedEntryState) (path : String)
      → PlanOf deps reserved v p
      → is_truthy (get_reserved path reserved) ≡ true
      → Manages path p
  Leads-Manages reserved v p path o h = record {
    managed = λ e.
        Leads-managed reserved v p.final_path path p.metadata.path o.leads h e
          (ap (λ (m : SyncedEntryMetadata). m.path) o.same_metadata);
  }

  -- What the plans from some round on are, with the paths that are reserved before.
  record PathsFrom (reserved : Reserved) (ps : List PlannedEntryState) : Type 0 where
    holds : Holds reserved ps
    distinct : Distinct ps

  add_outcome-PathsFrom :
      (v : ValidatedManifestItem) (reserved : Reserved) (outcome : Outcome) (rest : Plans)
      → (id_of v == "") ≡ false
      → ItemCase deps reserved v outcome
      → PathsFrom (reserve deps v outcome reserved) rest.plans
      → PathsFrom reserved (add_outcome deps v outcome rest).plans
  unfolding add_outcome reserve
  add_outcome-PathsFrom v reserved _ rest named waits h = h
  add_outcome-PathsFrom v reserved _ rest named (is_old e) h = h
  add_outcome-PathsFrom v reserved _ rest named (is_planned p e o) h = record {
    holds = λ path r. (
      Leads-Manages reserved v p path o r,
      h.holds path (get_reserved-reserve_path (id_of v) p.final_path reserved path named r),
    );
    distinct = (
      λ path f. h.holds path (get_reserved_own (id_of v) p.final_path reserved path named f),
      h.distinct,
    );
  }

abbrev pub Named : List ValidatedManifestItem → Type 0
Named = All (λ (v : ValidatedManifestItem). (id_of v == "") ≡ false)

module _ (deps : PlannerDeps) (options : PlanOptions) (threshold : Option ℕ)
    (delta : List String) where
  plan_items-PathsFrom :
      (vs : List ValidatedManifestItem) (reserved : Reserved) {result : Plans}
      → Named vs
      → plan_items deps options threshold delta vs reserved ≡ some result
      → PathsFrom deps reserved result.plans
  plan_items-PathsFrom [] reserved {result} named h =
      let e : result.plans ≡ [] = unfold plan_items in ground arith in
      rw e (record { holds = λ path r. tt; distinct = tt })
  plan_items-PathsFrom (v ∷ vs) reserved {result} named h =
      let s = plan_items-StepOf deps options threshold delta v vs reserved h in
      subst (λ (r : Plans). PathsFrom deps reserved r.plans) s.is_result
        (add_outcome-PathsFrom deps v reserved s.outcome s.rest named.0 s.case
          (plan_items-PathsFrom vs (reserve deps v s.outcome reserved) named.1 s.is_later))

  pub plan_items-Distinct :
      (vs : List ValidatedManifestItem) {result : Plans}
      → Named vs
      → plan_items deps options threshold delta vs [] ≡ some result
      → Distinct deps result.plans
  plan_items-Distinct vs named h = (plan_items-PathsFrom vs [] named h).distinct
