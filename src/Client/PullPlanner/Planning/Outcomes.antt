-- ===== src/Client/PullPlanner/Planning/Outcomes.antt =====
-- What a round of the planning does with an item.
use synch.Common.{
  ℕ, ◌≡◌, ◌≢◌, ◌⊎◌, refl, subst, String, Bool, true, false, not, ◌&&◌, ◌||◌, Bool-cases,
  Option-cases, Option, none, some, List, ◌==◌, arith, inl, inr,
}
use synch.Client.ConflictFile.{
  get_available_conflict_copy_path, get_available_conflict_copy_path-not_taken,
}
use synch.Client.EntryRecord.{is_truthy}
use synch.Client.EntryRecord.Rows.{SyncEntryRow}
use synch.Client.PullPlanner.{
  RemoteEntryState, ManifestKind, live, deleted, ValidatedManifestItem, AdoptedLocalEntry,
  PlannedEntryState, PullRollbackEvent, PlannerDeps, PlanOptions, id_of, path_of, is_rollback,
  rollback_event,
}
use synch.Client.PullPlanner.Deferral.{adoptable, is_external, is_deferred_by_cursor_threshold}
use synch.Client.PullPlanner.Planning.{
  Reserved, get_reserved, is_reserved, Target, Outcome, defer, roll_back, planned, conflict_path,
  collide, choose_target, plan_deleted, plan_at, plan_kind, plan_item,
}

module _ (deps : PlannerDeps) (reserved : Reserved) where
  conflict_path-free :
      (path : String) {p : String}
      → conflict_path deps path reserved ≡ some p
      → is_reserved p reserved ≡ false
  unfolding conflict_path
  conflict_path-free path {p} h =
      elim (Option-cases
        (get_available_conflict_copy_path deps.exists path deps.timestamp deps.attempts)) [
          | inl e ↦ absurd (ground arith)
          | inr (c, e) ↦ elim (Bool-cases (is_reserved c reserved)) [
            | inl taken ↦
                let free =
                  get_available_conflict_copy_path-not_taken
                    (λ q. is_reserved q reserved || deps.exists q) path deps.timestamp deps.attempts
                    {p = p} (ground arith) in
                ground arith
            | inr open_path ↦ ground arith
          ]
        ]

  -- A target is free, or its path follows the latest remote version.
  choose_target-free :
      (state : RemoteEntryState) (path : String) (external : Bool) (owner : Option SyncEntryRow)
      {t : Target}
      → choose_target deps state path external owner reserved ≡ some t
      → (is_truthy (get_reserved t.path reserved) ≡ false)
        ⊎ ((deps.should_use_latest_remote_version path ≡ true) × (t.path ≡ path))
  unfolding choose_target collide
  choose_target-free state path external owner {t} h =
      elim (Bool-cases (is_truthy (get_reserved path reserved) || external)) [
        | inl e ↦ elim (Bool-cases (deps.should_use_latest_remote_version path)) [
          | inl u ↦ inr (ground arith)
          | inr u ↦ elim (Option-cases (conflict_path deps path reserved)) [
            | inl c ↦ absurd (ground arith)
            | inr (p, c) ↦
                inl (
                  unfold is_reserved is_truthy in ground (arith, conflict_path-free path {p = p} c))
          ]
        ]
        | inr e ↦ inl (ground arith)
      ]

  -- Where a plan leads.
  pub data Leads (v : ValidatedManifestItem) : Option String → Type 0 where
    nowhere : Leads v none
    to_free : (path : String) → is_truthy (get_reserved path reserved) ≡ false → Leads v (some path)
    to_managed :
        (path : String)
        → deps.should_use_latest_remote_version path ≡ true
        → path ≡ path_of v
        → Leads v (some path)

  -- A plan is made of its item, and of nothing that is older than what is known.
  pub record PlanOf (v : ValidatedManifestItem) (p : PlannedEntryState) : Type 0 where
    pub same_state : p.state ≡ v.item.state
    pub same_metadata : p.metadata ≡ v.item.metadata
    pub leads : Leads v p.final_path

  Leads-target :
      (v : ValidatedManifestItem) (external : Bool) (owner : Option SyncEntryRow) {t : Target}
      → choose_target deps v.item.state (path_of v) external owner reserved ≡ some t
      → Leads v (some t.path)
  Leads-target v external owner {t} h =
      elim (choose_target-free v.item.state (path_of v) external owner {t = t} h) [
        | inl free ↦ to_free t.path free
        | inr managed ↦ to_managed t.path (rw managed.1 managed.0) managed.1
      ]

  plan_at-PlanOf :
      (v : ValidatedManifestItem) (hash : String) (adopted : Option AdoptedLocalEntry)
      (external : Bool) (owner : Option SyncEntryRow) (target : Option Target)
      {p : PlannedEntryState}
      → choose_target deps v.item.state (path_of v) external owner reserved ≡ target
      → plan_at deps v hash adopted target ≡ some (planned p)
      → PlanOf v p
  unfolding plan_at
  plan_at-PlanOf v hash adopted external owner none e h = absurd (ground arith)
  plan_at-PlanOf v hash adopted external owner (some t) {p} e h = elim (Bool-cases (t.path == "")) [
    | inl empty ↦ absurd (ground arith)
    | inr named ↦
        let q : p.final_path ≡ some t.path = ground arith in
        record {
          same_state = ground arith;
          same_metadata = ground arith;
          leads = rw q (Leads-target v external owner e);
        }
  ]

  plan_kind-PlanOf :
      (options : PlanOptions) (delta : List String) (v : ValidatedManifestItem)
      (kind : ManifestKind) {p : PlannedEntryState}
      → plan_kind deps options delta reserved v kind ≡ some (planned p)
      → PlanOf v p
  unfolding plan_kind plan_deleted
  plan_kind-PlanOf options delta v deleted {p} h =
      let q : p.final_path ≡ none = ground arith in
      record { same_state = ground arith; same_metadata = ground arith; leads = rw q nowhere }
  plan_kind-PlanOf options delta v (live hash) {p} h =
      let owner = deps.get_entry_by_path (path_of v) in
      let adopted = adoptable deps v.item.state (path_of v) owner hash in
      let external = is_external deps delta v.item.state owner adopted in
      elim (Bool-cases (
        external
        && options.defer_external_path_owners
        && not (deps.should_use_latest_remote_version (path_of v)))) [
          | inl e ↦ absurd (ground arith)
          | inr e ↦ plan_at-PlanOf v hash adopted external owner _ {p = p} refl (rw e at h)
        ]

  plan_at-ne-roll_back :
      (v : ValidatedManifestItem) (hash : String) (adopted : Option AdoptedLocalEntry)
      (target : Option Target) (event : PullRollbackEvent)
      → plan_at deps v hash adopted target ≢ some (roll_back event)
  unfolding plan_at
  plan_at-ne-roll_back v hash adopted none event h = ground arith
  plan_at-ne-roll_back v hash adopted (some t) event h = elim (Bool-cases (t.path == "")) [
    | inl e ↦ ground arith
    | inr e ↦ ground arith
  ]

  plan_kind-ne-roll_back :
      (options : PlanOptions) (delta : List String) (v : ValidatedManifestItem)
      (kind : ManifestKind) (event : PullRollbackEvent)
      → plan_kind deps options delta reserved v kind ≢ some (roll_back event)
  unfolding plan_kind
  plan_kind-ne-roll_back options delta v deleted event h = ground arith
  plan_kind-ne-roll_back options delta v (live hash) event h =
      let owner = deps.get_entry_by_path (path_of v) in
      let adopted = adoptable deps v.item.state (path_of v) owner hash in
      let external = is_external deps delta v.item.state owner adopted in
      let target = choose_target deps v.item.state (path_of v) external owner reserved in
      elim (Bool-cases (
        external
        && options.defer_external_path_owners
        && not (deps.should_use_latest_remote_version (path_of v)))) [
          | inl e ↦ ground arith
          | inr e ↦ plan_at-ne-roll_back v hash adopted target event (rw e at h)
        ]

  -- What the round gives for an item, with what it has found out.
  pub data ItemCase (v : ValidatedManifestItem) : Outcome → Type 0 where
    waits : ItemCase v defer
    is_old :
        is_rollback (deps.get_entry_by_id (id_of v)) v.item.state ≡ true
        → ItemCase v (roll_back (rollback_event (deps.get_entry_by_id (id_of v)) v))
    is_planned :
        (p : PlannedEntryState)
        → is_rollback (deps.get_entry_by_id (id_of v)) v.item.state ≡ false
        → PlanOf v p
        → ItemCase v (planned p)

  plan_kind-ItemCase :
      (options : PlanOptions) (delta : List String) (v : ValidatedManifestItem) (outcome : Outcome)
      → is_rollback (deps.get_entry_by_id (id_of v)) v.item.state ≡ false
      → plan_kind deps options delta reserved v v.kind ≡ some outcome
      → ItemCase v outcome
  plan_kind-ItemCase options delta v defer news h = waits
  plan_kind-ItemCase options delta v (planned p) news h =
      is_planned p news (plan_kind-PlanOf options delta v v.kind h)
  plan_kind-ItemCase options delta v (roll_back event) news h =
      absurd (plan_kind-ne-roll_back options delta v v.kind event h)

  pub plan_item-ItemCase :
      (options : PlanOptions) (threshold : Option ℕ) (delta : List String)
      (v : ValidatedManifestItem) (outcome : Outcome)
      → plan_item deps options threshold delta reserved v ≡ some outcome
      → ItemCase v outcome
  unfolding plan_item
  plan_item-ItemCase options threshold delta v outcome h =
      elim (Bool-cases (is_deferred_by_cursor_threshold v threshold)) [
        | inl e ↦ let same : defer ≡ outcome = ground arith in subst (ItemCase v) same waits
        | inr e ↦ elim (Bool-cases (is_rollback (deps.get_entry_by_id (id_of v)) v.item.state)) [
          | inl old ↦
              let same : roll_back (rollback_event (deps.get_entry_by_id (id_of v)) v) ≡ outcome =
                ground arith in
              subst (ItemCase v) same (is_old old)
          | inr news ↦ plan_kind-ItemCase options delta v outcome news (rw news at (rw e at h))
        ]
      ]
