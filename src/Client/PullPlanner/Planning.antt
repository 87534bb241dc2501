-- ===== src/Client/PullPlanner/Planning.antt =====
-- The last pass of `planManifest`, `planVaultMove`, `createPathCollisionEvent`, and the whole.
pub mod Outcomes
pub mod Paths
pub mod Steps
use synch.Common.{
  ℕ, ◌+◌, String, Bool, true, false, not, ◌&&◌, ◌||◌, Option, none, some, List, [], ◌∷◌, ◌++◌, ◌==◌,
  if◌then◌else◌, contains, is_some, select, map,
}
use synch.Domain.EntryPolicy.{is_text}
use synch.Client.ConflictFile.{get_available_conflict_copy_path}
use synch.Client.EntryRecord.{is_truthy}
use synch.Client.EntryRecord.Rows.{SyncEntryRow}
use synch.Client.PullPlanner.{
  RemoteEntryState, ManifestKind, live, deleted, PullEntryStateManifestItem, ValidatedManifestItem,
  AdoptedLocalEntry, PlannedVaultMove, PullConflictEvent, PlannedEntryState, PullRollbackEvent,
  PlannerDeps, PlanOptions, id_of, path_of, is_rollback, rollback_event,
}
use synch.Client.PullPlanner.Deferral.{
  adoptable, is_external, deferred_entry_ids, deferred_cursor_threshold,
  is_deferred_by_cursor_threshold,
}
use synch.Client.PullPlanner.Sorting.{Sorted, Divided, sort_items, divide}

-- The paths that the plans so far have taken, with their entries, the last first.
abbrev pub Reserved : Type 0
Reserved = List (String × String)

pub get_reserved : String → Reserved → Option String
get_reserved path [] = none
get_reserved path ((p, id) ∷ reserved) = if p == path then some id else get_reserved path reserved

unfoldable pub is_reserved : String → Reserved → Bool
unfolding get_reserved
is_reserved path reserved = is_some (get_reserved path reserved)

-- Where a plan leads, and whom it collides with.
pub record Target : Type 0 where
  pub path : String
  pub conflict : Option PullConflictEvent
  pub superseded_owner : Option SyncEntryRow

pub data Outcome : Type 0 where
  defer : Outcome
  roll_back : PullRollbackEvent → Outcome
  planned : PlannedEntryState → Outcome

pub record Plans : Type 0 where
  pub plans : List PlannedEntryState
  pub deferred : List PullEntryStateManifestItem
  pub rollbacks : List PullRollbackEvent

pub record Manifest : Type 0 where
  pub plans : List PlannedEntryState
  pub deferred : List PullEntryStateManifestItem
  pub superseded : List PullEntryStateManifestItem
  pub skipped : List PullEntryStateManifestItem
  pub rollbacks : List PullRollbackEvent

pub other_owner : RemoteEntryState → Option SyncEntryRow → Option SyncEntryRow
other_owner state none = none
other_owner state (some owner) = if owner.entry_id == state.entry_id then none else some owner

module _ (deps : PlannerDeps) where
  -- The second search also passes over the reserved paths.
  pub conflict_path : String → Reserved → Option String
  unfolding is_reserved
  conflict_path path reserved =
      elim (get_available_conflict_copy_path deps.exists path deps.timestamp deps.attempts) [
        | none ↦ none
        | some candidate ↦
            if is_reserved candidate reserved
            then get_available_conflict_copy_path (λ p. is_reserved p reserved || deps.exists p)
                path deps.timestamp deps.attempts
            else some candidate
      ]

  pub collide : RemoteEntryState → String → Option String → Option Target
  collide state path none = none
  collide state path (some conflict) = some (record {
    path = conflict;
    conflict =
        some (record { entry_id = state.entry_id; original_path = path; conflict_path = conflict });
    superseded_owner = none;
  })

  pub choose_target :
      RemoteEntryState → String → Bool → Option SyncEntryRow → Reserved → Option Target
  unfolding conflict_path collide is_reserved other_owner is_truthy
  choose_target state path external owner reserved =
      if is_truthy (get_reserved path reserved) || external
      then (if deps.should_use_latest_remote_version path
          then some
              (record { path = path; conflict = none; superseded_owner = other_owner state owner })
          else collide state path (conflict_path path reserved))
      else some (record { path = path; conflict = none; superseded_owner = none })

  pub move_from : String → String → Option String → Option PlannedVaultMove
  move_from id final none = none
  move_from id final (some from) =
      if from == ""
        || from == final
        || is_some (deps.get_dirty_entry_mutation id)
        || not (deps.exists from)
        || deps.exists final
      then none
      else some (record { from = from; to = final })

  unfoldable pub plan_vault_move :
      String
      → Option SyncEntryRow
      → String
      → Option PullConflictEvent
      → Option AdoptedLocalEntry
      → Option PlannedVaultMove
  unfolding move_from
  plan_vault_move id none final conflict adopted = none
  plan_vault_move id (some existing) final conflict adopted =
      if not (existing.entry_id == id) || existing.deleted || is_some conflict || is_some adopted
      then none
      else move_from id final existing.path

  pub plan_deleted : ValidatedManifestItem → PlannedEntryState
  plan_deleted v = record {
    state = v.item.state;
    existing = deps.get_entry_by_id (id_of v);
    adopted_local_entry = none;
    vault_move = none;
    skip_vault_write = false;
    metadata = v.item.metadata;
    final_path = none;
    hash = none;
    path_conflict = none;
    pending_conflict = none;
    superseded_path_owner = none;
  }

  -- An empty final path is a throw.
  pub plan_at :
      ValidatedManifestItem → String → Option AdoptedLocalEntry → Option Target → Option Outcome
  unfolding plan_vault_move
  plan_at v hash adopted none = none
  plan_at v hash adopted (some target) =
      let existing = deps.get_entry_by_id (id_of v) in
      if target.path == ""
      then none
      else some (
          planned (record {
            state = v.item.state;
            existing = existing;
            adopted_local_entry = adopted;
            vault_move = plan_vault_move (id_of v) existing target.path target.conflict adopted;
            skip_vault_write = false;
            metadata = v.item.metadata;
            final_path = some target.path;
            hash = some hash;
            path_conflict = target.conflict;
            pending_conflict = none;
            superseded_path_owner = target.superseded_owner;
          }))

  pub plan_kind :
      PlanOptions → List String → Reserved → ValidatedManifestItem → ManifestKind → Option Outcome
  unfolding plan_deleted plan_at choose_target adoptable is_external
  plan_kind options delta reserved v deleted = some (planned (plan_deleted v))
  plan_kind options delta reserved v (live hash) =
      let path = path_of v in
      let owner = deps.get_entry_by_path path in
      let adopted = adoptable deps v.item.state path owner hash in
      let external = is_external deps delta v.item.state owner adopted in
      if external
        && options.defer_external_path_owners
        && not (deps.should_use_latest_remote_version path)
      then some defer
      else plan_at v hash adopted (choose_target v.item.state path external owner reserved)

  -- One round of the loop over the active items.
  pub plan_item :
      PlanOptions → Option ℕ → List String → Reserved → ValidatedManifestItem → Option Outcome
  unfolding plan_kind is_deferred_by_cursor_threshold is_rollback
  plan_item options threshold delta reserved v =
      let existing = deps.get_entry_by_id (id_of v) in
      if is_deferred_by_cursor_threshold v threshold
      then some defer
      else if is_rollback existing v.item.state
      then some (roll_back (rollback_event existing v))
      else plan_kind options delta reserved v v.kind

  pub reserve_path : String → Option String → Reserved → Reserved
  reserve_path id none reserved = reserved
  reserve_path id (some path) reserved = (path, id) ∷ reserved

  pub reserve : ValidatedManifestItem → Outcome → Reserved → Reserved
  unfolding reserve_path
  reserve v (planned p) reserved = reserve_path (id_of v) p.final_path reserved
  reserve v _ reserved = reserved

  unfoldable pub add_outcome : ValidatedManifestItem → Outcome → Plans → Plans
  add_outcome v defer rest = record rest { deferred = v.item ∷ rest.deferred }
  add_outcome v (roll_back event) rest = record rest { rollbacks = event ∷ rest.rollbacks }
  add_outcome v (planned p) rest = record rest { plans = p ∷ rest.plans }

  pub plan_items :
      PlanOptions → Option ℕ → List String → List ValidatedManifestItem → Reserved → Option Plans
  unfolding plan_item reserve add_outcome
  plan_items options threshold delta [] reserved =
      some (record { plans = []; deferred = []; rollbacks = [] })
  plan_items options threshold delta (v ∷ vs) reserved =
      elim (plan_item options threshold delta reserved v) [
        | none ↦ none
        | some outcome ↦ elim (plan_items options threshold delta vs (reserve v outcome reserved)) [
          | none ↦ none
          | some rest ↦ some (add_outcome v outcome rest)
        ]
      ]

-- The ids of the items that the threshold lets through.
unfoldable pub delta_ids : Option ℕ → List ValidatedManifestItem → List String
unfolding is_deferred_by_cursor_threshold
delta_ids threshold active =
    map (λ (v : ValidatedManifestItem). id_of v)
      (select (λ v. not (is_deferred_by_cursor_threshold v threshold)) active)

unfoldable pub assemble : Sorted → Divided → Option Plans → Option Manifest
assemble sorted divided none = none
assemble sorted divided (some p) = some (record {
  plans = p.plans;
  deferred = p.deferred;
  superseded = divided.superseded;
  skipped = sorted.skipped;
  rollbacks = sorted.rollbacks ++ (divided.rollbacks ++ p.rollbacks);
})

module _ (deps : PlannerDeps) (options : PlanOptions) where
  unfoldable pub plan_active : Sorted → Divided → Option (List String) → Option Manifest
  unfolding deferred_cursor_threshold delta_ids plan_items assemble
  plan_active sorted divided none = none
  plan_active sorted divided (some ids) =
      let threshold = deferred_cursor_threshold divided.active ids in
      assemble sorted divided
        (plan_items deps options threshold (delta_ids threshold divided.active) divided.active [])

  unfoldable pub plan_sorted : Option Sorted → Option Manifest
  unfolding divide deferred_entry_ids plan_active
  plan_sorted none = none
  plan_sorted (some sorted) =
      let divided = divide deps options sorted.validated sorted.validated in
      plan_active sorted divided
        (deferred_entry_ids deps options.defer_external_path_owners divided.active)

  unfoldable pub plan_manifest : List PullEntryStateManifestItem → Option Manifest
  unfolding sort_items plan_sorted
  plan_manifest manifest = plan_sorted (sort_items deps options manifest)
