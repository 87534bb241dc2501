-- ===== src/Client/PullPlanner/Sorting.antt =====
-- The first passes of `planManifest`: which items the policy of paths leaves out, and which are superseded by
-- a later state for their path (`findLatestManagedEntryByPath`).
pub mod Cases
use synch.Common.{
  ℕ, String, Bool, true, false, not, ◌&&◌, ◌||◌, Option, none, some, List, [], ◌∷◌, ◌==◌, ltb, eqb,
  if◌then◌else◌, contains,
}
use synch.Storage.Entries.{le_text}
use synch.Client.EntryRecord.{is_truthy}
use synch.Client.PullPlanner.{
  PullEntryStateManifestItem, ValidatedManifestItem, PullRollbackEvent, PlannerDeps, PlanOptions,
  id_of, path_of, validate_manifest_item, is_rollback, rollback_event,
}

pub record Sorted : Type 0 where
  pub validated : List ValidatedManifestItem
  pub skipped : List PullEntryStateManifestItem
  pub rollbacks : List PullRollbackEvent

pub record Divided : Type 0 where
  pub active : List ValidatedManifestItem
  pub superseded : List PullEntryStateManifestItem
  pub rollbacks : List PullRollbackEvent

module _ (deps : PlannerDeps) (options : PlanOptions) where
  -- An item that the policy accepts, reports as rolled back, has applied already, or skips.
  pub place : ValidatedManifestItem → Sorted → Sorted
  place v rest =
      let existing = deps.get_entry_by_id (id_of v) in
      if deps.should_apply_remote_path (path_of v) v.item.state.deleted
      then record rest { validated = v ∷ rest.validated }
      else if is_rollback existing v.item.state
      then record rest { rollbacks = rollback_event existing v ∷ rest.rollbacks }
      else if contains options.applied_entry_ids (id_of v)
      then rest
      else record rest { skipped = v.item ∷ rest.skipped }

  pub place_valid : Option ValidatedManifestItem → Option Sorted → Option Sorted
  place_valid (some v) (some rest) = some (place v rest)
  place_valid _ _ = none

  unfoldable pub sort_items : List PullEntryStateManifestItem → Option Sorted
  unfolding place_valid place
  sort_items [] = some (record { validated = []; skipped = []; rollbacks = [] })
  sort_items (item ∷ items) = place_valid (validate_manifest_item item) (sort_items items)

  -- The item that wins over the current one: the later, or, of one sequence number, the greater id.
  pub newer : Option ValidatedManifestItem → ValidatedManifestItem → ValidatedManifestItem
  newer none v = v
  newer (some current) v =
      if ltb current.item.state.updated_seq v.item.state.updated_seq
        || (eqb v.item.state.updated_seq current.item.state.updated_seq
            && not (le_text (id_of v) (id_of current)))
      then v
      else current

  -- The latest live item for a path that the latest remote version rules, as the map holds it.
  pub latest :
      String
      → Option ValidatedManifestItem
      → List ValidatedManifestItem
      → Option ValidatedManifestItem
  unfolding newer
  latest path current [] = current
  latest path current (v ∷ vs) =
      latest path
        (if not v.item.state.deleted
            && deps.should_use_latest_remote_version (path_of v)
            && path_of v == path
          then some (newer current v)
          else current)
        vs

  pub is_other : Option ValidatedManifestItem → ValidatedManifestItem → Bool
  is_other none v = false
  is_other (some winner) v = is_truthy (some (id_of winner)) && not (id_of winner == id_of v)

  pub divide_one : List ValidatedManifestItem → ValidatedManifestItem → Divided → Divided
  unfolding latest is_other
  divide_one validated v rest =
      let existing = deps.get_entry_by_id (id_of v) in
      if contains options.applied_entry_ids (id_of v)
      then rest
      else if is_other (latest (path_of v) none validated) v
      then (if is_rollback existing v.item.state
          then record rest { rollbacks = rollback_event existing v ∷ rest.rollbacks }
          else record rest { superseded = v.item ∷ rest.superseded })
      else if v.item.context_only
      then rest
      else record rest { active = v ∷ rest.active }

  unfoldable pub divide : List ValidatedManifestItem → List ValidatedManifestItem → Divided
  unfolding divide_one
  divide validated [] = record { active = []; superseded = []; rollbacks = [] }
  divide validated (v ∷ vs) = divide_one validated v (divide validated vs)
