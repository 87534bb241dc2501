-- ===== src/Client/PullPlanner/Deferral.antt =====
-- Which items wait for the owner of their path: `findAdoptableLocalPathOwner`, and the rounds of
-- `planManifest` that run until no more items are deferred.
pub mod Rounds
use synch.Common.{
  ℕ, zero, suc, ◌+◌, String, Bool, true, false, not, ◌&&◌, ◌||◌, Option, none, some, List, [], ◌∷◌,
  ◌==◌, ltb, leb, eqb, if◌then◌else◌, contains, is_some, length, select, map,
}
use synch.Domain.EntryPolicy.{is_text}
use synch.Client.EntryRecord.{PendingMutationRow, upsert, delete, is_truthy}
use synch.Client.EntryRecord.Accepted.{
  SyncedEntryMetadata, SyncMetadataCryptoContext, metadata_context_from_mutation, is_upsert,
}
use synch.Client.EntryRecord.Rows.{SyncEntryRow}
use synch.Client.PullPlanner.{
  RemoteEntryState, ManifestKind, live, deleted, ValidatedManifestItem, AdoptedLocalEntry,
  PlannerDeps, id_of, path_of, is_live,
}

module _ (deps : PlannerDeps) where
  pub adopt_pending :
      String → String → SyncEntryRow → Option PendingMutationRow → Option AdoptedLocalEntry
  unfolding is_upsert
  adopt_pending path remote_hash owner none = none
  adopt_pending path remote_hash owner (some pending) =
      let metadata =
        deps.decrypt_sync_metadata pending.encrypted_metadata
          (metadata_context_from_mutation pending) in
      if is_upsert pending.op && metadata.path == path && is_truthy metadata.hash
      then some (record {
        entry = owner;
        pending = pending;
        hash_matches = is_text metadata.hash remote_hash && is_text owner.hash remote_hash;
      })
      else none

  unfoldable pub find_adoptable_local_path_owner :
      RemoteEntryState → String → SyncEntryRow → String → Option AdoptedLocalEntry
  unfolding adopt_pending
  find_adoptable_local_path_owner state path owner remote_hash =
      if owner.entry_id == state.entry_id
        || not (eqb owner.revision 0)
        || owner.deleted
        || not (is_text owner.path path)
      then none
      else adopt_pending path remote_hash owner (deps.get_dirty_entry_mutation owner.entry_id)

  unfoldable pub adoptable :
      RemoteEntryState → String → Option SyncEntryRow → String → Option AdoptedLocalEntry
  unfolding find_adoptable_local_path_owner
  adoptable state path none remote_hash = none
  adoptable state path (some owner) remote_hash =
      find_adoptable_local_path_owner state path owner remote_hash

  -- The path belongs to an entry that is not among the ids, and that cannot be adopted.
  unfoldable pub is_external :
      List String → RemoteEntryState → Option SyncEntryRow → Option AdoptedLocalEntry → Bool
  is_external ids state none adopted = false
  is_external ids state (some owner) adopted =
      not (owner.entry_id == state.entry_id)
      && not (contains ids owner.entry_id)
      && not (is_some adopted)

  pub defers_kind : List String → ValidatedManifestItem → ManifestKind → Bool
  unfolding adoptable is_external
  defers_kind ids v deleted = false
  defers_kind ids v (live hash) =
      let owner = deps.get_entry_by_path (path_of v) in
      is_external ids v.item.state owner (adoptable v.item.state (path_of v) owner hash)
      && not (deps.should_use_latest_remote_version (path_of v))

  -- A round over the active items, with the ids that were active when it began.
  pub defer_round : List String → List ValidatedManifestItem → List String → List String
  unfolding defers_kind
  defer_round ids [] deferred = deferred
  defer_round ids (v ∷ vs) deferred = defer_round ids vs (
      if not (contains deferred (id_of v)) && defers_kind ids v v.kind
      then id_of v ∷ deferred
      else deferred)

  pub active_ids : List ValidatedManifestItem → List String → List String
  active_ids active deferred =
      select (λ i. not (contains deferred i)) (map (λ (v : ValidatedManifestItem). id_of v) active)

  -- `while (changed)`: a round has changed something when it has deferred more. `none` is an end of the
  -- fuel.
  pub defer_loop : ℕ → List ValidatedManifestItem → List String → Option (List String)
  unfolding defer_round active_ids
  defer_loop zero active deferred = none
  defer_loop (suc fuel) active deferred =
      let next = defer_round (active_ids active deferred) active deferred in
      let again = defer_loop fuel active next in
      if ltb (length deferred) (length next) then again else some next

  unfoldable pub deferred_entry_ids : Bool → List ValidatedManifestItem → Option (List String)
  unfolding defer_loop
  deferred_entry_ids false active = some []
  deferred_entry_ids true active = defer_loop (length active + 1) active []

pub least_seq : List ValidatedManifestItem → Option ℕ
least_seq [] = none
least_seq (v ∷ vs) = elim (least_seq vs) [
  | none ↦ some v.item.state.updated_seq
  | some n ↦ some (if leb v.item.state.updated_seq n then v.item.state.updated_seq else n)
]

unfoldable pub deferred_cursor_threshold : List ValidatedManifestItem → List String → Option ℕ
unfolding least_seq
deferred_cursor_threshold active deferred =
    least_seq (select (λ v. contains deferred (id_of v)) active)

unfoldable pub is_deferred_by_cursor_threshold : ValidatedManifestItem → Option ℕ → Bool
is_deferred_by_cursor_threshold v none = false
is_deferred_by_cursor_threshold v (some threshold) = leb threshold v.item.state.updated_seq
