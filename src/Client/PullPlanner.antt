-- ===== src/Client/PullPlanner.antt =====
-- How a client plans the states that it pulls, packages/sync-client/src/sync/engine/
-- pull-manifest-planner.ts and the types of pull-entry-state-internal.ts and remote/changes.ts. The local
-- store, the files of the vault and the policy of paths are functions, read as they are when the planning
-- begins; the pending mutations' metadata decrypts. A throw is `none`.
pub mod Sorting
pub mod Deferral
pub mod Planning
pub mod Results
pub mod Safe
pub mod Accounted
pub mod Examples
pub mod Fates
use synch.Common.{
  ℕ, ◌+◌, String, Bool, true, false, not, ◌&&◌, ◌||◌, Option, none, some, List, [], ◌∷◌, ◌==◌, ltb,
  eqb, leb, if◌then◌else◌, map,
}
use synch.Client.EntryRecord.{PendingMutationRow, PendingMutationOp, is_truthy}
use synch.Client.EntryRecord.Accepted.{SyncedEntryMetadata, SyncMetadataCryptoContext}
use synch.Client.EntryRecord.Rows.{SyncEntryRow}

pub record RemoteEntryState : Type 0 where
  pub entry_id : String
  pub revision : ℕ
  pub blob_id : Option String
  pub blob_size : Option ℕ
  pub encrypted_metadata : String
  pub deleted : Bool
  pub updated_seq : ℕ
  pub updated_at : ℕ

pub record PullEntryStateManifestItem : Type 0 where
  pub state : RemoteEntryState
  pub metadata : SyncedEntryMetadata
  pub context_only : Bool

-- A live state has the hash of its content.
pub data ManifestKind : Type 0 where
  live : String → ManifestKind
  deleted : ManifestKind

pub record ValidatedManifestItem : Type 0 where
  pub item : PullEntryStateManifestItem
  pub kind : ManifestKind

pub record PullRollbackEvent : Type 0 where
  pub entry_id : String
  pub path : Option String
  pub local_revision : ℕ
  pub remote_revision : ℕ

pub record AdoptedLocalEntry : Type 0 where
  pub entry : SyncEntryRow
  pub pending : PendingMutationRow
  pub hash_matches : Bool

pub record PlannedVaultMove : Type 0 where
  pub from : String
  pub to : String

-- A conflict of paths, the one reason for conflicts here.
pub record PullConflictEvent : Type 0 where
  pub entry_id : String
  pub original_path : String
  pub conflict_path : String

pub record PlannedEntryState : Type 0 where
  pub state : RemoteEntryState
  pub existing : Option SyncEntryRow
  pub adopted_local_entry : Option AdoptedLocalEntry
  pub vault_move : Option PlannedVaultMove
  pub skip_vault_write : Bool
  pub metadata : SyncedEntryMetadata
  pub final_path : Option String
  pub hash : Option String
  pub path_conflict : Option PullConflictEvent
  pub pending_conflict : Option PullConflictEvent
  pub superseded_path_owner : Option SyncEntryRow

-- What the planner reads and asks. The time and the fuel are those of the names of conflict copies.
pub record PlannerDeps : Type 0 where
  pub get_entry_by_id : String → Option SyncEntryRow
  pub get_entry_by_path : String → Option SyncEntryRow
  pub get_dirty_entry_mutation : String → Option PendingMutationRow
  pub decrypt_sync_metadata : String → SyncMetadataCryptoContext → SyncedEntryMetadata
  pub exists : String → Bool
  pub should_use_latest_remote_version : String → Bool
  pub should_apply_remote_path : String → Bool → Bool
  pub timestamp : String
  pub attempts : ℕ

pub record PlanOptions : Type 0 where
  pub defer_external_path_owners : Bool
  pub applied_entry_ids : List String

abbrev pub id_of : ValidatedManifestItem → String
id_of v = v.item.state.entry_id

abbrev pub path_of : ValidatedManifestItem → String
path_of v = v.item.metadata.path

pub kind_of : Bool → Option String → Option String → Option ManifestKind
unfolding is_truthy
kind_of false blob none = none
kind_of false blob (some hash) =
    if is_truthy blob && is_truthy (some hash) then some (live hash) else none
kind_of true blob none = some deleted
kind_of true blob (some hash) = none

unfoldable pub validate_manifest_item : PullEntryStateManifestItem → Option ValidatedManifestItem
unfolding kind_of
validate_manifest_item item =
    elim (kind_of item.state.deleted item.state.blob_id item.metadata.hash) [
      | none ↦ none
      | some kind ↦ some (record { item = item; kind = kind })
    ]

-- The remote revision is older than the one that is known locally.
unfoldable pub is_rollback : Option SyncEntryRow → RemoteEntryState → Bool
is_rollback none state = false
is_rollback (some e) state = ltb 0 e.revision && ltb state.revision e.revision

unfoldable pub revision_of : Option SyncEntryRow → ℕ
revision_of none = 0
revision_of (some e) = e.revision

unfoldable pub rollback_event : Option SyncEntryRow → ValidatedManifestItem → PullRollbackEvent
unfolding revision_of
rollback_event existing v = record {
  entry_id = v.item.state.entry_id;
  path = some v.item.metadata.path;
  local_revision = revision_of existing;
  remote_revision = v.item.state.revision;
}

unfoldable pub is_live : ValidatedManifestItem → Bool
is_live v = elim v.kind [ live hash ↦ true | deleted ↦ false ]
