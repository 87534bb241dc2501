-- ===== src/Client/PullPlanner/Examples.antt =====
-- The theorems on planned manifests at a small manifest: a new note, a second note for the same path, and an old
-- state of a note that is known.
use synch.Common.{
  ℕ, ◌≡◌, refl, String, true, false, Option, none, some, List, [], ◌∷◌, ◌==◌, if◌then◌else◌, All,
  length, contains, select,
}
use synch.Client.ConflictFile.{get_available_conflict_copy_path, build_conflict_copy_path}
use synch.Client.EntryRecord.Rows.{SyncEntryRow}
use synch.Client.PullPlanner.{
  validate_manifest_item, PullEntryStateManifestItem, ValidatedManifestItem, live, PlannerDeps,
  PlanOptions,
}
use synch.Client.PullPlanner.Deferral.{active_ids, deferred_entry_ids}
use synch.Client.PullPlanner.Deferral.Rounds.{IsSettled, deferred_entry_ids-IsSettled}
use synch.Client.PullPlanner.Fates.{Fate}
use synch.Client.PullPlanner.Planning.{Manifest, plan_manifest}
use synch.Client.PullPlanner.Planning.Paths.{Distinct}
use synch.Client.PullPlanner.Results.{of_manifest, plan_manifest-Fate}
use synch.Client.PullPlanner.Safe.{OnlyRecent, plan_manifest-OnlyRecent, plan_manifest-Distinct}

abbrev known : SyncEntryRow
known = record {
  entry_id = "known";
  path = some "known.md";
  revision = 5;
  blob_id = some "blob";
  hash = some "hash";
  deleted = false;
  updated_at = 1;
  local_mtime = none;
  local_size = none;
}

abbrev deps : PlannerDeps
deps = record {
  get_entry_by_id = λ id. if id == "known" then some known else none;
  get_entry_by_path = λ path. if path == "known.md" then some known else none;
  get_dirty_entry_mutation = λ id. none;
  decrypt_sync_metadata = λ text context. record { path = "known.md"; hash = none };
  exists = λ path. false;
  should_use_latest_remote_version = λ path. false;
  should_apply_remote_path = λ path gone. true;
  timestamp = "20260102-030405";
  attempts = 3;
}

abbrev options : PlanOptions
options = record { defer_external_path_owners = true; applied_entry_ids = [] }

abbrev item : String → ℕ → String → ℕ → PullEntryStateManifestItem
item id revision path seq = record {
  state = record {
    entry_id = id;
    revision = revision;
    blob_id = some "content";
    blob_size = none;
    encrypted_metadata = "sealed";
    deleted = false;
    updated_seq = seq;
    updated_at = 2;
  };
  metadata = record { path = path; hash = some "hash" };
  context_only = false;
}

abbrev pulled : List PullEntryStateManifestItem
pulled = item "first" 1 "a.md" 11 ∷ item "second" 1 "a.md" 12 ∷ item "known" 4 "known.md" 13 ∷ []

abbrev manifest_or_empty : Option Manifest → Manifest
manifest_or_empty none = record {
  plans = [];
  deferred = [];
  superseded = [];
  skipped = [];
  rollbacks = [];
}
manifest_or_empty (some m) = m

abbrev result : Manifest
unfolding plan_manifest validate_manifest_item contains select get_available_conflict_copy_path
    build_conflict_copy_path
result = manifest_or_empty (plan_manifest deps options pulled)

-- Two plans, the second of them for a conflict copy, and one report.
two_plans : length result.plans ≡ 2
unfolding plan_manifest validate_manifest_item contains select get_available_conflict_copy_path
    build_conflict_copy_path
two_plans = refl

one_report : length result.rollbacks ≡ 1
unfolding plan_manifest validate_manifest_item contains select get_available_conflict_copy_path
    build_conflict_copy_path
one_report = refl

is_planned_pulled : plan_manifest deps options pulled ≡ some result
unfolding plan_manifest validate_manifest_item contains select get_available_conflict_copy_path
    build_conflict_copy_path
is_planned_pulled = refl

plan_manifest-Fate_example :
    All (λ (i : PullEntryStateManifestItem). Fate options i (of_manifest result)) pulled
plan_manifest-Fate_example = plan_manifest-Fate deps options pulled result is_planned_pulled

plan_manifest-OnlyRecent_example : OnlyRecent deps options result
plan_manifest-OnlyRecent_example =
    plan_manifest-OnlyRecent deps options pulled result is_planned_pulled

plan_manifest-Distinct_example : Distinct deps result.plans
plan_manifest-Distinct_example =
    plan_manifest-Distinct deps options pulled result (refl, (refl, (refl, tt))) is_planned_pulled

abbrev active : List ValidatedManifestItem
active = record { item = item "third" 1 "known.md" 14; kind = live "hash" } ∷ []

deferred_entry_ids-IsSettled_example :
    (ids : List String) × (deferred_entry_ids deps true active ≡ some ids)
    × IsSettled deps (active_ids deps active ids) ids active
deferred_entry_ids-IsSettled_example = deferred_entry_ids-IsSettled deps active
