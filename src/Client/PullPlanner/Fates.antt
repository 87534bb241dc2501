-- ===== src/Client/PullPlanner/Fates.antt =====
-- What becomes of an item of a pulled manifest.
use synch.Common.{◌<◌, ◌≡◌, refl, true, inr, Option, none, some, List, ◌∷◌, Has, contains, arith}
use synch.Client.EntryRecord.Rows.{SyncEntryRow}
use synch.Client.PullPlanner.{
  PullEntryStateManifestItem, ValidatedManifestItem, PullRollbackEvent, PlannedEntryState,
  PlanOptions, is_rollback, rollback_event, revision_of,
}

-- The event tells of the item, whose revision is older than the local one.
pub record Tells (item : PullEntryStateManifestItem) (event : PullRollbackEvent) : Type 0 where
  pub of_entry : event.entry_id ≡ item.state.entry_id
  pub of_revision : event.remote_revision ≡ item.state.revision
  pub is_older : event.remote_revision < event.local_revision

pub record Lists : Type 0 where
  pub onward : List ValidatedManifestItem
  pub plans : List PlannedEntryState
  pub deferred : List PullEntryStateManifestItem
  pub superseded : List PullEntryStateManifestItem
  pub skipped : List PullEntryStateManifestItem
  pub rollbacks : List PullRollbackEvent

-- An item was applied before, serves as context only, or is in one of the lists; `onward` are the items that
-- later passes decide on.
pub data Fate (options : PlanOptions) (item : PullEntryStateManifestItem) (l : Lists) : Type 0 where
  is_applied : contains options.applied_entry_ids item.state.entry_id ≡ true → Fate options item l
  is_context : item.context_only ≡ true → Fate options item l
  goes_on : Has (λ (v : ValidatedManifestItem). v.item ≡ item) l.onward → Fate options item l
  is_planned : Has (λ (p : PlannedEntryState). p.state ≡ item.state) l.plans → Fate options item l
  is_deferred : Has (λ (i : PullEntryStateManifestItem). i ≡ item) l.deferred → Fate options item l
  is_superseded :
      Has (λ (i : PullEntryStateManifestItem). i ≡ item) l.superseded → Fate options item l
  is_skipped : Has (λ (i : PullEntryStateManifestItem). i ≡ item) l.skipped → Fate options item l
  is_reported : Has (Tells item) l.rollbacks → Fate options item l

-- What is in one of the lists stays so where the lists grow.
pub record Grows (item : PullEntryStateManifestItem) (l k : Lists) : Type 0 where
  pub onward :
      Has (λ (v : ValidatedManifestItem). v.item ≡ item) l.onward
      → Has (λ (v : ValidatedManifestItem). v.item ≡ item) k.onward
  pub plans :
      Has (λ (p : PlannedEntryState). p.state ≡ item.state) l.plans
      → Has (λ (p : PlannedEntryState). p.state ≡ item.state) k.plans
  pub deferred :
      Has (λ (i : PullEntryStateManifestItem). i ≡ item) l.deferred
      → Has (λ (i : PullEntryStateManifestItem). i ≡ item) k.deferred
  pub superseded :
      Has (λ (i : PullEntryStateManifestItem). i ≡ item) l.superseded
      → Has (λ (i : PullEntryStateManifestItem). i ≡ item) k.superseded
  pub skipped :
      Has (λ (i : PullEntryStateManifestItem). i ≡ item) l.skipped
      → Has (λ (i : PullEntryStateManifestItem). i ≡ item) k.skipped
  pub rollbacks : Has (Tells item) l.rollbacks → Has (Tells item) k.rollbacks

module _ {options : PlanOptions} {item : PullEntryStateManifestItem} {l k : Lists} where
  pub Fate-Grows : Grows item l k → Fate options item l → Fate options item k
  Fate-Grows g (is_applied h) = is_applied h
  Fate-Grows g (is_context h) = is_context h
  Fate-Grows g (goes_on h) = goes_on (g.onward h)
  Fate-Grows g (is_planned h) = is_planned (g.plans h)
  Fate-Grows g (is_deferred h) = is_deferred (g.deferred h)
  Fate-Grows g (is_superseded h) = is_superseded (g.superseded h)
  Fate-Grows g (is_skipped h) = is_skipped (g.skipped h)
  Fate-Grows g (is_reported h) = is_reported (g.rollbacks h)

pub Grows-refl : (item : PullEntryStateManifestItem) (l : Lists) → Grows item l l
Grows-refl item l = record {
  onward = λ h. h;
  plans = λ h. h;
  deferred = λ h. h;
  superseded = λ h. h;
  skipped = λ h. h;
  rollbacks = λ h. h;
}

module _ (item : PullEntryStateManifestItem) (l : Lists) where
  pub Grows-onward : (x : ValidatedManifestItem) → Grows item l (record l { onward = x ∷ l.onward })
  Grows-onward x = record {
    onward = inr;
    plans = λ h. h;
    deferred = λ h. h;
    superseded = λ h. h;
    skipped = λ h. h;
    rollbacks = λ h. h;
  }

  pub Grows-plans : (x : PlannedEntryState) → Grows item l (record l { plans = x ∷ l.plans })
  Grows-plans x = record {
    onward = λ h. h;
    plans = inr;
    deferred = λ h. h;
    superseded = λ h. h;
    skipped = λ h. h;
    rollbacks = λ h. h;
  }

  pub Grows-deferred :
      (x : PullEntryStateManifestItem) → Grows item l (record l { deferred = x ∷ l.deferred })
  Grows-deferred x = record {
    onward = λ h. h;
    plans = λ h. h;
    deferred = inr;
    superseded = λ h. h;
    skipped = λ h. h;
    rollbacks = λ h. h;
  }

  pub Grows-superseded :
      (x : PullEntryStateManifestItem) → Grows item l (record l { superseded = x ∷ l.superseded })
  Grows-superseded x = record {
    onward = λ h. h;
    plans = λ h. h;
    deferred = λ h. h;
    superseded = inr;
    skipped = λ h. h;
    rollbacks = λ h. h;
  }

  pub Grows-skipped :
      (x : PullEntryStateManifestItem) → Grows item l (record l { skipped = x ∷ l.skipped })
  Grows-skipped x = record {
    onward = λ h. h;
    plans = λ h. h;
    deferred = λ h. h;
    superseded = λ h. h;
    skipped = inr;
    rollbacks = λ h. h;
  }

  pub Grows-rollbacks :
      (x : PullRollbackEvent) → Grows item l (record l { rollbacks = x ∷ l.rollbacks })
  Grows-rollbacks x = record {
    onward = λ h. h;
    plans = λ h. h;
    deferred = λ h. h;
    superseded = λ h. h;
    skipped = λ h. h;
    rollbacks = inr;
  }

-- The event of an item that is found older tells of it.
pub rollback_event-Tells :
    (existing : Option SyncEntryRow) (v : ValidatedManifestItem)
    → is_rollback existing v.item.state ≡ true
    → Tells v.item (rollback_event existing v)
unfolding is_rollback rollback_event revision_of
rollback_event-Tells none v h = absurd (ground arith)
rollback_event-Tells (some e) v h = record {
  of_entry = refl;
  of_revision = refl;
  is_older = ground arith;
}
