-- ===== src/Domain/BlobGcPolicy.antt =====
-- apps/api/src/sync-coordinator/domain/blob-gc-policy.ts: when a blob may be collected.
use synch.Common.{ℕ, Bool, ◌||◌, Option, none, some, List, [], ◌∷◌, leb, ltb, min, if◌then◌else◌}
use synch.Domain.BlobPolicy.{BlobLifecycleState}

pub record BlobReferenceFacts : Type 0 where
  pub has_current_reference : Bool
  pub has_retained_history : Bool

pub record BlobCollectionFacts : Type 0 where
  pub state : BlobLifecycleState
  pub delete_after : Option ℕ
  pub refs : BlobReferenceFacts

pub data RetainReason : Type 0 where
  live grace_period current_reference retained_history missing_deadline staged : RetainReason

pub data BlobCollectionDecision : Type 0 where
  collectible : BlobCollectionDecision
  retained : RetainReason → BlobCollectionDecision

pub data PendingDeleteDecision : Type 0 where
  mark_pending_delete : ℕ → PendingDeleteDecision
  retain : RetainReason → PendingDeleteDecision

decide_due : BlobCollectionFacts → ℕ → ℕ → BlobCollectionDecision
decide_due facts deadline now =
    if ltb now deadline
    then retained grace_period
    else if facts.refs.has_current_reference
    then retained current_reference
    else if facts.refs.has_retained_history
    then retained retained_history
    else collectible

decide_deadline : BlobCollectionFacts → ℕ → BlobCollectionDecision
unfolding decide_due
decide_deadline facts now = elim facts.delete_after [
  | none ↦ retained missing_deadline
  | some deadline ↦ decide_due facts deadline now
]

unfoldable pub decide_blob_collection : BlobCollectionFacts → ℕ → BlobCollectionDecision
unfolding decide_deadline
decide_blob_collection facts now = elim facts.state [
  | BlobLifecycleState.live ↦ retained live
  | _ ↦ decide_deadline facts now
]

abbrev pub min_deadline : Option ℕ → ℕ → ℕ
min_deadline none now = now
min_deadline (some d) now = min d now

decide_retirement : BlobCollectionFacts → ℕ → PendingDeleteDecision
decide_retirement facts now =
    if facts.refs.has_current_reference
    then retain current_reference
    else if facts.refs.has_retained_history
    then retain retained_history
    else mark_pending_delete (min_deadline facts.delete_after now)

unfoldable pub decide_pending_delete : BlobCollectionFacts → ℕ → PendingDeleteDecision
unfolding decide_retirement
decide_pending_delete facts now = elim facts.state [
  | BlobLifecycleState.staged ↦ retain staged
  | _ ↦ decide_retirement facts now
]

unfoldable pub is_blob_pinned : BlobReferenceFacts → Bool
is_blob_pinned facts = facts.has_current_reference || facts.has_retained_history

-- `Math.min` of a list with a first element.
unfoldable pub minimum : ℕ → List ℕ → ℕ
minimum d [] = d
minimum d (x ∷ xs) = minimum (min d x) xs

unfoldable pub earliest_gc_deadline : List ℕ → ℕ → Option ℕ
unfolding minimum
earliest_gc_deadline [] now = none
earliest_gc_deadline (d ∷ ds) now =
    let earliest = minimum d ds in if leb earliest now then some now else some earliest
