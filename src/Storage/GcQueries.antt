-- ===== src/Storage/GcQueries.antt =====
-- adapters/outbound/sqlite/blob-gc-queries.ts: what the garbage collector asks.
use synch.Common.{
  ℕ, String, Bool, ◌&&◌, ◌||◌, Option, none, some, List, [], ◌∷◌, ◌++◌, map, ltb, eqb,
  if◌then◌else◌, select, find?, take,
}
use synch.Domain.BlobPolicy.{staged, pending_delete, same_state}
use synch.Domain.BlobGcPolicy.{BlobReferenceFacts, minimum}
use synch.Storage.Rows.{Database, BlobRow, EntryVersionRow}
use synch.Storage.Entries.{order_by, le_text}
use synch.Storage.References.{read_blob_reference_facts}
use synch.Storage.Blobs.{has_blob_id, blob_unreferenced, collectible_blob}

pub record BlobGcCandidate : Type 0 where
  pub row : BlobRow
  pub reference_facts : BlobReferenceFacts

abbrev pub to_candidate : ℕ → Database → BlobRow → BlobGcCandidate
to_candidate now db r = record {
  row = r;
  reference_facts = read_blob_reference_facts r.blob_id now db;
}

-- ORDER BY delete_after ASC, blob_id ASC; NULLs come first.
abbrev pub deadline_before : Option ℕ → Option ℕ → Bool → Bool
deadline_before none none tie = tie
deadline_before none (some b) tie = Bool.true
deadline_before (some a) none tie = Bool.false
deadline_before (some a) (some b) tie = ltb a b || (eqb a b && tie)

abbrev pub deadline_order : BlobRow → BlobRow → Bool
deadline_order a b = deadline_before a.delete_after b.delete_after (le_text a.blob_id b.blob_id)

unfoldable pub list_collectible_blobs : ℕ → ℕ → Database → List BlobGcCandidate
unfolding order_by
list_collectible_blobs now limit db =
    map (to_candidate now db)
      (take limit (order_by deadline_order (select (collectible_blob db now) db.blobs)))

unfoldable pub read_collectible_blob : String → ℕ → Database → Option BlobGcCandidate
read_collectible_blob blob_id now db =
    elim (find? (λ r. has_blob_id blob_id r && collectible_blob db now r) db.blobs) [
      | none ↦ none
      | some r ↦ some (to_candidate now db r)
    ]

abbrev pub later_than : Option ℕ → ℕ → Bool
later_than none now = Bool.false
later_than (some d) now = ltb now d

-- The deadlines of the rows that a WHERE clause keeps, without the NULLs.
abbrev pub deadlines : (BlobRow → Bool) → List BlobRow → List ℕ
deadlines p [] = []
deadlines p (r ∷ rs) = elim r.delete_after [
  | none ↦ deadlines p rs
  | some d ↦ if p r then d ∷ deadlines p rs else deadlines p rs
]

abbrev pub expiries : List EntryVersionRow → List ℕ
expiries [] = []
expiries (v ∷ vs) = v.expires_at ∷ expiries vs

abbrev pub all_deadlines : ℕ → Database → List ℕ
all_deadlines now db =
    deadlines
      (λ r.
        same_state r.state staged && (later_than r.delete_after now || blob_unreferenced db now r))
      db.blobs
    ++ deadlines (λ r. same_state r.state pending_delete && blob_unreferenced db now r) db.blobs
    ++ expiries db.versions

-- ORDER BY deadline LIMIT 1: the least one, if there is any.
abbrev pub first_deadline : List ℕ → List ℕ
first_deadline [] = []
first_deadline (d ∷ ds) = minimum d ds ∷ []

unfoldable pub read_gc_deadlines : ℕ → Database → List ℕ
unfolding minimum
read_gc_deadlines now db = first_deadline (all_deadlines now db)
