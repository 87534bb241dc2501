-- ===== src/Storage/Invariant/Backing.antt =====
-- Which entries have their blob: the writes to the blobs' table that keep every current entry
-- pointing at a live blob.
use synch.Common.{
  ℕ, ◌≡◌, refl, sym, ◌∙◌, ap, String, ◌==◌, eq_iff, Bool, true, false, Option, none, some, List, [],
  ◌∷◌, ◌++◌, arith, if◌then◌else◌, inl, inr, Bool-cases, find?, any, select, eq_refl, false≢true,
  All, All-map,
}
use synch.Domain.BlobPolicy.{BlobLifecycleState, live}
use synch.Domain.EntryPolicy.{is_text}
use synch.Storage.Table.{update_where, delete_where}
use synch.Storage.Rows.{BlobRow, EntryRow}
use synch.Storage.References.{entry_refers}
use synch.Storage.Blobs.{has_blob_id, with_state}

-- The recorded state of a blob.
unfoldable pub state_in : String → List BlobRow → Option BlobLifecycleState
state_in k [] = none
state_in k (r ∷ rs) = if r.blob_id == k then some r.state else state_in k rs

abbrev pub IsBacked : List BlobRow → Option String → Type 0
IsBacked blobs none = Unit {0}
IsBacked blobs (some b) = state_in b blobs ≡ some live

abbrev pub AllBacked : List BlobRow → List EntryRow → Type 0
AllBacked blobs entries = All (λ e. IsBacked blobs e.blob_id) entries

pub state_in-find? :
    (k : String) (rs : List BlobRow) {r : BlobRow}
    → find? (has_blob_id k) rs ≡ some r
    → state_in k rs ≡ some r.state
unfolding state_in find?
state_in-find? k [] h = cc
state_in-find? k (x ∷ rs) {r} h = ground (arith, state_in-find? k rs {r = r})

-- A write of the state of blob `b`, as seen at `k`.
pub state_in-update :
    (b k : String) (s : BlobLifecycleState) (d : Option ℕ) (rs : List BlobRow)
    → state_in k (update_where (has_blob_id b) (with_state s d) rs)
      ≡ (if b == k then (elim (state_in k rs) [ none ↦ none | some _ ↦ some s ]) else state_in k rs)
unfolding state_in update_where
state_in-update b k s d [] = ground (arith, eq_iff b k)
state_in-update b k s d (r ∷ rs) =
    ground (arith, eq_iff b k, eq_iff r.blob_id b, eq_iff r.blob_id k, state_in-update b k s d rs)

pub IsBacked-update_live :
    (b : String) (d : Option ℕ) (rs : List BlobRow) (o : Option String)
    → IsBacked rs o
    → IsBacked (update_where (has_blob_id b) (with_state live d) rs) o
IsBacked-update_live b d rs none h = tt
IsBacked-update_live b d rs (some k) h = ground (arith, state_in-update b k live d rs)

-- The blob that is marked live backs the entry, if it is recorded.
pub IsBacked-of_live :
    (b : String) (d : Option ℕ) (rs : List BlobRow) (s : BlobLifecycleState)
    → state_in b rs ≡ some s
    → IsBacked (update_where (has_blob_id b) (with_state live d) rs) (some b)
IsBacked-of_live b d rs s h = ground (arith, eq_iff b b, state_in-update b b live d rs)

pub IsBacked-update_ne :
    (b : String) (s : BlobLifecycleState) (d : Option ℕ) (rs : List BlobRow) (o : Option String)
    → is_text o b ≡ false
    → IsBacked rs o
    → IsBacked (update_where (has_blob_id b) (with_state s d) rs) o
IsBacked-update_ne b s d rs none e h = tt
IsBacked-update_ne b s d rs (some k) e h =
    ground (arith, eq_iff b k, eq_iff k b, state_in-update b k s d rs)

-- A blob whose recorded state is not live backs no entry.
pub not_text_of_state :
    (b : String) (rs : List BlobRow) (o : Option String) {s : BlobLifecycleState}
    → state_in b rs ≡ some s
    → ¬ (s ≡ live)
    → IsBacked rs o
    → is_text o b ≡ false
not_text_of_state b rs none h n k = refl
not_text_of_state b rs (some c) {s} h n k = ground (arith, eq_iff c b)

module _ (b : String) (d : Option ℕ) (rs : List BlobRow) where
  pub AllBacked-update_live :
      (es : List EntryRow)
      → AllBacked rs es
      → AllBacked (update_where (has_blob_id b) (with_state live d) rs) es
  AllBacked-update_live es h = All-map _ _ es (λ e k. IsBacked-update_live b d rs e.blob_id k) h

  pub AllBacked-update_unreferenced :
      (s : BlobLifecycleState) (es : List EntryRow)
      → any (entry_refers b) es ≡ false
      → AllBacked rs es
      → AllBacked (update_where (has_blob_id b) (with_state s d) rs) es
  unfolding any
  AllBacked-update_unreferenced s [] n h = tt
  AllBacked-update_unreferenced s (e ∷ es) n h = (
    IsBacked-update_ne b s d rs e.blob_id (ground arith) h.0,
    AllBacked-update_unreferenced s es (ground arith) h.1,
  )

-- No current entry points at a blob that is not live.
pub unreferenced_of_state :
    (b : String) (rs : List BlobRow) (s : BlobLifecycleState) (es : List EntryRow)
    → state_in b rs ≡ some s
    → ¬ (s ≡ live)
    → AllBacked rs es
    → any (entry_refers b) es ≡ false
unfolding any
unreferenced_of_state b rs s [] e n h = refl
unreferenced_of_state b rs s (x ∷ es) e n h = ground (
  arith,
  not_text_of_state b rs x.blob_id {s = s} e n h.0,
  unreferenced_of_state b rs s es e n h.1,
)

-- Any update that keeps the rows' keys, as seen at another key.
state_in-touch_ne :
    (b k : String) (f : BlobRow → BlobRow) (rs : List BlobRow)
    → ((r : BlobRow) → (f r).blob_id ≡ r.blob_id)
    → (b == k) ≡ false
    → state_in k (update_where (has_blob_id b) f rs) ≡ state_in k rs
unfolding state_in update_where
state_in-touch_ne b k f [] keep n = refl
state_in-touch_ne b k f (r ∷ rs) keep n = ground (
  arith,
  keep r,
  eq_iff b k,
  eq_iff r.blob_id b,
  eq_iff r.blob_id k,
  state_in-touch_ne b k f rs keep n,
)

pub AllBacked-touch_unreferenced :
    (b : String) (f : BlobRow → BlobRow) (rs : List BlobRow) (es : List EntryRow)
    → ((r : BlobRow) → (f r).blob_id ≡ r.blob_id)
    → any (entry_refers b) es ≡ false
    → AllBacked rs es
    → AllBacked (update_where (has_blob_id b) f rs) es
unfolding any
AllBacked-touch_unreferenced b f rs [] keep n h = tt
AllBacked-touch_unreferenced b f rs (e ∷ es) keep n h = (
  one e.blob_id (ground arith) h.0,
  AllBacked-touch_unreferenced b f rs es keep (ground arith) h.1,
)
  where
    one :
        (o : Option String)
        → is_text o b ≡ false
        → IsBacked rs o
        → IsBacked (update_where (has_blob_id b) f rs) o
    one none m k = tt
    one (some c) m k = state_in-touch_ne b c f rs keep (ground (arith, eq_iff b c, eq_iff c b)) ∙ k

state_in-append :
    (k : String) (rs : List BlobRow) (new : BlobRow) {s : BlobLifecycleState}
    → state_in k rs ≡ some s
    → state_in k (rs ++ new ∷ []) ≡ some s
unfolding state_in
state_in-append k [] new h = cc
state_in-append k (r ∷ rs) new {s} h = ground (arith, state_in-append k rs new {s = s})

-- A new record leaves every entry backed.
pub AllBacked-append :
    (rs : List BlobRow) (new : BlobRow) (es : List EntryRow)
    → AllBacked rs es
    → AllBacked (rs ++ new ∷ []) es
AllBacked-append rs new es h = All-map _ _ es (λ e k. one e.blob_id k) h
  where
    one : (o : Option String) → IsBacked rs o → IsBacked (rs ++ new ∷ []) o
    one none k = tt
    one (some c) k = state_in-append c rs new {s = live} k

state_in-delete :
    (k : String) (p : BlobRow → Bool) (rs : List BlobRow)
    → ((r : BlobRow) → r.blob_id ≡ k → p r ≡ false)
    → state_in k (delete_where p rs) ≡ state_in k rs
unfolding state_in delete_where select
state_in-delete k p [] keep = refl
state_in-delete k p (r ∷ rs) keep = elim (Bool-cases (r.blob_id == k)) [
  | inl e ↦
      let kept : p r ≡ false = keep r ((eq_iff r.blob_id k).0 e) in
      ground (arith, state_in-delete k p rs keep)
  | inr e ↦ ground (arith, state_in-delete k p rs keep)
]

-- A deletion of records that no current entry points at leaves every entry backed.
pub AllBacked-delete :
    (p : BlobRow → Bool) (rs : List BlobRow) (all es : List EntryRow)
    → ((r : BlobRow) → p r ≡ true → any (entry_refers r.blob_id) all ≡ false)
    → ((k : String) → any (entry_refers k) es ≡ true → any (entry_refers k) all ≡ true)
    → AllBacked rs es
    → AllBacked (delete_where p rs) es
unfolding any
AllBacked-delete p rs all [] free sub h = tt
AllBacked-delete p rs all (e ∷ es) free sub h = (
  one e.blob_id (λ k m. sub k (ground arith)) h.0,
  AllBacked-delete p rs all es free (λ k m. sub k (ground arith)) h.1,
)
  where
    one :
        (o : Option String)
        → ((k : String) → is_text o k ≡ true → any (entry_refers k) all ≡ true)
        → IsBacked rs o
        → IsBacked (delete_where p rs) o
    one none s k = tt
    one (some c) s k =
        state_in-delete c p rs (λ r q. elim (Bool-cases (p r)) [
          | inl t ↦
              absurd (
                false≢true
                  (sym (free r t) ∙ ap (λ x. any (entry_refers x) all) q ∙ s c (eq_refl c)))
          | inr f ↦ f
        ])
        ∙ k
