-- ===== src/Storage/Entries/Lookup.antt =====
-- Reading an entry after a write of one.
use synch.Common.{
  ◌≡◌, refl, String, ◌==◌, eq_iff, true, false, some, List, [], ◌∷◌, ◌++◌, arith, if◌then◌else◌,
  inl, inr, Bool-cases, any, find?,
}
use synch.Storage.Table.{update_where, upsert_where}
use synch.Storage.Rows.{EntryRow}
use synch.Storage.Entries.{has_entry_id}

module _ (new : EntryRow) (k : String) where
  find-update :
      (es : List EntryRow)
      → any (has_entry_id new.entry_id) es ≡ true
      → find? (has_entry_id k) (update_where (has_entry_id new.entry_id) (λ _. new) es)
        ≡ (if new.entry_id == k then some new else find? (has_entry_id k) es)
  unfolding find? update_where any
  find-update [] h = cc
  find-update (e ∷ es) h = elim (Bool-cases (any (has_entry_id new.entry_id) es)) [
    | inl more ↦ ground (
      arith,
      eq_iff e.entry_id new.entry_id,
      eq_iff e.entry_id k,
      eq_iff new.entry_id k,
      find-update es more,
    )
    | inr last ↦ ground (
      arith,
      eq_iff e.entry_id new.entry_id,
      eq_iff e.entry_id k,
      eq_iff new.entry_id k,
      find-update_absent es last,
    )
  ]
    where
      find-update_absent :
          (xs : List EntryRow)
          → any (has_entry_id new.entry_id) xs ≡ false
          → update_where (has_entry_id new.entry_id) (λ _. new) xs ≡ xs
      find-update_absent [] n = refl
      find-update_absent (x ∷ xs) n = ground (arith, find-update_absent xs)

  find-append :
      (es : List EntryRow)
      → any (has_entry_id new.entry_id) es ≡ false
      → find? (has_entry_id k) (es ++ new ∷ [])
        ≡ (if new.entry_id == k then some new else find? (has_entry_id k) es)
  unfolding find? any
  find-append [] h = refl
  find-append (e ∷ es) h = ground (
    arith,
    eq_iff e.entry_id new.entry_id,
    eq_iff e.entry_id k,
    eq_iff new.entry_id k,
    find-append es,
  )

  -- The entry written is read back, and every other one as it was.
  pub find-upsert :
      (es : List EntryRow)
      → find? (has_entry_id k) (upsert_where (has_entry_id new.entry_id) new (λ _. new) es)
        ≡ (if new.entry_id == k then some new else find? (has_entry_id k) es)
  unfolding upsert_where
  find-upsert es = elim (Bool-cases (any (has_entry_id new.entry_id) es)) [
    | inl e ↦ rw e (find-update es e)
    | inr e ↦ rw e (find-append es e)
  ]

pub find-entry_id :
    (k : String) (es : List EntryRow) {e : EntryRow}
    → find? (has_entry_id k) es ≡ some e
    → e.entry_id ≡ k
unfolding find?
find-entry_id k [] h = cc
find-entry_id k (x ∷ xs) {e} h = ground (arith, eq_iff x.entry_id k, find-entry_id k xs {e = e})
