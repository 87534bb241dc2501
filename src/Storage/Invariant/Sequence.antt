-- ===== src/Storage/Invariant/Sequence.antt =====
-- Cursors: each write of an entry takes a new one.
use synch.Common.{
  ℕ, ◌≤◌, ◌<◌, ◌≡◌, ◌≢◌, refl, sym, ◌∙◌, subst, String, ◌==◌, eq_iff, false, false≢true, Option,
  none, some, List, [], ◌∷◌, ◌++◌, arith, inl, inr, Bool-cases, any, All, All-map, All-append,
}
use synch.Storage.Table.{update_where, upsert_where, All-update_where, All-upsert_where}
use synch.Storage.Rows.{EntryRow, CoordinatorState}
use synch.Storage.Entries.{has_entry_id}

-- Two rows differ in their cursor and in their key.
abbrev pub Differ : EntryRow → EntryRow → Type 0
Differ e x = (x.updated_seq ≢ e.updated_seq) × ((x.entry_id == e.entry_id) ≡ false)

abbrev pub AllDiffer : List EntryRow → Type 0
AllDiffer [] = Unit {0}
AllDiffer (e ∷ es) = All (Differ e) es × AllDiffer es

abbrev pub SeqsUpTo : ℕ → List EntryRow → Type 0
SeqsUpTo c es = All (λ e. e.updated_seq ≤ c) es

pub record IsSequencedAt (c : ℕ) (es : List EntryRow) : Type 0 where
  pub up_to : SeqsUpTo c es
  pub differ : AllDiffer es

abbrev pub IsSequenced : Option CoordinatorState → List EntryRow → Type 0
IsSequenced none es = es ≡ []
IsSequenced (some s) es = IsSequencedAt s.current_cursor es

-- Rows with another key are left alone.
update_where_none :
    (k : String) (new : EntryRow) (es : List EntryRow)
    → All (λ x. (x.entry_id == k) ≡ false) es
    → update_where (has_entry_id k) (λ _. new) es ≡ es
unfolding update_where
update_where_none k new [] h = refl
update_where_none k new (e ∷ es) h = ground (arith, h.0, update_where_none k new es h.1)

module _ (c : ℕ) (new : EntryRow) (fresh : c < new.updated_seq) where
  -- The new row against the rows that stay.
  new_differs :
      (es : List EntryRow)
      → SeqsUpTo c es
      → All (λ x. (x.entry_id == new.entry_id) ≡ false) es
      → All (Differ new) es
  new_differs [] u n = tt
  new_differs (e ∷ es) u n = (((λ p. absurd (omega arith)), n.0), new_differs es u.1 n.1)

  differs_from_new :
      (e : EntryRow) → e.updated_seq ≤ c → (e.entry_id == new.entry_id) ≡ false → Differ e new
  differs_from_new e u n = (
    (λ p. absurd (omega arith)),
    ground (arith, eq_iff e.entry_id new.entry_id, eq_iff new.entry_id e.entry_id),
  )

  AllDiffer-update :
      (es : List EntryRow)
      → SeqsUpTo c es
      → AllDiffer es
      → AllDiffer (update_where (has_entry_id new.entry_id) (λ _. new) es)
  unfolding update_where
  AllDiffer-update [] u h = tt
  AllDiffer-update (e ∷ es) u h = elim (Bool-cases (e.entry_id == new.entry_id)) [
    | inl same ↦
        let others : All (λ x. (x.entry_id == new.entry_id) ≡ false) es =
          subst (λ k. All (λ x. (x.entry_id == k) ≡ false) es) ((eq_iff _ _).0 same)
            (All-map (Differ e) (λ x. (x.entry_id == e.entry_id) ≡ false) es (λ x d. d.1) h.0) in
        rw (same, update_where_none new.entry_id new es others) (new_differs es u.1 others, h.1)
    | inr other ↦ rw other (
      All-update_where (Differ e) (has_entry_id new.entry_id) (λ _. new) es
          (λ x _ _. differs_from_new e u.0 other) h.0,
      AllDiffer-update es u.1 h.1,
    )
  ]

  AllDiffer-append :
      (es : List EntryRow)
      → SeqsUpTo c es
      → any (has_entry_id new.entry_id) es ≡ false
      → AllDiffer es
      → AllDiffer (es ++ new ∷ [])
  unfolding any
  AllDiffer-append [] u n h = (tt, tt)
  AllDiffer-append (e ∷ es) u n h = elim (Bool-cases (e.entry_id == new.entry_id)) [
    | inl same ↦ absurd (false≢true (sym n ∙ (rw same)))
    | inr other ↦ (
      All-append (Differ e) es (new ∷ []) h.0 (differs_from_new e u.0 other, tt),
      AllDiffer-append es u.1 (ground arith) h.1,
    )
  ]

  -- A write of an entry under a cursor ahead of all others keeps the rows apart.
  pub IsSequencedAt-upsert :
      (es : List EntryRow)
      → IsSequencedAt c es
      → IsSequencedAt new.updated_seq (upsert_where (has_entry_id new.entry_id) new (λ _. new) es)
  unfolding upsert_where
  IsSequencedAt-upsert es h = record {
    up_to =
        All-upsert_where (λ e. e.updated_seq ≤ new.updated_seq) _ new _ es (omega arith)
          (λ x _ _. omega arith) (All-map _ _ es (λ e l. omega arith) h.up_to);
    differ = elim (Bool-cases (any (has_entry_id new.entry_id) es)) [
      | inl e ↦ rw e (AllDiffer-update es h.up_to h.differ)
      | inr e ↦ rw e (AllDiffer-append es h.up_to e h.differ)
    ];
  }
