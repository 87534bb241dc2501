-- ===== src/Entry/Pages.antt =====
-- `listEntryStates` page by page: a client that follows the page cursors gets every entry of its
-- range, once and in order.
use text.Mathlib.TextPositions.{compare_refl}
use synch.Common.{
  ℕ, zero, suc, ◌+◌, ◌≤◌, ◌<◌, ◌≡◌, refl, sym, ◌∙◌, ap, subst, String, Bool, true, false, ◌&&◌,
  Option, none, some, List, [], ◌∷◌, ◌++◌, map, arith, min, ok, err, inl, inr, Bool-cases, ltb,
  length, take, drop, get_last?, select, or_else, All, All-map, All-intro, All-select, All-take,
  select-All, select-ext, select-select, take-append-drop, length-take, length-drop, take-take-suc,
  All-get_last?, get_last?-some,
}
use synch.Storage.Rows.{Database, EntryRow, CoordinatorState}
use synch.Storage.State.{current_cursor}
use synch.Storage.Entries.{
  state_order, order_by, after_cursor, in_range, list_entry_states, count_entry_states,
  EntryStatePageCursor,
}
use synch.Storage.Entries.Ordering.{All-order_by, length-order_by, take-all}
use synch.Storage.Entries.Ascending.{
  Ascending-order_by, AllDiffer-select, select-order_by, select-after_page,
}
use synch.Storage.Invariant.{IsConsistent}
use synch.Storage.Invariant.Sequence.{IsSequenced, IsSequencedAt, AllDiffer, Differ}
use synch.Entry.Listing.{
  ListEntryStates, EntryState, EntryStatesListed, list_states, validate_cursor_range,
  to_entry_state, state_cursor, page_of, has_more, next_of, max_entry_state_batch,
}

-- A client that asks for page after page, up to `n` of them.
unfoldable pub follow_pages : ℕ → ListEntryStates → Database → Option (List EntryState)
follow_pages zero m db = none
follow_pages (suc n) m db = elim (list_states m db) [
  | err e ↦ none
  | ok page ↦ elim page.next_after [
    | none ↦ some page.entries
    | some next ↦
        elim (follow_pages n
          (record m { after = some next; target_cursor = some page.target_cursor }) db) [
            | none ↦ none
            | some rest ↦ some (page.entries ++ rest)
          ]
  ]
]

follow_step :
    (n : ℕ) (m : ListEntryStates) (db : Database) (page : EntryStatesListed)
    (c : EntryStatePageCursor) (rest : List EntryState)
    → list_states m db ≡ ok page
    → page.next_after ≡ some c
    → follow_pages n (record m { after = some c; target_cursor = some page.target_cursor }) db
      ≡ some rest
    → follow_pages (suc n) m db ≡ some (page.entries ++ rest)
unfolding follow_pages
follow_step n m db page c rest h next ih = rw (follow_pages, h, next, ih) refl

-- The rows behind a cursor, where cursors do not repeat.
abbrev seq_after : Option EntryStatePageCursor → EntryRow → Bool
seq_after none e = true
seq_after (some c) e = ltb c.updated_seq e.updated_seq

abbrev IsRowCursor : Option EntryStatePageCursor → List EntryRow → Type 0
IsRowCursor a es = All (λ x. after_cursor a x ≡ seq_after a x) es

own_cursor :
    (e : EntryRow) → after_cursor (some (state_cursor e)) e ≡ seq_after (some (state_cursor e)) e
own_cursor e = rw (compare_refl e.entry_id) (ground arith)

Differ-cursor :
    (e x : EntryRow)
    → Differ e x
    → (after_cursor (some (state_cursor e)) x ≡ seq_after (some (state_cursor e)) x)
      × (after_cursor (some (state_cursor x)) e ≡ seq_after (some (state_cursor x)) e)
Differ-cursor e x d = (ground (arith, d.0), ground (arith, d.0))

-- Every row gives such a cursor.
row_cursors :
    (es : List EntryRow) → AllDiffer es → All (λ e. IsRowCursor (some (state_cursor e)) es) es
row_cursors [] h = tt
row_cursors (e ∷ es) h = (
  (own_cursor e, All-map _ _ es (λ x d. (Differ-cursor e x d).0) h.0),
  both es es h.0 (row_cursors es h.1),
)
  where
    both :
        (zs xs : List EntryRow)
        → All (Differ e) xs
        → All (λ x. IsRowCursor (some (state_cursor x)) zs) xs
        → All (λ x. IsRowCursor (some (state_cursor x)) (e ∷ zs)) xs
    both zs [] d r = tt
    both zs (x ∷ xs) d r = (((Differ-cursor e x d.0).1, r.0), both zs xs d.1 r.1)

module _ (since target : ℕ) (ids : Option (List String)) (es : List EntryRow) where
  -- The rows of the range behind a cursor.
  abbrev pub rows_from : Option EntryStatePageCursor → List EntryRow
  rows_from a = order_by state_order (select (λ e. in_range since target ids e && seq_after a e) es)

  listed_rows :
      (a : Option EntryStatePageCursor)
      → IsRowCursor a es
      → order_by state_order (select (λ e. in_range since target ids e && after_cursor a e) es)
        ≡ rows_from a
  listed_rows a h =
      ap (order_by state_order) (select-ext _ _ es (All-map _ _ es (λ x q. rw q refl) h))

  rows_facts :
      (a : Option EntryStatePageCursor)
      → All (λ e. (in_range since target ids e && seq_after a e) ≡ true) (rows_from a)
  rows_facts a = All-order_by state_order _ _ (select-All _ es)

  -- The rows behind the last row of a page are the rest of the rows.
  rest_rows :
      (a : Option EntryStatePageCursor) (n : ℕ) {e : EntryRow}
      → AllDiffer es
      → get_last? (take n (rows_from a)) ≡ some e
      → rows_from (some (state_cursor e)) ≡ drop n (rows_from a)
  rest_rows a n {e} d l =
      let facts =
        All-get_last? _ (take n (rows_from a)) {x = e} (All-take _ n (rows_from a) (rows_facts a))
          l in
      let p : EntryRow → Bool = λ x. in_range since target ids x && seq_after a x in
      let later : EntryRow → Bool = λ x. ltb e.updated_seq x.updated_seq in
      let narrowed : select (λ x. in_range since target ids x && later x) es
          ≡ select later (select p es) =
        select-ext _ _ es (All-intro _ es (λ x. both a x facts)) ∙ sym (select-select later p es) in
      ap (order_by state_order) narrowed
      ∙ sym (select-order_by later (select p es) (AllDiffer-select p es d))
      ∙ select-after_page n (rows_from a) {e = e}
          (Ascending-order_by (select p es) (AllDiffer-select p es d)) l
    where
      both :
          (b : Option EntryStatePageCursor) (x : EntryRow)
          → (in_range since target ids e && seq_after b e) ≡ true
          → (in_range since target ids x && ltb e.updated_seq x.updated_seq)
            ≡ ((in_range since target ids x && seq_after b x) && ltb e.updated_seq x.updated_seq)
      both none x f = ground arith
      both (some c) x f = ground arith

-- A request whose range is within the vault's cursors, at the state of the vault.
module _ (m : ListEntryStates) (db : Database) (target : ℕ) (s : CoordinatorState)
    (stored : db.state ≡ some s) (since_le : m.since_cursor ≤ target)
    (target_le : target ≤ s.current_cursor) (limited : 0 < m.limit)
    (apart : AllDiffer db.entries) where
  abbrev bound : ℕ
  bound = min m.limit max_entry_state_batch

  abbrev rows : Option EntryStatePageCursor → List EntryRow
  rows = rows_from m.since_cursor target m.entry_ids db.entries

  abbrev asked : Option EntryStatePageCursor → Option ℕ → ListEntryStates
  asked a t = record m { after = a; target_cursor = t }

  -- A page cursor within the range.
  abbrev InRange : Option EntryStatePageCursor → Type 0
  InRange none = Unit {0}
  InRange (some c) = (m.since_cursor < c.updated_seq) × (c.updated_seq ≤ target)

  abbrev reply : Option EntryStatePageCursor → EntryStatesListed
  reply a =
      let fetched = take (bound + 1) (rows a) in
      record {
        target_cursor = target;
        total_entries = count_entry_states m.since_cursor target m.entry_ids db;
        has_more = has_more bound fetched;
        next_after =
            next_of state_cursor (has_more bound fetched) (get_last? (page_of bound fetched));
        entries = map (to_entry_state db) (page_of bound fetched);
      }

  list_states-reply :
      (a : Option EntryStatePageCursor) (t : Option ℕ)
      → or_else t s.current_cursor ≡ target
      → InRange a
      → IsRowCursor a db.entries
      → list_states (asked a t) db ≡ ok (reply a)
  unfolding list_states validate_cursor_range list_entry_states current_cursor
  list_states-reply a t q r c =
      rw (stored, q, range_ok a r, listed_rows m.since_cursor target m.entry_ids db.entries a c)
        refl
    where
      range_ok :
          (b : Option EntryStatePageCursor)
          → InRange b
          → validate_cursor_range (asked b t) target s.current_cursor ≡ ok tt
      range_ok none h = ground arith
      range_ok (some x) h = ground (arith, h)

  last_page :
      (a : Option EntryStatePageCursor)
      → length (rows a) ≤ bound
      → ((reply a).next_after ≡ none) × ((reply a).entries ≡ map (to_entry_state db) (rows a))
  last_page a few =
      let whole : take (bound + 1) (rows a) ≡ rows a =
        take-all (bound + 1) (rows a) (omega (arith, few)) in
      let no_more : has_more bound (rows a) ≡ false = ground (arith, few) in
      (rw (whole, no_more) refl, rw (whole, no_more) refl)

  full_page :
      (a : Option EntryStatePageCursor)
      → bound < length (rows a)
      → (e : EntryRow) × (get_last? (take bound (rows a)) ≡ some e)
        × ((reply a).next_after ≡ some (state_cursor e))
        × ((reply a).entries ≡ map (to_entry_state db) (take bound (rows a)))
  full_page a many =
      let more : has_more bound (take (bound + 1) (rows a)) ≡ true =
        ground (arith, many, length-take (bound + 1) (rows a)) in
      let page : take bound (take (bound + 1) (rows a)) ≡ take bound (rows a) =
        ap (λ k. take bound (take k (rows a))) {y = suc bound} (omega arith)
        ∙ take-take-suc bound (rows a) in
      let (e, l) = last bound (rows a) (omega (arith, limited)) (omega (arith, many)) in
      (e, l, rw (more, page, l) refl, rw (more, page) refl)
    where
      last :
          (n : ℕ) (xs : List EntryRow)
          → 0 < n
          → 0 < length xs
          → (e : EntryRow) × (get_last? (take n xs) ≡ some e)
      last zero xs p q = absurd (omega arith)
      last (suc n) [] p q = absurd (omega arith)
      last (suc n) (x ∷ xs) p q = get_last?-some x (take n xs)

  follow_pages-rows :
      (n : ℕ) (a : Option EntryStatePageCursor) (t : Option ℕ)
      → or_else t s.current_cursor ≡ target
      → InRange a
      → IsRowCursor a db.entries
      → length (rows a) < n
      → follow_pages n (asked a t) db ≡ some (map (to_entry_state db) (rows a))
  unfolding follow_pages
  follow_pages-rows zero a t q r c fuel = absurd (omega arith)
  follow_pages-rows (suc n) a t q r c fuel = elim (Bool-cases (ltb bound (length (rows a)))) [
    | inr few ↦
        let (next, page) = last_page a (ground (arith, few)) in
        rw (follow_pages, list_states-reply a t q r c, next, page) refl
    | inl many ↦
        let (e, l, next, page) = full_page a (ground (arith, many)) in
        let rest = rest_rows m.since_cursor target m.entry_ids db.entries a bound {e = e} apart l in
        let facts =
          All-get_last? _ (take bound (rows a)) {x = e}
            (All-take _ bound (rows a) (rows_facts m.since_cursor target m.entry_ids db.entries a))
            l in
        let cursor : IsRowCursor (some (state_cursor e)) db.entries =
          All-get_last? (λ x. IsRowCursor (some (state_cursor x)) db.entries) (take bound (rows a))
            {x = e}
            (All-take _ bound (rows a) (
              All-order_by state_order _ _
                (All-select _ _ db.entries (row_cursors db.entries apart))))
            l in
        let ih =
          follow_pages-rows n (some (state_cursor e)) (some target) refl (ground (arith, facts))
            cursor
            (omega
              (arith, fuel, ap length rest, length-drop bound (rows a), limited, many_lt many)) in
        follow_step n (asked a t) db (reply a) (state_cursor e) _ (list_states-reply a t q r c) next
          ih
        ∙ ap some (
            ap (λ x. x ++ map (to_entry_state db) (rows (some (state_cursor e)))) page
            ∙ ap (λ x. map (to_entry_state db) (take bound (rows a)) ++ map (to_entry_state db) x)
                rest
            ∙ sym (map-append (take bound (rows a)) (drop bound (rows a)))
            ∙ ap (map (to_entry_state db)) (take-append-drop bound (rows a)))
  ]
    where
      many_lt : ltb bound (length (rows a)) ≡ true → bound < length (rows a)
      many_lt h = ground (arith, h)

      map-append :
          (xs ys : List EntryRow)
          → map (to_entry_state db) (xs ++ ys)
            ≡ map (to_entry_state db) xs ++ map (to_entry_state db) ys
      map-append [] ys = refl
      map-append (x ∷ xs) ys = ap (λ zs. to_entry_state db x ∷ zs) (map-append xs ys)

-- In a consistent vault, a client that asks for a range of cursors (up to `target_cursor`, or up to the
-- vault's cursor if it names none, `since_cursor ≤ target ≤` the vault's cursor) with a positive page size
-- and follows the page cursors gets, within as many requests as there are entries in the range and one, the
-- state of every entry in the range, once, by ascending cursor.
pub list_states-follow_pages :
    (m : ListEntryStates) (db : Database) (s : CoordinatorState) (n : ℕ)
    → IsConsistent db
    → db.state ≡ some s
    → m.after ≡ none
    → m.since_cursor ≤ or_else m.target_cursor s.current_cursor
    → or_else m.target_cursor s.current_cursor ≤ s.current_cursor
    → 0 < m.limit
    → count_entry_states m.since_cursor (or_else m.target_cursor s.current_cursor) m.entry_ids db
      < n
    → follow_pages n m db
      ≡ some (
          map (to_entry_state db) (
            order_by state_order (
              select
                (in_range m.since_cursor (or_else m.target_cursor s.current_cursor) m.entry_ids)
                db.entries)))
unfolding count_entry_states
list_states-follow_pages m db s n inv stored start since_le target_le limited fuel =
    let target = or_else m.target_cursor s.current_cursor in
    let seq : IsSequencedAt s.current_cursor db.entries =
      subst (λ x. IsSequenced x db.entries) stored inv.sequenced in
    let all : select (λ e. in_range m.since_cursor target m.entry_ids e && true) db.entries
        ≡ select (in_range m.since_cursor target m.entry_ids) db.entries =
      select-ext _ _ db.entries (All-intro _ db.entries (λ x. ground arith)) in
    let sorted = ap (order_by state_order) all in
    let walk =
      follow_pages-rows m db target s stored since_le target_le limited seq.differ n none
        m.target_cursor refl tt (All-intro _ db.entries (λ x. refl))
        (omega (
          arith,
          fuel,
          ap length sorted,
          length-order_by state_order
              (select (in_range m.since_cursor target m.entry_ids) db.entries),
        )) in
    ap (λ a. follow_pages n (record m { after = a }) db) start
    ∙ walk
    ∙ ap (λ es. some (map (to_entry_state db) es)) sorted
