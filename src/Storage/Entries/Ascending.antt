-- ===== src/Storage/Entries/Ascending.antt =====
-- ORDER BY updated_seq over rows whose cursors differ: the rows ascend, and a later page's rows are
-- those that the earlier pages left.
use synch.Common.{
  ℕ, zero, suc, ◌<◌, ◌≡◌, refl, sym, ◌∙◌, ap, Bool, true, false, some, List, [], ◌∷◌, arith,
  if◌then◌else◌, inl, inr, Bool-cases, ltb, select, take, drop, get_last?, All, All-map, All-select,
  All-take, All-get_last?, select-All_id,
}
use synch.Storage.Rows.{EntryRow}
use synch.Storage.Entries.{insert_row, order_by, state_order}
use synch.Storage.Entries.Ordering.{All-insert_row, All-order_by}
use synch.Storage.Invariant.Sequence.{AllDiffer, Differ}

-- Rows by ascending cursor.
abbrev pub Ascending : List EntryRow → Type 0
Ascending [] = Unit {0}
Ascending (e ∷ es) = All (λ x. e.updated_seq < x.updated_seq) es × Ascending es

Ascending-insert_row :
    (e : EntryRow) (xs : List EntryRow)
    → All (Differ e) xs
    → Ascending xs
    → Ascending (insert_row state_order e xs)
unfolding insert_row
Ascending-insert_row e [] d h = (tt, tt)
Ascending-insert_row e (x ∷ xs) d h = elim (Bool-cases (ltb e.updated_seq x.updated_seq)) [
  | inl l ↦
      let less : e.updated_seq < x.updated_seq = ground arith in
      let here : state_order e x ≡ true = rw l refl in
      rw here ((less, All-map _ _ xs (λ y m. omega (arith, m, less)) h.0), h)
  | inr l ↦
      let more : x.updated_seq < e.updated_seq = ground (arith, d.0.0) in
      let there : state_order e x ≡ false = ground arith in
      rw there (
        All-insert_row state_order (λ y. x.updated_seq < y.updated_seq) e xs more h.0,
        Ascending-insert_row e xs d.1 h.1,
      )
]

-- The selection of rows apart from each other is apart.
pub AllDiffer-select :
    (p : EntryRow → Bool) (xs : List EntryRow) → AllDiffer xs → AllDiffer (select p xs)
unfolding select
AllDiffer-select p [] h = tt
AllDiffer-select p (x ∷ xs) h = elim (Bool-cases (p x)) [
  | inl e ↦ rw e (All-select (Differ x) p xs h.0, AllDiffer-select p xs h.1)
  | inr e ↦ rw e (AllDiffer-select p xs h.1)
]

pub Ascending-order_by : (xs : List EntryRow) → AllDiffer xs → Ascending (order_by state_order xs)
unfolding order_by
Ascending-order_by [] h = tt
Ascending-order_by (x ∷ xs) h =
    Ascending-insert_row x (order_by state_order xs) (All-order_by state_order (Differ x) xs h.0)
      (Ascending-order_by xs h.1)

insert_front :
    (e : EntryRow) (xs : List EntryRow)
    → All (λ x. e.updated_seq < x.updated_seq) xs
    → insert_row state_order e xs ≡ e ∷ xs
unfolding insert_row
insert_front e [] h = refl
insert_front e (x ∷ xs) h = let here : state_order e x ≡ true = ground (arith, h.0) in rw here refl

select-insert_row :
    (q : EntryRow → Bool) (e : EntryRow) (xs : List EntryRow)
    → All (Differ e) xs
    → Ascending xs
    → select q (insert_row state_order e xs)
      ≡ (if q e then insert_row state_order e (select q xs) else select q xs)
unfolding select insert_row
select-insert_row q e [] d h = refl
select-insert_row q e (x ∷ xs) d h = elim (Bool-cases (ltb e.updated_seq x.updated_seq)) [
  | inl l ↦
      let here : state_order e x ≡ true = rw l refl in
      let less : All (λ y. e.updated_seq < y.updated_seq) (x ∷ xs) =
        (ground arith, All-map _ _ xs (λ y m. ground (arith, m)) h.0) in
      let front = insert_front e (select q (x ∷ xs)) (All-select _ q (x ∷ xs) less) in
      elim (Bool-cases (q e)) [ inl t ↦ rw (here, t) (sym front) | inr f ↦ rw (here, f) refl ]
  | inr l ↦
      let there : state_order e x ≡ false = ground (arith, d.0.0) in
      let ih = select-insert_row q e xs d.1 h.1 in
      elim (Bool-cases (q e)) [
        | inl t ↦ elim (Bool-cases (q x)) [
          | inl s ↦ rw (there, s, t, there) (ap (λ ys. x ∷ ys) (rw t at ih))
          | inr s ↦ rw (there, s, t) (rw t at ih)
        ]
        | inr f ↦ elim (Bool-cases (q x)) [
          | inl s ↦ rw (there, s, f) (ap (λ ys. x ∷ ys) (rw f at ih))
          | inr s ↦ rw (there, s, f) (rw f at ih)
        ]
      ]
]

-- A selection of the ordered rows is the ordered selection.
pub select-order_by :
    (q : EntryRow → Bool) (xs : List EntryRow)
    → AllDiffer xs
    → select q (order_by state_order xs) ≡ order_by state_order (select q xs)
unfolding select order_by
select-order_by q [] h = refl
select-order_by q (x ∷ xs) h =
    let ih = select-order_by q xs h.1 in
    let step =
      select-insert_row q x (order_by state_order xs) (All-order_by state_order (Differ x) xs h.0)
        (Ascending-order_by xs h.1) in
    elim (Bool-cases (q x)) [
      | inl t ↦ rw t ((rw t at step) ∙ ap (insert_row state_order x) ih)
      | inr f ↦ rw f ((rw f at step) ∙ ih)
    ]

select_none :
    (e : EntryRow) (x : EntryRow)
    → x.updated_seq < e.updated_seq
    → ltb e.updated_seq x.updated_seq ≡ false
select_none e x h = ground arith

-- The rows after the last row of a page are the rest.
pub select-after_page :
    (n : ℕ) (xs : List EntryRow) {e : EntryRow}
    → Ascending xs
    → get_last? (take n xs) ≡ some e
    → select (λ x. ltb e.updated_seq x.updated_seq) xs ≡ drop n xs
unfolding select
select-after_page zero xs h l = cc
select-after_page (suc n) [] h l = cc
select-after_page (suc zero) (x ∷ xs) {e} h l =
    let same : x ≡ e = ground arith in
    let own : ltb e.updated_seq x.updated_seq ≡ false =
      ground (arith, ap (λ (y : EntryRow). y.updated_seq) same) in
    rw own (
      select-All_id _ xs
        (All-map _ _ xs (λ y m. ground (arith, m, ap (λ (y : EntryRow). y.updated_seq) same)) h.0))
select-after_page (suc (suc n)) (x ∷ []) {e} h l =
    let same : x ≡ e = ground arith in
    let own : ltb e.updated_seq x.updated_seq ≡ false =
      ground (arith, ap (λ (y : EntryRow). y.updated_seq) same) in
    rw own refl
select-after_page (suc (suc n)) (x ∷ y ∷ ys) {e} h l =
    let later : x.updated_seq < e.updated_seq =
      All-get_last? (λ z. x.updated_seq < z.updated_seq) (take (suc n) (y ∷ ys)) {x = e}
        (All-take _ (suc n) (y ∷ ys) h.0) l in
    rw (select_none e x later) (select-after_page (suc n) (y ∷ ys) {e = e} h.1 l)
