-- ===== src/Client/TextMerge/Turns.antt =====
-- What the merge does with the two changes at the head of the lists, and when it gives up.
use synch.Common.{
  ◌≤◌, ◌<◌, ◌≡◌, ◌≢◌, refl, ap, String, true, false, Bool-cases, List, [], ◌∷◌, eq_iff, arith, inl,
  inr, ◌⊎◌, ltb, leb, if◌then◌else◌,
}
use synch.Client.TextMerge.{
  Replacement, Turn, both, local_first, remote_first, clash, turn, same_range, same_lines,
  ranges_overlap, conflicts_at_same_insertion_point,
}

pub same_lines-eq : (xs ys : List String) → same_lines xs ys ≡ true → xs ≡ ys
unfolding same_lines
same_lines-eq [] [] h = refl
same_lines-eq [] (y ∷ ys) h = cc
same_lines-eq (x ∷ xs) [] h = cc
same_lines-eq (x ∷ xs) (y ∷ ys) h = ground (arith, eq_iff x y, same_lines-eq xs ys)

pub same_lines_refl : (xs : List String) → same_lines xs xs ≡ true
unfolding same_lines
same_lines_refl [] = refl
same_lines_refl (x ∷ xs) = ground (arith, eq_iff x x, same_lines_refl xs)

-- Two changes that are not the same one, and that replace a line in common or insert at one place.
pub record Clashes (l r : Replacement) : Type 0 where
  pub differ : l ≢ r
  pub meet :
      ((l.start < r.end) × (r.start < l.end))
      ⊎ ((l.start ≡ l.end) × (r.start ≡ r.end) × (l.start ≡ r.start))

abbrev pub IsRange : Replacement → Type 0
IsRange r = r.start ≤ r.end

-- Membership as data.
abbrev pub In : Replacement → List Replacement → Type 0
In x [] = ⊥
In x (y ∷ ys) = (x ≡ y) ⊎ In x ys

-- A change of one side clashes with a change of the other side.
pub record HasClash (ls rs : List Replacement) : Type 0 where
  pub left : Replacement
  pub right : Replacement
  pub in_left : In left ls
  pub in_right : In right rs
  pub clashes : Clashes left right

pub data TurnOf (l r : Replacement) : Turn → Type 0 where
  takes_both : l ≡ r → TurnOf l r both
  takes_local : l.end ≤ r.start → ¬ Clashes l r → TurnOf l r local_first
  takes_remote : r.end ≤ l.start → ¬ Clashes l r → TurnOf l r remote_first
  gives_up : Clashes l r → TurnOf l r clash

module _ (l r : Replacement) where
  same_range-eq : same_range l r ≡ true → (l.start ≡ r.start) × (l.end ≡ r.end)
  unfolding same_range
  same_range-eq h = ground arith

  same_range-ne : same_range l r ≡ false → l ≢ r
  unfolding same_range
  same_range-ne h e =
      let starts : l.start ≡ r.start = ap (λ (x : Replacement). x.start) e in
      let ends : l.end ≡ r.end = ap (λ (x : Replacement). x.end) e in ground arith

  lines-ne : same_lines l.lines r.lines ≡ false → l ≢ r
  lines-ne h e = cc (same_lines_refl r.lines, ap (λ (x : Replacement). x.lines) e)

  disjoint : ranges_overlap l r ≡ false → leb l.end r.start ≡ false → r.end ≤ l.start
  unfolding ranges_overlap
  disjoint h k = ground arith

  peaceful : same_range l r ≡ false → ranges_overlap l r ≡ false → ¬ Clashes l r
  unfolding same_range ranges_overlap
  peaceful e free c = elim c.meet [ inl over ↦ ground arith | inr place ↦ ground arith ]

  module _ (hl : l.start ≤ l.end) (hr : r.start ≤ r.end) where
    turn_same :
        same_range l r ≡ true → TurnOf l r (if same_lines l.lines r.lines then both else clash)
    turn_same e = elim (Bool-cases (same_lines l.lines r.lines)) [
      | inl alike ↦
          rw alike
            (takes_both (ground (arith, same_range-eq e, same_lines-eq l.lines r.lines alike)))
      | inr other ↦ rw other (
          gives_up (record {
            differ = lines-ne other;
            meet = elim (Bool-cases (ltb l.start l.end)) [
              | inl wide ↦ inl (ground (arith, same_range-eq e))
              | inr empty ↦ inr (ground (arith, same_range-eq e))
            ];
          }))
    ]

    turn_apart :
        same_range l r ≡ false
        → TurnOf l r (
            if conflicts_at_same_insertion_point l r
            then clash
            else if ranges_overlap l r
            then clash
            else if leb l.end r.start
            then local_first
            else if leb r.end l.start
            then remote_first
            else clash)
    turn_apart e = elim (Bool-cases (conflicts_at_same_insertion_point l r)) [
      | inl at ↦ absurd (unfold conflicts_at_same_insertion_point same_range in ground arith)
      | inr away ↦ rw away (elim (Bool-cases (ranges_overlap l r)) [
        | inl over ↦ rw over (
            gives_up (record {
              differ = same_range-ne e;
              meet = inl (unfold ranges_overlap in ground arith);
            }))
        | inr free ↦ rw free (elim (Bool-cases (leb l.end r.start)) [
          | inl first ↦ rw first (takes_local (ground arith) (peaceful e free))
          | inr later ↦ rw later (
              let before : r.end ≤ l.start = disjoint free later in
              let test : leb r.end l.start ≡ true = ground arith in
              rw test (takes_remote before (peaceful e free)))
        ])
      ])
    ]

    pub turn-TurnOf : TurnOf l r (turn l r)
    unfolding turn
    turn-TurnOf = elim (Bool-cases (same_range l r)) [
      | inl e ↦ rw e (turn_same e)
      | inr e ↦ rw e (turn_apart e)
    ]

pub same_lines_comm : (xs ys : List String) → same_lines xs ys ≡ same_lines ys xs
unfolding same_lines
same_lines_comm [] [] = refl
same_lines_comm [] (y ∷ ys) = refl
same_lines_comm (x ∷ xs) [] = refl
same_lines_comm (x ∷ xs) (y ∷ ys) = ground (arith, eq_iff x y, eq_iff y x, same_lines_comm xs ys)

abbrev pub mirror : Turn → Turn
mirror both = both
mirror local_first = remote_first
mirror remote_first = local_first
mirror clash = clash

module _ (l r : Replacement) (hl : l.start ≤ l.end) (hr : r.start ≤ r.end) where
  turn_apart-mirror : same_range l r ≡ false → turn r l ≡ mirror (turn l r)
  unfolding turn same_range ranges_overlap conflicts_at_same_insertion_point
  turn_apart-mirror h = ground (arith, same_lines_comm l.lines r.lines)

  turn_same-mirror : same_range l r ≡ true → turn r l ≡ mirror (turn l r)
  unfolding turn same_range
  turn_same-mirror h = ground (arith, same_lines_comm l.lines r.lines)

  -- The sides play the same part.
  pub turn-mirror : turn r l ≡ mirror (turn l r)
  turn-mirror = elim (Bool-cases (same_range l r)) [
    | inl e ↦ turn_same-mirror e
    | inr e ↦ turn_apart-mirror e
  ]
