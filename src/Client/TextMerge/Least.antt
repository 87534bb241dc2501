-- ===== src/Client/TextMerge/Least.antt =====
-- A diff takes away as few lines of the base as possible.
use synch.Common.{
  ℕ, ◌+◌, ◌-◌, ◌≤◌, ◌≡◌, refl, ◌∙◌, String, Option, none, some, List, [], ◌∷◌, eq_iff, arith,
  length, drop,
}
use synch.Client.TextMerge.{
  Replacement, create_lcs_table, cell, ensure_current, flush, remove_line, push_line, diff_loop,
  diff_replacements,
}
use synch.Client.TextMerge.Described.{
  equal, removed, pushed, diff_loop-step, EndsAt, remove_line-EndsAt, push_line-EndsAt,
}
use synch.Client.TextMerge.Longest.{
  IsCommon, lcs, lcs-nil, lcs_of_nil, lcs-cons, length-le-lcs, cell-create_lcs_table,
}
use synch.Client.TextMerge.Slices.{drop-cons}

-- The number of lines that replacements take away.
pub removed_lines : List Replacement → ℕ
removed_lines [] = 0
removed_lines (r ∷ rs) = (r.end - r.start) + removed_lines rs

open_lines : Option Replacement → ℕ
open_lines none = 0
open_lines (some r) = r.end - r.start

removed_none : removed_lines [] ≡ 0
unfolding removed_lines
removed_none = refl

open_none : open_lines none ≡ 0
unfolding open_lines
open_none = refl

removed_lines-flush :
    (current : Option Replacement) (rs : List Replacement)
    → removed_lines (flush current rs) ≡ open_lines current + removed_lines rs
unfolding flush open_lines removed_lines
removed_lines-flush none rs = omega arith
removed_lines-flush (some r) rs = refl

open_lines-remove_line :
    (i : ℕ) (current : Option Replacement)
    → EndsAt i current
    → open_lines (some (remove_line i current)) ≡ open_lines current + 1
unfolding remove_line ensure_current open_lines
open_lines-remove_line i none e = omega arith
open_lines-remove_line i (some r) e = omega arith

open_lines-push_line :
    (v : String) (i : ℕ) (current : Option Replacement)
    → open_lines (some (push_line v i current)) ≡ open_lines current
unfolding push_line ensure_current open_lines
open_lines-push_line v i none = omega arith
open_lines-push_line v i (some r) = refl

module _ (base variant : List String) where
  abbrev table : List (List ℕ)
  table = create_lcs_table base variant

  -- The cells that the loop compares.
  compared :
      (i j : ℕ) (b v : String) (bs vs : List String)
      → drop i base ≡ b ∷ bs
      → drop j variant ≡ v ∷ vs
      → (cell table (i + 1) j ≡ lcs bs (v ∷ vs)) × (cell table i (j + 1) ≡ lcs (b ∷ bs) vs)
  compared i j b v bs vs hi hj =
      let (p, q) = drop-cons i base b bs hi in
      let (p', q') = drop-cons j variant v vs hj in
      (
        cell-create_lcs_table base variant (i + 1) j (omega arith) (omega arith) ∙ rw (q, hj) refl,
        cell-create_lcs_table base variant i (j + 1) (omega arith) (omega arith) ∙ rw (hi, q') refl,
      )

  diff_loop-removed_lines :
      (i j : ℕ) (bs vs : List String) (current : Option Replacement)
      → drop i base ≡ bs
      → drop j variant ≡ vs
      → EndsAt i current
      → removed_lines (diff_loop table i j bs vs current) + lcs bs vs
        ≡ length bs + open_lines current
  unfolding diff_loop
  diff_loop-removed_lines i j [] [] current hi hj e =
      omega (arith, removed_lines-flush current [], lcs-nil [], removed_none)
  diff_loop-removed_lines i j (b ∷ bs) [] current hi hj e = omega (
    arith,
    diff_loop-removed_lines (i + 1) j bs [] (some (remove_line i current))
        (drop-cons i base b bs hi).1 hj (remove_line-EndsAt i current e),
    open_lines-remove_line i current e,
    lcs-nil (b ∷ bs),
    lcs-nil bs,
  )
  diff_loop-removed_lines i j [] (v ∷ vs) current hi hj e = omega (
    arith,
    diff_loop-removed_lines i (j + 1) [] vs (some (push_line v i current)) hi
        (drop-cons j variant v vs hj).1 (push_line-EndsAt v i current e),
    open_lines-push_line v i current,
    lcs_of_nil vs,
    lcs_of_nil (v ∷ vs),
  )
  diff_loop-removed_lines i j (b ∷ bs) (v ∷ vs) current hi hj e =
      elim (diff_loop-step table i j b v bs vs current) [
        | equal p q ↦
            rw (q, removed_lines-flush)
              (ground (
                arith,
                diff_loop-removed_lines (i + 1) (j + 1) bs vs none (drop-cons i base b bs hi).1
                    (drop-cons j variant v vs hj).1 tt,
                lcs-cons b v bs vs,
                eq_iff b v,
                open_none,
              ))
        | removed n c q ↦ rw q (
            ground (
              arith,
              compared i j b v bs vs hi hj,
              diff_loop-removed_lines (i + 1) j bs (v ∷ vs) (some (remove_line i current))
                  (drop-cons i base b bs hi).1 hj (remove_line-EndsAt i current e),
              open_lines-remove_line i current e,
              lcs-cons b v bs vs,
              eq_iff b v,
            ))
        | pushed n c q ↦ rw q (
            ground (
              arith,
              compared i j b v bs vs hi hj,
              diff_loop-removed_lines i (j + 1) (b ∷ bs) vs (some (push_line v i current)) hi
                  (drop-cons j variant v vs hj).1 (push_line-EndsAt v i current e),
              open_lines-push_line v i current,
              lcs-cons b v bs vs,
              eq_iff b v,
            ))
      ]

-- Of the lines of the base a diff takes away as few as any way to get to the variant: whatever lines
-- stand in both texts in the same order, those that are taken away are no more than the others of the
-- base.
pub diff_replacements-least :
    (base variant zs : List String)
    → IsCommon zs base variant
    → removed_lines (diff_replacements base variant) + length zs ≤ length base
unfolding diff_replacements
diff_replacements-least base variant zs c = omega (
  arith,
  diff_loop-removed_lines base variant 0 0 base variant none refl refl tt,
  length-le-lcs c,
  open_none,
)
