-- ===== src/Client/TextMerge/Symmetric.antt =====
-- A merge does not depend on which of its sides is called local.
use synch.Common.{ℕ, ◌≡◌, refl, ap, sym, ◌∙◌, String, List, [], ◌∷◌, eq_iff, arith, All}
use synch.Client.TextMerge.{
  Replacement, Turn, turn, apply_replacement, merge_loop, merge_replacements, merge_lines,
  merge_text3, diff_replacements, split_lines,
}
use synch.Client.TextMerge.Rounds.{by_turn, merge_loop-turn, local_step, remote_step}
use synch.Client.TextMerge.Spaced.{Apart-IsRange, diff_replacements-Apart}
use synch.Client.TextMerge.Turns.{TurnOf, turn-TurnOf, IsRange, mirror, turn-mirror}

module _ (base : List String) where
  by_turn-mirror :
      (i : ℕ) (output : List String) (l r : Replacement) (ls rs : List Replacement) (t : Turn)
      → TurnOf l r t
      → merge_loop base l.end (apply_replacement base i output l) ls rs
        ≡ merge_loop base l.end (apply_replacement base i output l) rs ls
      → merge_loop base l.end (apply_replacement base i output l) ls (r ∷ rs)
        ≡ merge_loop base l.end (apply_replacement base i output l) (r ∷ rs) ls
      → merge_loop base r.end (apply_replacement base i output r) (l ∷ ls) rs
        ≡ merge_loop base r.end (apply_replacement base i output r) rs (l ∷ ls)
      → by_turn base i output l r ls rs t ≡ by_turn base i output r l rs ls (mirror t)
  by_turn-mirror i output l r ls rs _ (TurnOf.takes_both e) h k m =
      h
      ∙ ap (λ (x : Replacement). merge_loop base x.end (apply_replacement base i output x) rs ls) e
  by_turn-mirror i output l r ls rs _ (TurnOf.takes_local e n) h k m = k
  by_turn-mirror i output l r ls rs _ (TurnOf.takes_remote e n) h k m = m
  by_turn-mirror i output l r ls rs _ (TurnOf.gives_up c) h k m = refl

  merge_loop_comm :
      (i : ℕ) (output : List String) (ls rs : List Replacement)
      → All IsRange ls
      → All IsRange rs
      → merge_loop base i output ls rs ≡ merge_loop base i output rs ls
  merge_loop_comm i output [] [] hl hr = refl
  merge_loop_comm i output (l ∷ ls) [] hl hr =
      local_step base i output l ls
      ∙ merge_loop_comm l.end (apply_replacement base i output l) ls [] hl.1 hr
      ∙ sym (remote_step base i output l ls)
  merge_loop_comm i output [] (r ∷ rs) hl hr =
      remote_step base i output r rs
      ∙ merge_loop_comm r.end (apply_replacement base i output r) [] rs hl hr.1
      ∙ sym (local_step base i output r rs)
  merge_loop_comm i output (l ∷ ls) (r ∷ rs) hl hr =
      merge_loop-turn base i output l r ls rs
      ∙ by_turn-mirror i output l r ls rs (turn l r) (turn-TurnOf l r hl.0 hr.0)
          (merge_loop_comm l.end (apply_replacement base i output l) ls rs hl.1 hr.1)
          (merge_loop_comm l.end (apply_replacement base i output l) ls (r ∷ rs) hl.1 hr)
          (merge_loop_comm r.end (apply_replacement base i output r) (l ∷ ls) rs hl hr.1)
      ∙ ap (λ t. by_turn base i output r l rs ls t) (sym (turn-mirror l r hl.0 hr.0))
      ∙ sym (merge_loop-turn base i output r l rs ls)

merge_lines_comm :
    (base local remote : List String)
    → merge_lines base local remote ≡ merge_lines base remote local
unfolding merge_lines merge_replacements
merge_lines_comm base local remote = ground (
  arith,
  merge_loop_comm base 0 [] (diff_replacements base local) (diff_replacements base remote)
      (Apart-IsRange _ (diff_replacements-Apart base local))
      (Apart-IsRange _ (diff_replacements-Apart base remote)),
)

-- The merge of two texts over a base is the same whichever of the two is the local text, conflicts
-- included.
pub merge_text3_comm :
    (base local remote : String) → merge_text3 base local remote ≡ merge_text3 base remote local
unfolding merge_text3
merge_text3_comm base local remote = ground (
  arith,
  eq_iff local remote,
  eq_iff remote local,
  eq_iff base local,
  eq_iff base remote,
  merge_lines_comm (split_lines base) (split_lines local) (split_lines remote),
)
