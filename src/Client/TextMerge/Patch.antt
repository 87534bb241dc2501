-- ===== src/Client/TextMerge/Patch.antt =====
-- A diff brings back its variant.
use mathlib.Core.List.{append_assoc}
use synch.Common.{ℕ, ◌≡◌, refl, ap, ◌∙◌, String, some, List, [], ◌∷◌, ◌++◌, drop}
use synch.Client.TextMerge.{
  Replacement, apply_replacement, merge_loop, merge_replacements, diff_replacements,
}
use synch.Client.TextMerge.Described.{Describes, same, change, diff_replacements-Describes}
use synch.Client.TextMerge.Rounds.{local_step}
use synch.Client.TextMerge.Slices.{copy_unchanged-rest}
use synch.Client.TextMerge.Takes.{applied, there}

module _ (base : List String) where
  patch_end :
      (i : ℕ) (output rest variant : List String)
      → drop i base ≡ rest
      → rest ≡ variant
      → merge_loop base i output [] [] ≡ some (output ++ variant)
  unfolding merge_loop
  patch_end i output rest variant here p = rw (copy_unchanged-rest base i, here, p) refl

  merge_loop-patch :
      (i : ℕ) (output rest variant : List String) (rs : List Replacement)
      → drop i base ≡ rest
      → Describes i rest variant rs
      → merge_loop base i output rs [] ≡ some (output ++ variant)
  merge_loop-patch i output rest variant [] here (same p) = patch_end i output rest variant here p
  merge_loop-patch i output rest variant (r ∷ rs) here
        (change _ lead old base' variant' p q s t d) =
      local_step base i output r rs
      ∙ merge_loop-patch r.end (apply_replacement base i output r) base' variant' rs
          (there base i output r lead old rest base' here p s t) d
      ∙ ap some (rw (applied base i output r lead old rest base' here p s t, q) (simp append_assoc))

-- Applying the replacements of a diff to the base, with no changes of another side, gives the variant.
pub merge_replacements-diff_replacements :
    (base variant : List String)
    → merge_replacements base (diff_replacements base variant) [] ≡ some variant
unfolding merge_replacements
merge_replacements-diff_replacements base variant =
    merge_loop-patch base 0 [] base variant _ refl (diff_replacements-Describes base variant)
