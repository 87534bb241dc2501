-- ===== src/Client/TextMerge/Examples.antt =====
-- Merges of small texts, and the theorems at them.
use synch.Common.{
  ◌≡◌, ◌≤◌, ◌+◌, ◌↔◌, refl, false, false≢true, eq_iff, some, List, [], ◌∷◌, length, String,
}
use synch.Client.TextMerge.{
  exceeds_lcs_budget, split_lines, join, merge_text3, clean, conflict, diff_replacements,
  merge_replacements,
}
use synch.Client.TextMerge.Conflicts.{NeedsLines, merge_text3-conflict}
use synch.Client.TextMerge.Least.{removed_lines, diff_replacements-least}
use synch.Client.TextMerge.Lines.{has_separator, join-split_lines}
use synch.Client.TextMerge.Longest.{done, pair, left, right}
use synch.Client.TextMerge.Patch.{merge_replacements-diff_replacements}
use synch.Client.TextMerge.Symmetric.{merge_text3_comm}
use synch.Client.TextMerge.Turns.{HasClash}

merge_clash : merge_text3 "a\nb\nc\n" "x\nb\nc\n" "y\nb\nc\n" ≡ conflict
unfolding merge_text3
merge_clash = refl

split_three : split_lines "a\r\nb\rc" ≡ "a\r\n" ∷ "b\r" ∷ "c" ∷ []
unfolding split_lines
split_three = refl

-- A paragraph of which nothing changed is cut at its line separator: the merge lacks the words before.
merge_cuts_separator :
    merge_text3 "a\nkeep\u{2028}this\nc\n" "x\nkeep\u{2028}this\nc\n" "a\nkeep\u{2028}this\nd\n"
    ≡ clean "x\nthis\nd\n"
unfolding merge_text3
merge_cuts_separator = refl

join-split_lines_example :
    (join (split_lines "a\r\nb\nc") ≡ "a\r\nb\nc") ↔ (has_separator "a\r\nb\nc" ≡ false)
join-split_lines_example = join-split_lines "a\r\nb\nc"

abbrev three : List String
three = "a\n" ∷ "b\n" ∷ "c\n" ∷ []

abbrev changed : List String
changed = "a\n" ∷ "x\n" ∷ "c\n" ∷ "y\n" ∷ []

merge_replacements-diff_replacements_example :
    merge_replacements three (diff_replacements three changed) [] ≡ some changed
merge_replacements-diff_replacements_example = merge_replacements-diff_replacements three changed

abbrev common : List String
common = "a\n" ∷ "c\n" ∷ []

diff_replacements-least_example :
    removed_lines (diff_replacements three changed) + length common ≤ length three
diff_replacements-least_example =
    diff_replacements-least three changed common
      (pair "a\n" "a\n" refl (left "b\n" (right "x\n" (pair "c\n" "c\n" refl done))))

needs_lines : NeedsLines "a\nb\nc\n" "x\nb\nc\n" "y\nb\nc\n"
unfolding split_lines exceeds_lcs_budget
needs_lines = record {
  sides_differ = λ h. false≢true ((eq_iff "x\nb\nc\n" "y\nb\nc\n").1 h);
  local_changed = λ h. false≢true ((eq_iff "a\nb\nc\n" "x\nb\nc\n").1 h);
  remote_changed = λ h. false≢true ((eq_iff "a\nb\nc\n" "y\nb\nc\n").1 h);
  local_fits = refl;
  remote_fits = refl;
}

merge_text3-conflict_example :
    (merge_text3 "a\nb\nc\n" "x\nb\nc\n" "y\nb\nc\n" ≡ conflict)
    ↔ HasClash
        (diff_replacements (split_lines "a\nb\nc\n") (split_lines "x\nb\nc\n"))
        (diff_replacements (split_lines "a\nb\nc\n") (split_lines "y\nb\nc\n"))
merge_text3-conflict_example = merge_text3-conflict "a\nb\nc\n" "x\nb\nc\n" "y\nb\nc\n" needs_lines

merge_text3_comm_example :
    merge_text3 "a\nb\nc\n" "x\nb\nc\n" "a\nb\nd\n"
    ≡ merge_text3 "a\nb\nc\n" "a\nb\nd\n" "x\nb\nc\n"
merge_text3_comm_example = merge_text3_comm "a\nb\nc\n" "x\nb\nc\n" "a\nb\nd\n"
