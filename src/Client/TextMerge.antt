-- ===== src/Client/TextMerge.antt =====
-- The three-way merge of texts, packages/sync-client/src/sync/engine/text-merge.ts. The loops over
-- lines are recursion on the lines that are left, with the indexes that the source counts.
pub mod Examples
pub mod Chunks
pub mod Conflicts
pub mod Described
pub mod Least
pub mod Lines
pub mod Longest
pub mod Merges
pub mod Patch
pub mod Rounds
pub mod Slices
pub mod Spaced
pub mod Symmetric
pub mod Takes
pub mod ThreeWay
pub mod Turns
use Prim.Native.Char.{Char, code}
use Prim.Native.Nat.{max}
use Prim.Native.String.{◌++◌ as ◌<>◌}
use text.Mathlib.Text.{starts_with}
use synch.Common.{
  ℕ, zero, suc, ◌+◌, ◌*◌, ◌-◌, String, Bool, true, false, not, ◌&&◌, ◌||◌, Option, none, some, List,
  [], ◌∷◌, ◌++◌, ◌==◌, ltb, leb, eqb, if◌then◌else◌, length, take, drop, get_elem?, or_else,
}

pub data TextMergeResult : Type 0 where
  clean : String → TextMergeResult
  conflict : TextMergeResult

pub record Replacement : Type 0 where
  pub start : ℕ
  pub end : ℕ
  pub lines : List String

-- U+2028 and U+2029, at which `.` stops and after which no alternative of the regular expression
-- matches.
pub is_separator : Char → Bool
is_separator c = eqb (code c) 0x2028 || eqb (code c) 0x2029

-- `\r\n|\n|\r` ends here: at a line feed, or at a carriage return with no line feed behind it.
pub ends_line : Char → String → Bool
ends_line c rest = eqb (code c) 10 || (eqb (code c) 13 && not (starts_with rest "\n"))

-- The matches of `/.*(?:\r\n|\n|\r|$)/g` from a place on, with the part of the line that is read. A run
-- that a separator cuts off is in no match, so the next match begins behind the separator. The empty
-- match at the end is the one that `pop` takes away.
pub scan : String → String → List String
scan line String.[] = if line == "" then [] else line ∷ []
scan line (String.◌∷◌ c s) =
    let longer = line <> String.◌∷◌ c String.[] in
    elim (ends_line c s) [
      | true ↦ longer ∷ scan "" s
      | false ↦ elim (is_separator c) [ true ↦ scan "" s | false ↦ scan longer s ]
    ]

unfoldable pub split_lines : String → List String
unfolding scan is_separator ends_line
split_lines text = scan "" text

-- `lines.join("")`
pub join : List String → String
join [] = ""
join (line ∷ lines) = line <> join lines

pub max_lcs_cells : ℕ
max_lcs_cells = 2000000

pub exceeds_lcs_budget : List String → List String → Bool
unfolding max_lcs_cells
exceeds_lcs_budget left right = ltb max_lcs_cells ((length left + 1) * (length right + 1))

-- A row of the table, filled from its right end, over the row below it.
pub lcs_row : String → List String → List ℕ → List ℕ
lcs_row x [] below = 0 ∷ []
lcs_row x (y ∷ ys) below =
    let row = lcs_row x ys (drop 1 below) in
    (if x == y
      then or_else (get_elem? below 1) 0 + 1
      else max (or_else (get_elem? below 0) 0) (or_else (get_elem? row 0) 0))
    ∷ row

pub zeros : List String → List ℕ
zeros [] = 0 ∷ []
zeros (y ∷ ys) = 0 ∷ zeros ys

-- The table, filled from its last row.
pub create_lcs_table : List String → List String → List (List ℕ)
unfolding lcs_row zeros
create_lcs_table [] right = zeros right ∷ []
create_lcs_table (x ∷ left) right =
    let below = create_lcs_table left right in
    lcs_row x right (or_else (get_elem? below 0) []) ∷ below

pub cell : List (List ℕ) → ℕ → ℕ → ℕ
cell lcs i j = or_else (get_elem? (or_else (get_elem? lcs i) []) j) 0

-- `current ??= …`
pub ensure_current : ℕ → Option Replacement → Replacement
ensure_current i none = record { start = i; end = i; lines = [] }
ensure_current i (some r) = r

pub flush : Option Replacement → List Replacement → List Replacement
flush none later = later
flush (some r) later = r ∷ later

-- A line of the base that goes, and a line of the variant that comes.
pub remove_line : ℕ → Option Replacement → Replacement
unfolding ensure_current
remove_line i current = record (ensure_current i current) { end = i + 1 }

pub push_line : String → ℕ → Option Replacement → Replacement
unfolding ensure_current
push_line line i current =
    let r = ensure_current i current in record r { lines = r.lines ++ line ∷ [] }

module _ (lcs : List (List ℕ)) where
  pub diff_loop : ℕ → ℕ → List String → List String → Option Replacement → List Replacement
  unfolding cell flush remove_line push_line
  diff_loop i j [] [] current = flush current []
  diff_loop i j (b ∷ bs) [] current = diff_loop (i + 1) j bs [] (some (remove_line i current))
  diff_loop i j [] (v ∷ vs) current = diff_loop i (j + 1) [] vs (some (push_line v i current))
  diff_loop i j (b ∷ bs) (v ∷ vs) current = elim (b == v) [
    | true ↦ flush current (diff_loop (i + 1) (j + 1) bs vs none)
    | false ↦ elim (leb (cell lcs i (j + 1)) (cell lcs (i + 1) j)) [
      | true ↦ diff_loop (i + 1) j bs (v ∷ vs) (some (remove_line i current))
      | false ↦ diff_loop i (j + 1) (b ∷ bs) vs (some (push_line v i current))
    ]
  ]

unfoldable pub diff_replacements : List String → List String → List Replacement
unfolding create_lcs_table diff_loop
diff_replacements base variant = diff_loop (create_lcs_table base variant) 0 0 base variant none

pub same_range : Replacement → Replacement → Bool
same_range left right = eqb left.start right.start && eqb left.end right.end

-- Equal lengths, and the same line at each index.
pub same_lines : List String → List String → Bool
same_lines [] [] = true
same_lines [] (y ∷ ys) = false
same_lines (x ∷ xs) [] = false
same_lines (x ∷ xs) (y ∷ ys) = x == y && same_lines xs ys

pub ranges_overlap : Replacement → Replacement → Bool
ranges_overlap left right = ltb left.start right.end && ltb right.start left.end

pub conflicts_at_same_insertion_point : Replacement → Replacement → Bool
unfolding same_lines
conflicts_at_same_insertion_point left right =
    eqb left.start left.end
    && eqb right.start right.end
    && eqb left.start right.start
    && not (same_lines left.lines right.lines)

-- What the two changes at the head of the lists allow.
pub data Turn : Type 0 where
  both : Turn
  local_first : Turn
  remote_first : Turn
  clash : Turn

pub turn : Replacement → Replacement → Turn
unfolding same_range ranges_overlap conflicts_at_same_insertion_point
turn local remote =
    if same_range local remote
    then (if same_lines local.lines remote.lines then both else clash)
    else if conflicts_at_same_insertion_point local remote
    then clash
    else if ranges_overlap local remote
    then clash
    else if leb local.end remote.start
    then local_first
    else if leb remote.end local.start
    then remote_first
    else clash

module _ (base : List String) where
  -- The lines that `copyUnchanged(to)` pushes.
  pub copy_unchanged : ℕ → ℕ → List String
  copy_unchanged from to = take (to - from) (drop from base)

  pub apply_replacement : ℕ → List String → Replacement → List String
  unfolding copy_unchanged
  apply_replacement i output r = output ++ (copy_unchanged i r.start ++ r.lines)

  pub merge_loop : ℕ → List String → List Replacement → List Replacement → Option (List String)
  unfolding apply_replacement turn
  merge_loop i output [] [] = some (output ++ copy_unchanged i (length base))
  merge_loop i output (l ∷ ls) [] = merge_loop l.end (apply_replacement i output l) ls []
  merge_loop i output [] (r ∷ rs) = merge_loop r.end (apply_replacement i output r) [] rs
  merge_loop i output (l ∷ ls) (r ∷ rs) = elim (turn l r) [
    | both ↦ merge_loop l.end (apply_replacement i output l) ls rs
    | local_first ↦ merge_loop l.end (apply_replacement i output l) ls (r ∷ rs)
    | remote_first ↦ merge_loop r.end (apply_replacement i output r) (l ∷ ls) rs
    | clash ↦ none
  ]

  unfoldable pub merge_replacements : List Replacement → List Replacement → Option (List String)
  unfolding merge_loop
  merge_replacements local_changes remote_changes = merge_loop 0 [] local_changes remote_changes

pub merge_result : Option (List String) → TextMergeResult
unfolding join
merge_result none = conflict
merge_result (some lines) = clean (join lines)

pub merge_lines : List String → List String → List String → TextMergeResult
unfolding exceeds_lcs_budget diff_replacements merge_replacements merge_result
merge_lines base local remote =
    if exceeds_lcs_budget base local || exceeds_lcs_budget base remote
    then conflict
    else merge_result
        (merge_replacements base (diff_replacements base local) (diff_replacements base remote))

unfoldable pub merge_text3 : String → String → String → TextMergeResult
unfolding split_lines merge_lines
merge_text3 base local remote =
    if local == remote
    then clean local
    else if base == local
    then clean remote
    else if base == remote
    then clean local
    else merge_lines (split_lines base) (split_lines local) (split_lines remote)
