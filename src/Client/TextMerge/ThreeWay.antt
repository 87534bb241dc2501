-- ===== src/Client/TextMerge/ThreeWay.antt =====
-- What comes out of a merge of two lists of changes.
use mathlib.Core.List.{append-nil}
use synch.Common.{
  ℕ, ◌+◌, ◌≡◌, refl, ap, sym, subst, ◌∙◌, String, some, List, [], ◌∷◌, ◌++◌, arith, length, drop,
}
use synch.Client.TextMerge.{
  Replacement, apply_replacement, merge_loop, join, split_lines, diff_replacements,
}
use synch.Client.TextMerge.Described.{Describes, same, change}
use synch.Client.TextMerge.Chunks.{
  kept, base_chunk, local_chunk, remote_chunk, merged_chunk, spell, local_changes, remote_changes,
}
use synch.Client.TextMerge.Merges.{Merges}
use synch.Client.TextMerge.Slices.{append-cut, copy_unchanged-rest}
use synch.Client.TextMerge.Takes.{take_local, take_remote, take_agreed}
use synch.Client.TextMerge.Rounds.{
  takes_both, takes_local, takes_remote, gives_up, merge_loop-step, local_step, remote_step,
}

-- One change cuts the base at one place.
same_cut :
    (i : ℕ) (rest : List String) (l r : Replacement)
    (lead lead' old old' base' base'' : List String)
    → rest ≡ lead ++ (old ++ base')
    → rest ≡ lead' ++ (old' ++ base'')
    → l.start ≡ i + length lead
    → l.end ≡ l.start + length old
    → r.start ≡ i + length lead'
    → r.end ≡ r.start + length old'
    → l ≡ r
    → (lead ≡ lead') × (base' ≡ base'')
same_cut i rest l r lead lead' old old' base' base'' p p' s t s' t' e =
    let starts : l.start ≡ r.start = ap (λ (x : Replacement). x.start) e in
    let ends : l.end ≡ r.end = ap (λ (x : Replacement). x.end) e in
    let (a, b) = append-cut lead (old ++ base') lead' (old' ++ base'') (sym p ∙ p') (omega arith) in
    (a, (append-cut old base' old' base'' b (omega arith)).1)

module _ (base : List String) where
  Merges-end :
      (i : ℕ) (output rest local remote merged : List String)
      → drop i base ≡ rest
      → rest ≡ local
      → rest ≡ remote
      → merge_loop base i output [] [] ≡ some merged
      → Merges i rest local remote [] [] output merged
  unfolding merge_loop spell local_changes remote_changes base_chunk local_chunk remote_chunk
      merged_chunk
  Merges-end i output rest local remote merged here p q h = record {
    chunks = kept rest ∷ [];
    merged_side = ground (arith, copy_unchanged-rest base i, append-nil rest);
    base_side = append-nil rest;
    local_side = append-nil rest ∙ p;
    remote_side = append-nil rest ∙ q;
    local_listed = refl;
    remote_listed = refl;
  }

  pub merge_loop-Merges :
      (i : ℕ) (output rest local remote : List String) (ls rs : List Replacement)
      {merged : List String}
      → drop i base ≡ rest
      → Describes i rest local ls
      → Describes i rest remote rs
      → merge_loop base i output ls rs ≡ some merged
      → Merges i rest local remote ls rs output merged
  merge_loop-Merges i output rest local remote [] [] here (same p) (same q) h =
      Merges-end i output rest local remote _ here p q h
  merge_loop-Merges i output rest local remote (l ∷ ls) [] here
        (change _ lead old base' local' p q s t d) other h =
      take_local base i output l lead old rest base' here p s t local' q other tt (λ remote' at e.
        merge_loop-Merges l.end (apply_replacement base i output l) base' local' remote' ls [] at d
          e (sym (local_step base i output l ls) ∙ h))
  merge_loop-Merges i output rest local remote [] (r ∷ rs) here other
        (change _ lead old base' remote' p q s t d) h =
      take_remote base i output r lead old rest base' here p s t remote' q other tt (λ local' at e.
        merge_loop-Merges r.end (apply_replacement base i output r) base' local' remote' [] rs at e
          d (sym (remote_step base i output r rs) ∙ h))
  merge_loop-Merges i output rest local remote (l ∷ ls) (r ∷ rs) {merged} here
        (change _ lead old base' local' p q s t d)
        (change _ lead' old' base'' remote' p' q' s' t' d') h =
      elim (merge_loop-step base i output l r ls rs (omega arith) (omega arith)) [
        | takes_both e f ↦
            let cut = same_cut i rest l r lead lead' old old' base' base'' p p' s t s' t' e in
            subst (λ x. Merges i rest local remote (l ∷ ls) (x ∷ rs) output merged) e
              (take_agreed base i output l lead old rest base' here p s t local' remote' q
                (q' ∙ rw (cut.0, e) refl)
                (λ at.
                  merge_loop-Merges l.end (apply_replacement base i output l) base' local' remote'
                    ls rs at d (rw (cut.1, e) d') (sym f ∙ h)))
        | takes_local e n f ↦
            take_local base i output l lead old rest base' here p s t local' q
              (change r lead' old' base'' remote' p' q' s' t' d') e
              (λ next at e'.
                merge_loop-Merges l.end (apply_replacement base i output l) base' local' next ls
                  (r ∷ rs) at d e' (sym f ∙ h))
        | takes_remote e n f ↦
            take_remote base i output r lead' old' rest base'' here p' s' t' remote' q'
              (change l lead old base' local' p q s t d) e
              (λ next at e'.
                merge_loop-Merges r.end (apply_replacement base i output r) base'' next remote'
                  (l ∷ ls) rs at e' d' (sym f ∙ h))
        | gives_up e f ↦ cc
      ]

-- A merge by lines that is clean has a layout in chunks, with exactly the changes of the two diffs.
pub record LinesOf (base local remote : List String) (text : String) : Type 0 where
  pub lines : List String
  pub joined : text ≡ join lines
  pub laid :
      Merges 0 base local remote
        (diff_replacements base local)
        (diff_replacements base remote)
        []
        lines

-- What a clean merge is.
pub data MergeOf (base local remote text : String) : Type 0 where
  alike : local ≡ remote → text ≡ local → MergeOf base local remote text
  remote_only : base ≡ local → text ≡ remote → MergeOf base local remote text
  local_only : base ≡ remote → text ≡ local → MergeOf base local remote text
  by_lines :
      LinesOf (split_lines base) (split_lines local) (split_lines remote) text
      → MergeOf base local remote text
