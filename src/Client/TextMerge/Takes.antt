-- ===== src/Client/TextMerge/Takes.antt =====
-- How the next change of a merge is taken: the change of one side, while the other side keeps the
-- lines up to its end, or the same change of both sides.
use mathlib.Core.List.{append_assoc}
use synch.Common.{
  ℕ, ◌+◌, ◌≤◌, ◌≡◌, refl, ap, sym, ◌∙◌, String, List, [], ◌∷◌, ◌++◌, arith, length, length-append,
  drop,
}
use synch.Client.TextMerge.{Replacement, apply_replacement}
use synch.Client.TextMerge.Described.{Describes, same, change}
use synch.Client.TextMerge.Merges.{Merges, Merges-local, Merges-remote, Merges-agreed}
use synch.Client.TextMerge.Slices.{drop-add, append-split, copy_unchanged-kept}

abbrev pub StartsFrom : ℕ → List Replacement → Type 0
StartsFrom n [] = Unit {0}
StartsFrom n (r ∷ rs) = n ≤ r.start

-- Lines of the base before the first change are in the variant.
Describes-skip :
    {i : ℕ} {base variant : List String} {rs : List Replacement} (pre rest : List String) (n : ℕ)
    → base ≡ pre ++ rest
    → n ≡ i + length pre
    → StartsFrom n rs
    → Describes i base variant rs
    → (variant' : List String) × (variant ≡ pre ++ variant') × Describes n rest variant' rs
Describes-skip pre rest n e at st (same p) = (rest, sym p ∙ e, same refl)
Describes-skip {i} pre rest n e at st (change r lead old base' variant' p q s t d) =
    let (mid, u, v) = append-split pre rest lead (old ++ base') (sym e ∙ p) (omega arith) in
    (
      mid ++ (r.lines ++ variant'),
      q ∙ rw (u, append_assoc pre mid (r.lines ++ variant')) refl,
      change r mid old base' variant' v refl
          (omega (arith, ap (λ (l : List String). length l) u, length-append pre mid)) t d,
    )

module _ (base : List String) (i : ℕ) (output : List String) (r : Replacement)
    (lead old rest base' : List String) (here : drop i base ≡ rest)
    (splits : rest ≡ lead ++ (old ++ base')) (starts : r.start ≡ i + length lead)
    (ends : r.end ≡ r.start + length old) where
  pub applied : apply_replacement base i output r ≡ output ++ (lead ++ r.lines)
  unfolding apply_replacement
  applied = rw (copy_unchanged-kept base i r.start lead (old ++ base') (here ∙ splits) starts) refl

  pub there : drop r.end base ≡ base'
  there =
      drop-add i r.end base (lead ++ old) base' (here ∙ splits ∙ sym (append_assoc lead old base'))
        (omega (arith, length-append lead old))

  skipped :
      (other : List String) (os : List Replacement)
      → StartsFrom r.end os
      → Describes i rest other os
      → (other' : List String) × (other ≡ lead ++ (old ++ other')) × Describes r.end base' other' os
  skipped other os st d =
      let (other', u, d') =
        Describes-skip (lead ++ old) base' r.end (splits ∙ sym (append_assoc lead old base'))
          (omega (arith, length-append lead old)) st d in
      (other', u ∙ append_assoc lead old other', d')

  module _ {local remote merged : List String} {ls rs : List Replacement} where
    pub take_local :
        (local' : List String)
        → local ≡ lead ++ (r.lines ++ local')
        → Describes i rest remote rs
        → StartsFrom r.end rs
        → ((remote' : List String)
            → drop r.end base ≡ base'
            → Describes r.end base' remote' rs
            → Merges r.end base' local' remote' ls rs (apply_replacement base i output r) merged)
        → Merges i rest local remote (r ∷ ls) rs output merged
    take_local local' e d st next =
        let (remote', u, d') = skipped remote rs st d in
        let laid = rw applied at (next remote' there d') in
        rw (splits, e, u) (Merges-local i r lead old starts ends laid)

    pub take_remote :
        (remote' : List String)
        → remote ≡ lead ++ (r.lines ++ remote')
        → Describes i rest local ls
        → StartsFrom r.end ls
        → ((local' : List String)
            → drop r.end base ≡ base'
            → Describes r.end base' local' ls
            → Merges r.end base' local' remote' ls rs (apply_replacement base i output r) merged)
        → Merges i rest local remote ls (r ∷ rs) output merged
    take_remote remote' e d st next =
        let (local', u, d') = skipped local ls st d in
        let laid = rw applied at (next local' there d') in
        rw (splits, u, e) (Merges-remote i r lead old starts ends laid)

    pub take_agreed :
        (local' remote' : List String)
        → local ≡ lead ++ (r.lines ++ local')
        → remote ≡ lead ++ (r.lines ++ remote')
        → (drop r.end base ≡ base'
            → Merges r.end base' local' remote' ls rs (apply_replacement base i output r) merged)
        → Merges i rest local remote (r ∷ ls) (r ∷ rs) output merged
    take_agreed local' remote' e e' next =
        let laid = rw applied at (next there) in
        rw (splits, e, e') (Merges-agreed i r lead old starts ends laid)
