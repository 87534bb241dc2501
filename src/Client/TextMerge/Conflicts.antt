-- ===== src/Client/TextMerge/Conflicts.antt =====
-- When a merge gives up: exactly when a change of one side clashes with a change of the other.
use synch.Common.{
  ℕ, ◌≤◌, ◌<◌, ◌≡◌, ◌||◌, ◌==◌, eq_iff, Option-cases, false, ◌↔◌, ◌≢◌, refl, All, ap, sym, ◌∙◌, inl,
  inr, String, none, some, List, [], ◌∷◌, arith,
}
use synch.Client.TextMerge.{
  Replacement, apply_replacement, merge_loop, merge_replacements, conflict, split_lines,
  merge_result, merge_lines, merge_text3, exceeds_lcs_budget, diff_replacements,
}
use synch.Client.TextMerge.Turns.{Clashes, HasClash, IsRange, In}
use synch.Client.TextMerge.Spaced.{Apart, diff_replacements-Apart, Apart-IsRange, Beyond-In}
use synch.Client.TextMerge.Rounds.{
  takes_both, takes_local, takes_remote, gives_up, merge_loop-step, local_step, remote_step,
  end_some,
}

module _ {ls rs : List Replacement} where
  later_left : {l : Replacement} → HasClash ls rs → HasClash (l ∷ ls) rs
  later_left g = record {
    left = g.left;
    right = g.right;
    in_left = inr g.in_left;
    in_right = g.in_right;
    clashes = g.clashes;
  }

  later_right : {r : Replacement} → HasClash ls rs → HasClash ls (r ∷ rs)
  later_right g = record {
    left = g.left;
    right = g.right;
    in_left = g.in_left;
    in_right = inr g.in_right;
    clashes = g.clashes;
  }

-- A change that ends before another begins does not clash with it.
before-peace : (l r : Replacement) → IsRange l → l.end < r.start → ¬ Clashes l r
before-peace l r h b c = elim c.meet [ inl over ↦ ground arith | inr place ↦ ground arith ]

after-peace : (l r : Replacement) → IsRange r → r.end < l.start → ¬ Clashes l r
after-peace l r h b c = elim c.meet [ inl over ↦ ground arith | inr place ↦ ground arith ]

-- No change of one list clashes with a change of the other.
Peace : List Replacement → List Replacement → Type 0
Peace ls rs = (x y : Replacement) → In x ls → In y rs → ¬ Clashes x y

module _ (l r : Replacement) (ls rs : List Replacement) (hl : Apart (l ∷ ls))
    (hr : Apart (r ∷ rs)) where
  -- The later changes of one list are behind a change of the other that the first of them follows.
  beyond : l.end ≤ r.start → (y : Replacement) → In y rs → ¬ Clashes l y
  beyond h y m = before-peace l y hl.0 (omega (arith, Beyond-In r.end y rs hr.1 hr.2 m, hr.0))

  beyond_left : r.end ≤ l.start → (x : Replacement) → In x ls → ¬ Clashes x r
  beyond_left h x m = after-peace x r hr.0 (omega (arith, Beyond-In l.end x ls hl.1 hl.2 m, hl.0))

  Peace-local : l.end ≤ r.start → ¬ Clashes l r → Peace ls (r ∷ rs) → Peace (l ∷ ls) (r ∷ rs)
  unfolding Peace
  Peace-local h n p x y (inl e) (inl f) c = n (rw (← e, ← f) c)
  Peace-local h n p x y (inl e) (inr m) c = beyond h y m (rw (← e) c)
  Peace-local h n p x y (inr k) m c = p x y k m c

  Peace-remote : r.end ≤ l.start → ¬ Clashes l r → Peace (l ∷ ls) rs → Peace (l ∷ ls) (r ∷ rs)
  unfolding Peace
  Peace-remote h n p x y (inl e) (inl f) c = n (rw (← e, ← f) c)
  Peace-remote h n p x y (inr k) (inl f) c = beyond_left h x k (rw (← f) c)
  Peace-remote h n p x y m (inr k) c = p x y m k c

  Peace-both : l ≡ r → Peace ls rs → Peace (l ∷ ls) (r ∷ rs)
  unfolding Peace
  Peace-both alike p x y (inl e) (inl f) c = c.differ (e ∙ alike ∙ sym f)
  Peace-both alike p x y (inl e) (inr m) c =
      before-peace l y hl.0
        (omega (arith, Beyond-In r.end y rs hr.1 hr.2 m, ap (λ (z : Replacement). z.end) alike))
        (rw (← e) c)
  Peace-both alike p x y (inr k) (inl f) c =
      after-peace x r hr.0
        (omega (arith, Beyond-In l.end x ls hl.1 hl.2 k, ap (λ (z : Replacement). z.end) alike))
        (rw (← f) c)
  Peace-both alike p x y (inr k) (inr m) c = p x y k m c

module _ (base : List String) where
  -- A merge that gives up has come to changes of the two sides that clash.
  merge_loop-none :
      (i : ℕ) (output : List String) (ls rs : List Replacement)
      → All IsRange ls
      → All IsRange rs
      → merge_loop base i output ls rs ≡ none
      → HasClash ls rs
  merge_loop-none i output [] [] hl hr h = absurd (end_some base i output h)
  merge_loop-none i output (l ∷ ls) [] hl hr h =
      let g =
        merge_loop-none l.end (apply_replacement base i output l) ls [] hl.1 hr
          (sym (local_step base i output l ls) ∙ h) in
      later_left g
  merge_loop-none i output [] (r ∷ rs) hl hr h =
      let g =
        merge_loop-none r.end (apply_replacement base i output r) [] rs hl hr.1
          (sym (remote_step base i output r rs) ∙ h) in
      later_right g
  merge_loop-none i output (l ∷ ls) (r ∷ rs) hl hr h =
      elim (merge_loop-step base i output l r ls rs hl.0 hr.0) [
        | takes_both e f ↦
            let g =
              merge_loop-none l.end (apply_replacement base i output l) ls rs hl.1 hr.1
                (sym f ∙ h) in
            later_left (later_right g)
        | takes_local e n f ↦
            let g =
              merge_loop-none l.end (apply_replacement base i output l) ls (r ∷ rs) hl.1 hr
                (sym f ∙ h) in
            later_left g
        | takes_remote e n f ↦
            let g =
              merge_loop-none r.end (apply_replacement base i output r) (l ∷ ls) rs hl hr.1
                (sym f ∙ h) in
            later_right g
        | gives_up c f ↦ record {
          left = l;
          right = r;
          in_left = inl refl;
          in_right = inl refl;
          clashes = c;
        }
      ]

  -- A merge that comes to its end has met no changes that clash.
  merge_loop-some :
      (i : ℕ) (output : List String) (ls rs : List Replacement) {merged : List String}
      → Apart ls
      → Apart rs
      → merge_loop base i output ls rs ≡ some merged
      → Peace ls rs
  merge_loop-some i output [] rs hl hr h = unfold Peace in λ x y m k c. absurd m
  merge_loop-some i output (l ∷ ls) [] hl hr h = unfold Peace in λ x y m k c. absurd k
  merge_loop-some i output (l ∷ ls) (r ∷ rs) hl hr h =
      elim (merge_loop-step base i output l r ls rs hl.0 hr.0) [
        | takes_both e f ↦
            Peace-both l r ls rs hl hr e (
              merge_loop-some l.end (apply_replacement base i output l) ls rs hl.2 hr.2 (sym f ∙ h))
        | takes_local e n f ↦ Peace-local l r ls rs hl hr e n (
            merge_loop-some l.end (apply_replacement base i output l) ls (r ∷ rs) hl.2 hr
              (sym f ∙ h))
        | takes_remote e n f ↦ Peace-remote l r ls rs hl hr e n (
            merge_loop-some r.end (apply_replacement base i output r) (l ∷ ls) rs hl hr.2
              (sym f ∙ h))
        | gives_up c f ↦ cc
      ]

module _ (base local remote : List String) where
  merge_lines_conflict :
      exceeds_lcs_budget base local || exceeds_lcs_budget base remote ≡ false
      → (merge_lines base local remote ≡ conflict)
        ↔ HasClash (diff_replacements base local) (diff_replacements base remote)
  unfolding merge_lines merge_result merge_replacements Peace
  merge_lines_conflict within =
      elim (Option-cases
        (merge_loop base 0 [] (diff_replacements base local) (diff_replacements base remote))) [
          | inl e ↦ (
            λ h.
                merge_loop-none base 0 [] _ _ (Apart-IsRange _ (diff_replacements-Apart base local))
                  (Apart-IsRange _ (diff_replacements-Apart base remote)) e,
            λ c. ground arith,
          )
          | inr (m, e) ↦ (
            λ h. absurd (ground arith),
            λ c. absurd (
                merge_loop-some base 0 [] _ _ (diff_replacements-Apart base local)
                  (diff_replacements-Apart base remote) e c.left c.right c.in_left c.in_right
                  c.clashes),
          )
        ]

-- Three texts of which no two are the same, small enough for the table of common lines.
pub record NeedsLines (base local remote : String) : Type 0 where
  pub sides_differ : local ≢ remote
  pub local_changed : base ≢ local
  pub remote_changed : base ≢ remote
  pub local_fits : exceeds_lcs_budget (split_lines base) (split_lines local) ≡ false
  pub remote_fits : exceeds_lcs_budget (split_lines base) (split_lines remote) ≡ false

-- For texts that differ and that are within the budget of the table, the merge is a conflict exactly
-- when some change of the local diff clashes with some change of the remote diff: they are not the same
-- change, and they replace a line in common or insert at one place.
pub merge_text3-conflict :
    (base local remote : String)
    → NeedsLines base local remote
    → (merge_text3 base local remote ≡ conflict)
      ↔ HasClash
          (diff_replacements (split_lines base) (split_lines local))
          (diff_replacements (split_lines base) (split_lines remote))
unfolding merge_text3
merge_text3-conflict base local remote n =
    let p : (local == remote) ≡ false = ground (arith, eq_iff local remote, n.sides_differ) in
    let q : (base == local) ≡ false = ground (arith, eq_iff base local, n.local_changed) in
    let r : (base == remote) ≡ false = ground (arith, eq_iff base remote, n.remote_changed) in
    rw (p, q, r)
      (merge_lines_conflict (split_lines base) (split_lines local) (split_lines remote)
        (ground (arith, n.local_fits, n.remote_fits)))
