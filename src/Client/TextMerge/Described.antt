-- ===== src/Client/TextMerge/Described.antt =====
-- What a list of replacements says: which lines a variant keeps of the base, and which it has instead of
-- the others. The replacements that `diffReplacements` makes say how the variant comes from the base.
use mathlib.Core.List.{append_assoc, append-nil}
use synch.Common.{
  ℕ, ◌+◌, ◌≤◌, ◌≡◌, refl, ap, sym, subst, ◌≢◌, ◌∙◌, String, Bool-cases, Option, none, some, List,
  [], ◌∷◌, ◌++◌, ◌==◌, eq_iff, arith, leb, length, inl, inr,
}
use synch.Client.TextMerge.{
  Replacement, cell, ensure_current, flush, remove_line, push_line, diff_loop, diff_replacements,
}

-- The base from line `i` on becomes the variant when the lines from `start` to `end` of each replacement
-- give way to its own lines, and all other lines stay.
pub data Describes : ℕ → List String → List String → List Replacement → Type 0 where
  same : {i : ℕ} {base variant : List String} → base ≡ variant → Describes i base variant []
  change :
      {i : ℕ} {base variant : List String} {rs : List Replacement} (r : Replacement)
      (kept old base' variant' : List String)
      → base ≡ kept ++ (old ++ base')
      → variant ≡ kept ++ (r.lines ++ variant')
      → r.start ≡ i + length kept
      → r.end ≡ r.start + length old
      → Describes r.end base' variant' rs
      → Describes i base variant (r ∷ rs)

-- A line that both have comes before.
keep_line :
    {i : ℕ} {bs vs : List String} {rs : List Replacement} (b v : String)
    → b ≡ v
    → Describes (i + 1) bs vs rs
    → Describes i (b ∷ bs) (v ∷ vs) rs
keep_line b v e (same p) = same (cc)
keep_line b v e (change r kept old base' variant' p q s t d) =
    change r (b ∷ kept) old base' variant' (ap (λ l. b ∷ l) p) (cc) (omega arith) t d

-- The replacements that a loop gives which has begun the replacement `r` before line `i`.
record Grows (i : ℕ) (base variant : List String) (r : Replacement) (rs : List Replacement)
    : Type 0 where
  old : List String
  new : List String
  base' : List String
  variant' : List String
  later : List Replacement
  grown : Replacement
  splits_base : base ≡ old ++ base'
  splits_variant : variant ≡ new ++ variant'
  is_grown : rs ≡ grown ∷ later
  same_start : grown.start ≡ r.start
  same_end : grown.end ≡ i + length old
  longer : grown.lines ≡ r.lines ++ new
  rest : Describes grown.end base' variant' later

abbrev Continues : Option Replacement → ℕ → List String → List String → List Replacement → Type 0
Continues none i base variant rs = Describes i base variant rs
Continues (some r) i base variant rs = Grows i base variant r rs

-- The open replacement reaches up to line `i`.
abbrev pub EndsAt : ℕ → Option Replacement → Type 0
EndsAt i none = Unit {0}
EndsAt i (some r) = (r.end ≡ i) × (r.start ≤ i)

Continues-flush :
    (current : Option Replacement) {i : ℕ} {base variant : List String} {rs : List Replacement}
    → EndsAt i current
    → Describes i base variant rs
    → Continues current i base variant (flush current rs)
unfolding flush
Continues-flush none e d = d
Continues-flush (some r) {i} {base} {variant} {rs} e d = record {
  old = [];
  new = [];
  base' = base;
  variant' = variant;
  later = rs;
  grown = r;
  splits_base = refl;
  splits_variant = refl;
  is_grown = refl;
  same_start = refl;
  same_end = omega arith;
  longer = sym (append-nil r.lines);
  rest = rw e.0 d;
}

Continues-remove :
    (i : ℕ) (current : Option Replacement) (b : String) {bs variant : List String}
    {rs : List Replacement}
    → Grows (i + 1) bs variant (remove_line i current) rs
    → Continues current i (b ∷ bs) variant rs
unfolding remove_line ensure_current
Continues-remove i none b g = rw g.is_grown (
    change g.grown [] (b ∷ g.old) g.base' g.variant' (ap (λ l. b ∷ l) g.splits_base)
      (g.splits_variant ∙ ap (λ l. l ++ g.variant') (sym g.longer)) (g.same_start ∙ omega arith)
      (ground (arith, g.same_start, g.same_end)) g.rest)
Continues-remove i (some r) b g = record {
  old = b ∷ g.old;
  new = g.new;
  base' = g.base';
  variant' = g.variant';
  later = g.later;
  grown = g.grown;
  splits_base = ap (λ l. b ∷ l) g.splits_base;
  splits_variant = g.splits_variant;
  is_grown = g.is_grown;
  same_start = g.same_start;
  same_end = g.same_end ∙ omega arith;
  longer = g.longer;
  rest = g.rest;
}

Continues-push :
    (current : Option Replacement) (v : String) {i : ℕ} {base vs : List String}
    {rs : List Replacement}
    → Grows i base vs (push_line v i current) rs
    → Continues current i base (v ∷ vs) rs
unfolding push_line ensure_current
Continues-push none v g = rw g.is_grown (
    change g.grown [] g.old g.base' g.variant' g.splits_base
      (ap (λ l. v ∷ l) g.splits_variant ∙ ap (λ l. l ++ g.variant') (sym g.longer))
      (g.same_start ∙ omega arith) (ground (arith, g.same_start, g.same_end)) g.rest)
Continues-push (some r) v g = record {
  old = g.old;
  new = v ∷ g.new;
  base' = g.base';
  variant' = g.variant';
  later = g.later;
  grown = g.grown;
  splits_base = g.splits_base;
  splits_variant = ap (λ l. v ∷ l) g.splits_variant;
  is_grown = g.is_grown;
  same_start = g.same_start;
  same_end = g.same_end;
  longer = g.longer ∙ append_assoc r.lines (v ∷ []) g.new;
  rest = g.rest;
}

pub remove_line-EndsAt :
    (i : ℕ) (current : Option Replacement)
    → EndsAt i current
    → EndsAt (i + 1) (some (remove_line i current))
unfolding remove_line ensure_current
remove_line-EndsAt i none e = omega arith
remove_line-EndsAt i (some r) e = omega arith

pub push_line-EndsAt :
    (v : String) (i : ℕ) (current : Option Replacement)
    → EndsAt i current
    → EndsAt i (some (push_line v i current))
unfolding push_line ensure_current
push_line-EndsAt v i none e = omega arith
push_line-EndsAt v i (some r) e = e

module _ (lcs : List (List ℕ)) (i j : ℕ) (b v : String) (bs vs : List String)
    (current : Option Replacement) where
  -- What the loop does where both texts have a line left.
  pub data StepOf : List Replacement → Type 0 where
    equal :
        {rs : List Replacement}
        → b ≡ v
        → rs ≡ flush current (diff_loop lcs (i + 1) (j + 1) bs vs none)
        → StepOf rs
    removed :
        {rs : List Replacement}
        → b ≢ v
        → cell lcs i (j + 1) ≤ cell lcs (i + 1) j
        → rs ≡ diff_loop lcs (i + 1) j bs (v ∷ vs) (some (remove_line i current))
        → StepOf rs
    pushed :
        {rs : List Replacement}
        → b ≢ v
        → cell lcs (i + 1) j ≤ cell lcs i (j + 1)
        → rs ≡ diff_loop lcs i (j + 1) (b ∷ bs) vs (some (push_line v i current))
        → StepOf rs

  pub diff_loop-step : StepOf (diff_loop lcs i j (b ∷ bs) (v ∷ vs) current)
  unfolding diff_loop
  diff_loop-step = elim (Bool-cases (b == v)) [
    | inl alike ↦ equal ((eq_iff b v).0 alike) (ground arith)
    | inr other ↦
        let differs : b ≢ v = (λ e. cc ((eq_iff b v).1 e)) in
        elim (Bool-cases (leb (cell lcs i (j + 1)) (cell lcs (i + 1) j))) [
          | inl less ↦ removed differs (ground arith) (ground arith)
          | inr more ↦ pushed differs (ground arith) (ground arith)
        ]
  ]

module _ (lcs : List (List ℕ)) where
  diff_loop-Continues :
      (i j : ℕ) (base variant : List String) (current : Option Replacement)
      → EndsAt i current
      → Continues current i base variant (diff_loop lcs i j base variant current)
  unfolding diff_loop
  diff_loop-Continues i j [] [] current e = Continues-flush current e (same refl)
  diff_loop-Continues i j (b ∷ bs) [] current e = Continues-remove i current b (
      diff_loop-Continues (i + 1) j bs [] (some (remove_line i current))
        (remove_line-EndsAt i current e))
  diff_loop-Continues i j [] (v ∷ vs) current e = Continues-push current v (
      diff_loop-Continues i (j + 1) [] vs (some (push_line v i current))
        (push_line-EndsAt v i current e))
  diff_loop-Continues i j (b ∷ bs) (v ∷ vs) current e =
      elim (diff_loop-step lcs i j b v bs vs current) [
        | equal p q ↦ subst (Continues current i (b ∷ bs) (v ∷ vs)) (sym q) (
            Continues-flush current e
              (keep_line b v p (diff_loop-Continues (i + 1) (j + 1) bs vs none tt)))
        | removed n c q ↦ subst (Continues current i (b ∷ bs) (v ∷ vs)) (sym q) (
            Continues-remove i current b (
              diff_loop-Continues (i + 1) j bs (v ∷ vs) (some (remove_line i current))
                (remove_line-EndsAt i current e)))
        | pushed n c q ↦ subst (Continues current i (b ∷ bs) (v ∷ vs)) (sym q) (
            Continues-push current v (
              diff_loop-Continues i (j + 1) (b ∷ bs) vs (some (push_line v i current))
                (push_line-EndsAt v i current e)))
      ]

pub diff_replacements-Describes :
    (base variant : List String) → Describes 0 base variant (diff_replacements base variant)
unfolding diff_replacements
diff_replacements-Describes base variant = diff_loop-Continues _ 0 0 base variant none tt
