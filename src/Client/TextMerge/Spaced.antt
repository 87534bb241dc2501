-- ===== src/Client/TextMerge/Spaced.antt =====
-- The replacements of a diff stand in order, with a line that both texts have between any two.
use synch.Common.{
  ℕ, ◌+◌, ◌≤◌, ◌<◌, ◌≡◌, refl, sym, subst, inl, inr, String, Option, none, some, List, [], ◌∷◌,
  arith, All,
}
use synch.Client.TextMerge.{
  Replacement, ensure_current, flush, remove_line, push_line, diff_loop, diff_replacements,
}
use synch.Client.TextMerge.Described.{
  equal, removed, pushed, diff_loop-step, EndsAt, remove_line-EndsAt, push_line-EndsAt,
}
use synch.Client.TextMerge.Takes.{StartsFrom}
use synch.Client.TextMerge.Turns.{IsRange, In}

abbrev pub Beyond : ℕ → List Replacement → Type 0
Beyond n [] = Unit {0}
Beyond n (r ∷ rs) = n < r.start

abbrev pub Apart : List Replacement → Type 0
Apart [] = Unit {0}
Apart (r ∷ rs) = IsRange r × Beyond r.end rs × Apart rs

pub Apart-IsRange : (rs : List Replacement) → Apart rs → All IsRange rs
Apart-IsRange [] h = tt
Apart-IsRange (r ∷ rs) h = (h.0, Apart-IsRange rs h.2)

pub Beyond-In :
    (n : ℕ) (x : Replacement) (rs : List Replacement)
    → Beyond n rs
    → Apart rs
    → In x rs
    → n < x.start
Beyond-In n x [] b h m = absurd m
Beyond-In n x (r ∷ rs) b h (inl e) = rw e b
Beyond-In n x (r ∷ rs) b h (inr m) = omega (arith, Beyond-In r.end x rs h.1 h.2 m)

abbrev first_line : ℕ → Option Replacement → ℕ
first_line i none = i
first_line i (some r) = r.start

abbrev Spaced : ℕ → Option Replacement → List Replacement → Type 0
Spaced i current rs = Apart rs × StartsFrom (first_line i current) rs

StartsFrom-le : (m n : ℕ) (rs : List Replacement) → m ≤ n → StartsFrom n rs → StartsFrom m rs
StartsFrom-le m n [] h st = tt
StartsFrom-le m n (r ∷ rs) h st = omega arith

Spaced-flush :
    (i : ℕ) (current : Option Replacement) (rs : List Replacement)
    → EndsAt i current
    → Spaced (i + 1) none rs
    → Spaced i current (flush current rs)
unfolding flush
Spaced-flush i none rs e h = (h.0, StartsFrom-le i (i + 1) rs (omega arith) h.1)
Spaced-flush i (some r) [] e h = ((omega arith, tt, tt), omega arith)
Spaced-flush i (some r) (x ∷ rs) e h = ((omega arith, omega arith, h.0), omega arith)

remove_line-first :
    (i : ℕ) (current : Option Replacement) → (remove_line i current).start ≡ first_line i current
unfolding remove_line ensure_current
remove_line-first i none = refl
remove_line-first i (some r) = refl

push_line-first :
    (v : String) (i : ℕ) (current : Option Replacement)
    → (push_line v i current).start ≡ first_line i current
unfolding push_line ensure_current
push_line-first v i none = refl
push_line-first v i (some r) = refl

Spaced-nil :
    (i : ℕ) (current : Option Replacement) → EndsAt i current → Spaced i current (flush current [])
Spaced-nil i current e = Spaced-flush i current [] e (tt, tt)

module _ (lcs : List (List ℕ)) where
  diff_loop-Spaced :
      (i j : ℕ) (base variant : List String) (current : Option Replacement)
      → EndsAt i current
      → Spaced i current (diff_loop lcs i j base variant current)
  unfolding diff_loop
  diff_loop-Spaced i j [] [] current e = Spaced-nil i current e
  diff_loop-Spaced i j (b ∷ bs) [] current e =
      let g =
        diff_loop-Spaced (i + 1) j bs [] (some (remove_line i current))
          (remove_line-EndsAt i current e) in
      rw (← remove_line-first i current) g
  diff_loop-Spaced i j [] (v ∷ vs) current e =
      let g =
        diff_loop-Spaced i (j + 1) [] vs (some (push_line v i current))
          (push_line-EndsAt v i current e) in
      rw (← push_line-first v i current) g
  diff_loop-Spaced i j (b ∷ bs) (v ∷ vs) current e =
      elim (diff_loop-step lcs i j b v bs vs current) [
        | equal p q ↦
            rw q (Spaced-flush i current _ e (diff_loop-Spaced (i + 1) (j + 1) bs vs none tt))
        | removed n c q ↦ subst (Spaced i current) (sym q) (
            rw (← remove_line-first i current) (
              diff_loop-Spaced (i + 1) j bs (v ∷ vs) (some (remove_line i current))
                (remove_line-EndsAt i current e)))
        | pushed n c q ↦ subst (Spaced i current) (sym q) (
            rw (← push_line-first v i current) (
              diff_loop-Spaced i (j + 1) (b ∷ bs) vs (some (push_line v i current))
                (push_line-EndsAt v i current e)))
      ]

pub diff_replacements-Apart : (base variant : List String) → Apart (diff_replacements base variant)
unfolding diff_replacements
diff_replacements-Apart base variant = (diff_loop-Spaced _ 0 0 base variant none tt).0
