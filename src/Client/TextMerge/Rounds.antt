-- ===== src/Client/TextMerge/Rounds.antt =====
-- The rounds of the loop that merges two lists of changes.
use synch.Common.{ℕ, ◌≤◌, ◌≡◌, ◌≢◌, refl, String, Option, none, List, [], ◌∷◌}
use synch.Client.TextMerge.{
  Replacement, Turn, both, local_first, remote_first, clash, turn, apply_replacement, merge_loop,
}
use synch.Client.TextMerge.Turns.{TurnOf, turn-TurnOf, Clashes}

module _ (base : List String) where
  -- What the loop does where both sides have a change left.
  pub data LoopOf (i : ℕ) (output : List String) (l r : Replacement) (ls rs : List Replacement)
      : Option (List String) → Type 0 where
    takes_both :
        {result : Option (List String)}
        → l ≡ r
        → result ≡ merge_loop base l.end (apply_replacement base i output l) ls rs
        → LoopOf i output l r ls rs result
    takes_local :
        {result : Option (List String)}
        → l.end ≤ r.start
        → ¬ Clashes l r
        → result ≡ merge_loop base l.end (apply_replacement base i output l) ls (r ∷ rs)
        → LoopOf i output l r ls rs result
    takes_remote :
        {result : Option (List String)}
        → r.end ≤ l.start
        → ¬ Clashes l r
        → result ≡ merge_loop base r.end (apply_replacement base i output r) (l ∷ ls) rs
        → LoopOf i output l r ls rs result
    gives_up :
        {result : Option (List String)}
        → Clashes l r
        → result ≡ none
        → LoopOf i output l r ls rs result

  module _ (i : ℕ) (output : List String) (l r : Replacement) (ls rs : List Replacement) where
    abbrev pub by_turn : Turn → Option (List String)
    by_turn t = elim t [
      | both ↦ merge_loop base l.end (apply_replacement base i output l) ls rs
      | local_first ↦ merge_loop base l.end (apply_replacement base i output l) ls (r ∷ rs)
      | remote_first ↦ merge_loop base r.end (apply_replacement base i output r) (l ∷ ls) rs
      | clash ↦ none
    ]

    by_turn-LoopOf : (t : Turn) → TurnOf l r t → LoopOf i output l r ls rs (by_turn t)
    by_turn-LoopOf _ (TurnOf.takes_both e) = takes_both e refl
    by_turn-LoopOf _ (TurnOf.takes_local e n) = takes_local e n refl
    by_turn-LoopOf _ (TurnOf.takes_remote e n) = takes_remote e n refl
    by_turn-LoopOf _ (TurnOf.gives_up e) = gives_up e refl

    pub merge_loop-step :
        l.start ≤ l.end
        → r.start ≤ r.end
        → LoopOf i output l r ls rs (merge_loop base i output (l ∷ ls) (r ∷ rs))
    unfolding merge_loop
    merge_loop-step hl hr = by_turn-LoopOf (turn l r) (turn-TurnOf l r hl hr)

  pub merge_loop-turn :
      (i : ℕ) (output : List String) (l r : Replacement) (ls rs : List Replacement)
      → merge_loop base i output (l ∷ ls) (r ∷ rs) ≡ by_turn i output l r ls rs (turn l r)
  unfolding merge_loop
  merge_loop-turn i output l r ls rs = refl

  pub local_step :
      (i : ℕ) (output : List String) (l : Replacement) (ls : List Replacement)
      → merge_loop base i output (l ∷ ls) []
        ≡ merge_loop base l.end (apply_replacement base i output l) ls []
  unfolding merge_loop
  local_step i output l ls = refl

  pub remote_step :
      (i : ℕ) (output : List String) (r : Replacement) (rs : List Replacement)
      → merge_loop base i output [] (r ∷ rs)
        ≡ merge_loop base r.end (apply_replacement base i output r) [] rs
  unfolding merge_loop
  remote_step i output r rs = refl

  pub end_some : (i : ℕ) (output : List String) → merge_loop base i output [] [] ≢ none
  unfolding merge_loop
  end_some i output h = cc
