-- ===== src/Client/TextMerge/Slices.antt =====
-- Lines copied out of a list that is known from some place on.
use synch.Common.{
  ℕ, zero, suc, ◌+◌, ◌-◌, ◌≤◌, ◌≡◌, refl, ap, sym, ◌∙◌, String, List, [], ◌∷◌, ◌++◌, arith, length,
  take, drop, length-drop,
}
use synch.Client.TextMerge.{copy_unchanged}

module _ {ℓ} {A : Type ℓ} where
  drop-nil : (n : ℕ) → drop {A = A} n [] ≡ []
  drop-nil zero = refl
  drop-nil (suc n) = refl

  drop-drop : (i n : ℕ) (xs : List A) → drop (i + n) xs ≡ drop n (drop i xs)
  drop-drop zero n xs = ground arith
  drop-drop (suc i) n [] = drop-nil (suc i + n) ∙ sym (drop-nil n)
  drop-drop (suc i) n (x ∷ xs) =
      let later : suc i + n ≡ suc (i + n) = omega arith in rw later (drop-drop i n xs)

  -- The first of the lines that are left.
  pub drop-cons :
      (i : ℕ) (xs : List A) (x : A) (ys : List A)
      → drop i xs ≡ x ∷ ys
      → (suc i ≤ length xs) × (drop (i + 1) xs ≡ ys)
  drop-cons zero [] x ys h = absurd (ground arith)
  drop-cons zero (z ∷ zs) x ys h = ground arith
  drop-cons (suc i) [] x ys h = absurd (ground arith)
  drop-cons (suc i) (z ∷ zs) x ys h =
      let next = drop-cons i zs x ys h in
      let later : suc i + 1 ≡ suc (i + 1) = omega arith in (omega arith, rw later next.1)

  take-length-append : (xs ys : List A) → take (length xs) (xs ++ ys) ≡ xs
  take-length-append [] ys = refl
  take-length-append (x ∷ xs) ys = ap (λ l. x ∷ l) (take-length-append xs ys)

  drop-length-append : (xs ys : List A) → drop (length xs) (xs ++ ys) ≡ ys
  drop-length-append [] ys = refl
  drop-length-append (x ∷ xs) ys = drop-length-append xs ys

  take-length : (xs : List A) → take (length xs) xs ≡ xs
  take-length [] = refl
  take-length (x ∷ xs) = ap (λ l. x ∷ l) (take-length xs)

  -- What follows a known part is known too.
  pub drop-add :
      (i n : ℕ) (xs pre ys : List A) → drop i xs ≡ pre ++ ys → n ≡ i + length pre → drop n xs ≡ ys
  drop-add i n xs pre ys h e = rw (e, drop-drop, h) (drop-length-append pre ys)

  -- Of two ways to cut a list, the one that cuts later goes through the rest of the other.
  pub append-split :
      (pre rest kept more : List A)
      → pre ++ rest ≡ kept ++ more
      → length pre ≤ length kept
      → (mid : List A) × (kept ≡ pre ++ mid) × (rest ≡ mid ++ more)
  append-split [] rest kept more h le = (kept, refl, h)
  append-split (x ∷ pre) rest [] more h le = absurd (omega arith)
  append-split (x ∷ pre) rest (y ∷ kept) more h le =
      let (mid, p, q) = append-split pre rest kept more (ground arith) (omega arith) in
      (mid, ground arith, q)

  -- Cuts at one place are the same cut.
  pub append-cut :
      (xs ys zs ws : List A) → xs ++ ys ≡ zs ++ ws → length xs ≡ length zs → (xs ≡ zs) × (ys ≡ ws)
  append-cut [] ys [] ws h e = (refl, h)
  append-cut [] ys (z ∷ zs) ws h e = absurd (omega arith)
  append-cut (x ∷ xs) ys [] ws h e = absurd (omega arith)
  append-cut (x ∷ xs) ys (z ∷ zs) ws h e =
      let both = append-cut xs ys zs ws (ground arith) (omega arith) in (ground arith, both.1)

module _ (base : List String) where
  pub copy_unchanged-kept :
      (i j : ℕ) (kept more : List String)
      → drop i base ≡ kept ++ more
      → j ≡ i + length kept
      → copy_unchanged base i j ≡ kept
  unfolding copy_unchanged
  copy_unchanged-kept i j kept more h e =
      let size : j - i ≡ length kept = omega arith in rw (size, h) (take-length-append kept more)

  pub copy_unchanged-rest : (i : ℕ) → copy_unchanged base i (length base) ≡ drop i base
  unfolding copy_unchanged
  copy_unchanged-rest i = rw (← length-drop i base) (take-length (drop i base))
