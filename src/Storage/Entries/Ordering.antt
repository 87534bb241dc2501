-- ===== src/Storage/Entries/Ordering.antt =====
-- ORDER BY rearranges the rows that a statement selects: none is lost, and none comes twice.
use synch.Common.{
  ℕ, suc, ◌≤◌, ◌≡◌, refl, Bool, true, false, ◌||◌, List, [], ◌∷◌, arith, inl, inr, Bool-cases, any,
  length, take, zero, All, All-map,
}
use synch.Storage.Entries.{insert_row, order_by}

module _ {ℓ} {A : Type ℓ} (before : A → A → Bool) where
  any-insert_row :
      (q : A → Bool) (x : A) (ys : List A) → any q (insert_row before x ys) ≡ (q x || any q ys)
  unfolding any insert_row
  any-insert_row q x [] = refl
  any-insert_row q x (y ∷ ys) = ground (arith, any-insert_row q x ys)

  pub any-order_by : (q : A → Bool) (xs : List A) → any q (order_by before xs) ≡ any q xs
  unfolding any order_by
  any-order_by q [] = refl
  any-order_by q (x ∷ xs) =
      ground (arith, any-insert_row q x (order_by before xs), any-order_by q xs)

  length-insert_row : (x : A) (ys : List A) → length (insert_row before x ys) ≡ suc (length ys)
  unfolding insert_row
  length-insert_row x [] = refl
  length-insert_row x (y ∷ ys) = ground (arith, length-insert_row x ys)

  pub length-order_by : (xs : List A) → length (order_by before xs) ≡ length xs
  unfolding order_by
  length-order_by [] = refl
  length-order_by (x ∷ xs) =
      ground (arith, length-insert_row x (order_by before xs), length-order_by xs)

  pub All-insert_row {κ} :
      (P : A → Type κ) (x : A) (ys : List A) → P x → All P ys → All P (insert_row before x ys)
  unfolding insert_row
  All-insert_row P x [] p h = (p, tt)
  All-insert_row P x (y ∷ ys) p h = elim (Bool-cases (before x y)) [
    | inl e ↦ rw e (p, h)
    | inr e ↦ rw e (h.0, All-insert_row P x ys p h.1)
  ]

  pub All-order_by {κ} : (P : A → Type κ) (xs : List A) → All P xs → All P (order_by before xs)
  unfolding order_by
  All-order_by P [] h = tt
  All-order_by P (x ∷ xs) h = All-insert_row P x (order_by before xs) h.0 (All-order_by P xs h.1)

  All-insert_row-from {κ} :
      (P : A → Type κ) (x : A) (ys : List A) → All P (insert_row before x ys) → P x × All P ys
  unfolding insert_row
  All-insert_row-from P x [] h = (h.0, tt)
  All-insert_row-from P x (y ∷ ys) h = elim (Bool-cases (before x y)) [
    | inl e ↦ rw e at h
    | inr e ↦
        let h' : P y × All P (insert_row before x ys) = rw e at h in
        let (px, rest) = All-insert_row-from P x ys h'.1 in (px, (h'.0, rest))
  ]

  pub All-order_by-from {κ} : (P : A → Type κ) (xs : List A) → All P (order_by before xs) → All P xs
  unfolding order_by
  All-order_by-from P [] h = tt
  All-order_by-from P (x ∷ xs) h =
      let (px, rest) = All-insert_row-from P x (order_by before xs) h in
      (px, All-order_by-from P xs rest)

  -- The first of the ordered rows comes before all others.
  abbrev pub IsFirst {κ} : (A → A → Type κ) → List A → Type κ
  IsFirst R [] = Unit
  IsFirst R (x ∷ xs) = All (R x) (x ∷ xs)

  IsFirst-insert_row {κ} :
      (R : A → A → Type κ)
      → ((a : A) → R a a)
      → ((a b c : A) → R a b → R b c → R a c)
      → ((a b : A) → before a b ≡ true → R a b)
      → ((a b : A) → before a b ≡ false → R b a)
      → (x : A) (ys : List A) → IsFirst R ys
      → IsFirst R (insert_row before x ys)
  unfolding insert_row
  IsFirst-insert_row R rfl trans early late x [] h = (rfl x, tt)
  IsFirst-insert_row R rfl trans early late x (y ∷ ys) h = elim (Bool-cases (before x y)) [
    | inl e ↦ rw e (rfl x, All-map _ _ (y ∷ ys) (λ z r. trans x y z (early x y e) r) h)
    | inr e ↦ rw e (rfl y, All-insert_row (R y) x ys (late x y e) h.1)
  ]

  pub IsFirst-order_by {κ} :
      (R : A → A → Type κ)
      → ((a : A) → R a a)
      → ((a b c : A) → R a b → R b c → R a c)
      → ((a b : A) → before a b ≡ true → R a b)
      → ((a b : A) → before a b ≡ false → R b a)
      → (xs : List A) → IsFirst R (order_by before xs)
  unfolding order_by
  IsFirst-order_by R rfl trans early late [] = tt
  IsFirst-order_by R rfl trans early late (x ∷ xs) =
      IsFirst-insert_row R rfl trans early late x (order_by before xs)
        (IsFirst-order_by R rfl trans early late xs)

pub take-all {ℓ} : {A : Type ℓ} (n : ℕ) (xs : List A) → length xs ≤ n → take n xs ≡ xs
take-all zero [] h = refl
take-all zero (x ∷ xs) h = absurd (omega arith)
take-all (suc n) [] h = refl
take-all (suc n) (x ∷ xs) h = rw (take-all n xs (omega arith)) refl
