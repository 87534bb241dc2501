-- ===== src/Storage/Table.antt =====
-- The SQL statements that the stores issue, over any table: a WHERE clause is a Boolean test.
use synch.Common.{
  ◌≡◌, refl, Bool, true, false, not, none, some, List, [], ◌∷◌, ◌++◌, arith, if◌then◌else◌, inl,
  inr, Bool-cases, select, any, find?, All, All-append,
}

module _ {ℓ} {A : Type ℓ} where
  -- UPDATE … SET f WHERE p
  unfoldable pub update_where : (A → Bool) → (A → A) → List A → List A
  update_where p f [] = []
  update_where p f (x ∷ xs) = (if p x then f x else x) ∷ update_where p f xs

  -- DELETE … WHERE p; the rows that go are `select p`.
  unfoldable pub delete_where : (A → Bool) → List A → List A
  delete_where p xs = select (λ x. not (p x)) xs

  -- INSERT … ON CONFLICT DO UPDATE SET f, where `p` picks the row with the new row's key.
  unfoldable pub upsert_where : (A → Bool) → A → (A → A) → List A → List A
  unfolding update_where
  upsert_where p new f xs = if any p xs then update_where p f xs else xs ++ new ∷ []

  pub All-update_where {κ} :
      (P : A → Type κ) (p : A → Bool) (f : A → A) (xs : List A)
      → ((x : A) → P x → p x ≡ true → P (f x))
      → All P xs
      → All P (update_where p f xs)
  unfolding update_where
  All-update_where P p f [] keep h = tt
  All-update_where P p f (x ∷ xs) keep h = elim (Bool-cases (p x)) [
    | inl e ↦ rw e (keep x h.0 e, All-update_where P p f xs keep h.1)
    | inr e ↦ rw e (h.0, All-update_where P p f xs keep h.1)
  ]

  pub All-upsert_where {κ} :
      (P : A → Type κ) (p : A → Bool) (new : A) (f : A → A) (xs : List A)
      → P new
      → ((x : A) → P x → p x ≡ true → P (f x))
      → All P xs
      → All P (upsert_where p new f xs)
  unfolding upsert_where
  All-upsert_where P p new f xs n keep h = elim (Bool-cases (any p xs)) [
    | inl e ↦ rw e (All-update_where P p f xs keep h)
    | inr e ↦ rw e (All-append P xs (new ∷ []) h (n, tt))
  ]

  pub find?-any : (p : A → Bool) (xs : List A) → find? p xs ≡ none → any p xs ≡ false
  unfolding find? any
  find?-any p [] h = refl
  find?-any p (x ∷ xs) h = ground (arith, find?-any p xs)

  pub any-find? :
      (p : A → Bool) (xs : List A) {x : A} → find? p xs ≡ some x → (any p xs ≡ true) × (p x ≡ true)
  unfolding find? any
  any-find? p [] h = cc
  any-find? p (y ∷ ys) {x} h = elim (Bool-cases (p y)) [
    | inl e ↦ ground (arith)
    | inr e ↦ ground (arith, any-find? p ys {x = x})
  ]

  pub find?-append :
      (p : A → Bool) (xs ys : List A) → find? p xs ≡ none → find? p (xs ++ ys) ≡ find? p ys
  unfolding find?
  find?-append p [] ys h = refl
  find?-append p (x ∷ xs) ys h = ground (arith, find?-append p xs ys)

  pub any-false-find? : (p : A → Bool) (xs : List A) → any p xs ≡ false → find? p xs ≡ none
  unfolding find? any
  any-false-find? p [] h = refl
  any-false-find? p (x ∷ xs) h = ground (arith, any-false-find? p xs)

  pub any-delete_where :
      (p q : A → Bool) (xs : List A) → any p xs ≡ false → any p (delete_where q xs) ≡ false
  unfolding any delete_where select
  any-delete_where p q [] h = refl
  any-delete_where p q (x ∷ xs) h = ground (arith, h, any-delete_where p q xs)

  -- What a DELETE picks is gone.
  pub any-delete_where_self : (p : A → Bool) (xs : List A) → any p (delete_where p xs) ≡ false
  unfolding any delete_where select
  any-delete_where_self p [] = refl
  any-delete_where_self p (x ∷ xs) = ground (arith, any-delete_where_self p xs)
