-- ===== src/Client/TextMerge/Longest.antt =====
-- The table of common lines holds the lengths of the longest common subsequences, so that a diff takes
-- away as few lines as possible.
use synch.Common.{
  ℕ, zero, suc, ◌+◌, ◌≤◌, ◌≡◌, refl, ap, max, String, some, List, [], ◌∷◌, ◌==◌, eq_iff, arith,
  if◌then◌else◌, length, drop, get_elem?,
}
use synch.Client.TextMerge.{lcs_row, zeros, create_lcs_table, cell}

-- The lines `zs` stand in both lists in this order.
pub data IsCommon : List String → List String → List String → Type 0 where
  done : {xs ys : List String} → IsCommon [] xs ys
  pair :
      {zs xs ys : List String} (x y : String)
      → x ≡ y
      → IsCommon zs xs ys
      → IsCommon (x ∷ zs) (x ∷ xs) (y ∷ ys)
  left : {zs xs ys : List String} (x : String) → IsCommon zs xs ys → IsCommon zs (x ∷ xs) ys
  right : {zs xs ys : List String} (y : String) → IsCommon zs xs ys → IsCommon zs xs (y ∷ ys)

-- The length of a longest common subsequence.
pub lcs : List String → List String → ℕ
lcs [] ys = 0
lcs (x ∷ xs) [] = 0
lcs (x ∷ xs) (y ∷ ys) =
    let both = lcs xs ys in
    let less = max (lcs xs (y ∷ ys)) (lcs (x ∷ xs) ys) in if x == y then both + 1 else less

-- A line more makes it longer by one at most, and no shorter.
lcs_bounds :
    (xs ys : List String) (x y : String)
    → (lcs xs ys ≤ lcs (x ∷ xs) ys)
      × (lcs xs ys ≤ lcs xs (y ∷ ys))
      × (lcs (x ∷ xs) ys ≤ lcs xs ys + 1)
      × (lcs xs (y ∷ ys) ≤ lcs xs ys + 1)
unfolding lcs
lcs_bounds [] [] x y = omega arith
lcs_bounds [] (y' ∷ ys) x y = ground (arith, lcs_bounds [] ys x y')
lcs_bounds (x' ∷ xs) [] x y = ground (arith, lcs_bounds xs [] x' y)
lcs_bounds (x' ∷ xs) (y' ∷ ys) x y =
    ground (arith, lcs_bounds (x' ∷ xs) ys x y', lcs_bounds xs (y' ∷ ys) x' y)

pub lcs-cons :
    (x y : String) (xs ys : List String)
    → lcs (x ∷ xs) (y ∷ ys)
      ≡ (if x == y then lcs xs ys + 1 else max (lcs xs (y ∷ ys)) (lcs (x ∷ xs) ys))
unfolding lcs
lcs-cons x y xs ys = refl

pub lcs-nil : (xs : List String) → lcs xs [] ≡ 0
unfolding lcs
lcs-nil [] = refl
lcs-nil (x ∷ xs) = refl

pub lcs_of_nil : (ys : List String) → lcs [] ys ≡ 0
unfolding lcs
lcs_of_nil ys = refl

pub length-le-lcs : {zs xs ys : List String} → IsCommon zs xs ys → length zs ≤ lcs xs ys
length-le-lcs done = omega arith
length-le-lcs (pair {zs} {xs} {ys} x y e c) =
    ground (arith, lcs-cons x y xs ys, eq_iff x y, length-le-lcs c)
length-le-lcs (left {xs} {ys} x c) = omega (arith, length-le-lcs c, lcs_bounds xs ys x x)
length-le-lcs (right {xs} {ys} y c) = omega (arith, length-le-lcs c, lcs_bounds xs ys y y)

-- The lengths for a list and every end of another.
ends_row : List String → List String → List ℕ
ends_row xs [] = lcs xs [] ∷ []
ends_row xs (y ∷ ys) = lcs xs (y ∷ ys) ∷ ends_row xs ys

ends_row-head : (xs ys : List String) → get_elem? (ends_row xs ys) 0 ≡ some (lcs xs ys)
unfolding ends_row
ends_row-head xs [] = refl
ends_row-head xs (y ∷ ys) = refl

lcs_row-ends_row :
    (x : String) (xs ys : List String) → lcs_row x ys (ends_row xs ys) ≡ ends_row (x ∷ xs) ys
unfolding lcs_row ends_row
lcs_row-ends_row x xs [] = unfold lcs in refl
lcs_row-ends_row x xs (y ∷ ys) = ground (
  arith,
  lcs_row-ends_row x xs ys,
  ends_row-head xs ys,
  ends_row-head (x ∷ xs) ys,
  lcs-cons x y xs ys,
)

zeros-ends_row : (ys : List String) → zeros ys ≡ ends_row [] ys
unfolding zeros ends_row lcs
zeros-ends_row [] = refl
zeros-ends_row (y ∷ ys) = ap (λ row. 0 ∷ row) (zeros-ends_row ys)

ends_table : List String → List String → List (List ℕ)
ends_table [] ys = ends_row [] ys ∷ []
ends_table (x ∷ xs) ys = ends_row (x ∷ xs) ys ∷ ends_table xs ys

ends_table-head : (xs ys : List String) → get_elem? (ends_table xs ys) 0 ≡ some (ends_row xs ys)
unfolding ends_table
ends_table-head [] ys = refl
ends_table-head (x ∷ xs) ys = refl

create_lcs_table-ends_table : (xs ys : List String) → create_lcs_table xs ys ≡ ends_table xs ys
unfolding create_lcs_table ends_table
create_lcs_table-ends_table [] ys = ap (λ row. row ∷ []) (zeros-ends_row ys)
create_lcs_table-ends_table (x ∷ xs) ys =
    rw (create_lcs_table-ends_table xs ys, ends_table-head, lcs_row-ends_row) refl

get_elem?-ends_row :
    (xs ys : List String) (j : ℕ)
    → j ≤ length ys
    → get_elem? (ends_row xs ys) j ≡ some (lcs xs (drop j ys))
unfolding ends_row
get_elem?-ends_row xs [] zero h = refl
get_elem?-ends_row xs [] (suc j) h = absurd (omega arith)
get_elem?-ends_row xs (y ∷ ys) zero h = refl
get_elem?-ends_row xs (y ∷ ys) (suc j) h = get_elem?-ends_row xs ys j (omega arith)

get_elem?-ends_table :
    (xs ys : List String) (i : ℕ)
    → i ≤ length xs
    → get_elem? (ends_table xs ys) i ≡ some (ends_row (drop i xs) ys)
unfolding ends_table
get_elem?-ends_table [] ys zero h = refl
get_elem?-ends_table [] ys (suc i) h = absurd (omega arith)
get_elem?-ends_table (x ∷ xs) ys zero h = refl
get_elem?-ends_table (x ∷ xs) ys (suc i) h = get_elem?-ends_table xs ys i (omega arith)

-- Each cell holds the length for the ends of both lists from its indexes on.
pub cell-create_lcs_table :
    (xs ys : List String) (i j : ℕ)
    → i ≤ length xs
    → j ≤ length ys
    → cell (create_lcs_table xs ys) i j ≡ lcs (drop i xs) (drop j ys)
unfolding cell
cell-create_lcs_table xs ys i j hi hj =
    rw
      (
        create_lcs_table-ends_table,
        get_elem?-ends_table xs ys i hi,
        get_elem?-ends_row (drop i xs) ys j hj,
      )
      refl
