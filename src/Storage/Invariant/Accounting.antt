-- ===== src/Storage/Invariant/Accounting.antt =====
-- The storage counter: the sizes of the recorded blobs, and what each write does to their sum.
use synch.Common.{
  ℕ, ◌+◌, ◌≡◌, refl, Bool, false, Option, none, some, List, [], ◌∷◌, ◌++◌, arith, select, any,
}
use synch.Storage.Table.{update_where, delete_where, upsert_where}
use synch.Storage.Rows.{BlobRow, CoordinatorState}

unfoldable pub total_size : List BlobRow → ℕ
total_size [] = 0
total_size (r ∷ rs) = r.size_bytes + total_size rs

abbrev pub IsCounted : Option CoordinatorState → List BlobRow → Type 0
IsCounted none blobs = Unit {0}
IsCounted (some s) blobs = s.storage_used_bytes ≡ total_size blobs

pub total_size-append :
    (xs ys : List BlobRow) → total_size (xs ++ ys) ≡ total_size xs + total_size ys
unfolding total_size
total_size-append [] ys = omega arith
total_size-append (x ∷ xs) ys = omega (arith, total_size-append xs ys)

-- An update that keeps each row's size keeps the sum.
pub total_size-update_where :
    (p : BlobRow → Bool) (f : BlobRow → BlobRow) (rs : List BlobRow)
    → ((r : BlobRow) → (f r).size_bytes ≡ r.size_bytes)
    → total_size (update_where p f rs) ≡ total_size rs
unfolding total_size update_where
total_size-update_where p f [] keep = refl
total_size-update_where p f (r ∷ rs) keep =
    ground (arith, keep r, total_size-update_where p f rs keep)

-- What a DELETE returns and what it leaves add up to what was there.
pub total_size-delete_where :
    (p : BlobRow → Bool) (rs : List BlobRow)
    → total_size (select p rs) + total_size (delete_where p rs) ≡ total_size rs
unfolding total_size delete_where select
total_size-delete_where p [] = refl
total_size-delete_where p (r ∷ rs) = ground (arith, total_size-delete_where p rs)

pub total_size-insert :
    (p : BlobRow → Bool) (new : BlobRow) (f : BlobRow → BlobRow) (rs : List BlobRow)
    → any p rs ≡ false
    → total_size (upsert_where p new f rs) ≡ total_size rs + new.size_bytes
unfolding upsert_where
total_size-insert p new f rs h =
    rw h (unfold total_size in omega (arith, total_size-append rs (new ∷ [])))
