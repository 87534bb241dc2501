-- ===== src/Common/Results.antt =====
-- Errors as values. Each constructor of `Error` is an error that the services throw, with the
-- numbers that its details carry; the human-readable texts are left out.
use Prim.Native.Nat.{ℕ}
use mathlib.Core.Path.{◌≡◌, refl}
use mathlib.Core.Bool.{Bool, true, false}

pub data Error : Type 0 where
  sync_paused : Error
  not_found : Error
  vault_mismatch : Error
  uninitialized : Error
  sync_repair_required : Error
  no_current_entry : Error
  no_result : Error
  stale_revision : ℕ → ℕ → Error
  version_mismatch : Error
  duplicate_mutation_id : Error
  blob_not_found : Error
  blob_not_staged : Error
  file_too_large : ℕ → ℕ → Error
  blob_already_live : Error
  blob_size_changed : ℕ → ℕ → Error
  quota_exceeded : ℕ → ℕ → ℕ → Error
  cursor_ahead_of_server : Error
  invalid_cursor_range : Error
  invalid_token : Error

pub data Result {ℓ} (A : Type ℓ) : Type ℓ where
  ok : A → Result A
  err : Error → Result A

module _ {ℓ κ} {X : Type ℓ} {Y : Type κ} where
  infixl 5 ◌>>=◌
  -- What follows a throw is not run.
  abbrev pub ◌>>=◌ : Result X → (X → Result Y) → Result Y
  err thrown >>= next = err thrown
  ok x >>= next = next x

  -- A value in the end has a value at each step.
  pub >>=-eq-ok :
      (first : Result X) (next : X → Result Y) {b : Y}
      → (first >>= next) ≡ ok b
      → (x : X) × (first ≡ ok x) × (next x ≡ ok b)
  >>=-eq-ok (err thrown) next h = cc
  >>=-eq-ok (ok x) next h = (x, refl, h)

module _ {ℓ} {X : Type ℓ} where
  infixl 5 ◌>>◌
  abbrev pub ◌>>◌ : Result (Unit {0}) → Result X → Result X
  err thrown >> rest = err thrown
  ok done >> rest = rest

  pub ok_inj : {a b : X} → ◌≡◌ {A = Result X} (ok a) (ok b) → a ≡ b
  ok_inj h = cc

-- `if (!test) throw …`
abbrev pub guard : Bool → Error → Result (Unit {0})
guard test thrown = elim test [ false ↦ err thrown | true ↦ ok tt ]
