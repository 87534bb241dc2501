-- ===== src/Client/BytesInFlight/Accounting.antt =====
-- The counts of a budget, and who waits.
use synch.Common.{
  ℕ, ◌+◌, ◌≡◌, refl, sym, ap, subst, inl, inr, Bool, true, false, not, some, List, [], ◌∷◌, ◌++◌,
  length, arith, Bool-cases,
}
use synch.Client.BytesInFlight.{
  WaitingReservation, BytesInFlightBudget, Drained, can_acquire, reserve, drain_waiting, acquire,
  release, resize_reservation, dispose, new_budget,
}

unfoldable pub total : List WaitingReservation → ℕ
total [] = 0
total (r ∷ rs) = r.bytes + total rs

pub total-append : (xs ys : List WaitingReservation) → total (xs ++ ys) ≡ total xs + total ys
unfolding total
total-append [] ys = omega arith
total-append (x ∷ xs) ys = omega (arith, total-append xs ys)

-- The first in the queue has no room.
unfoldable pub is_blocked : List WaitingReservation → BytesInFlightBudget → Bool
unfolding can_acquire
is_blocked [] b = true
is_blocked (r ∷ rs) b = not (can_acquire r.bytes b)

-- A drain of a queue admits its first reservations, counts them, and stops where there is no room.
pub record Drains (queue : List WaitingReservation) (b : BytesInFlightBudget) (d : Drained)
    : Type 0 where
  pub in_order : d.admitted ++ d.budget.waiting ≡ queue
  pub bytes : d.budget.reserved_bytes ≡ b.reserved_bytes + total d.admitted
  pub active : d.budget.active_reservations ≡ b.active_reservations + length d.admitted
  pub stops : is_blocked d.budget.waiting d.budget ≡ true

module _ (r : WaitingReservation) (rs : List WaitingReservation) (b : BytesInFlightBudget) where
  pub drain_waiting-admits :
      can_acquire r.bytes b ≡ true
      → drain_waiting (r ∷ rs) b ≡ (
          let rest = drain_waiting rs (reserve r.bytes b) in
          record rest { admitted = r ∷ rest.admitted })
  unfolding drain_waiting
  drain_waiting-admits e = rw (drain_waiting, e) refl

  pub drain_waiting-stops :
      can_acquire r.bytes b ≡ false
      → drain_waiting (r ∷ rs) b ≡ record { budget = record b { waiting = r ∷ rs }; admitted = [] }
  unfolding drain_waiting
  drain_waiting-stops e = rw (drain_waiting, e) refl

pub drain_waiting-Drains :
    (queue : List WaitingReservation) (b : BytesInFlightBudget)
    → Drains queue b (drain_waiting queue b)
unfolding drain_waiting total is_blocked reserve
drain_waiting-Drains [] b = record {
  in_order = refl;
  bytes = omega arith;
  active = omega arith;
  stops = refl;
}
drain_waiting-Drains (r ∷ rs) b = elim (Bool-cases (can_acquire r.bytes b)) [
  | inl e ↦
      let later = drain_waiting-Drains rs (reserve r.bytes b) in
      subst (Drains (r ∷ rs) b) (sym (drain_waiting-admits r rs b e)) (record {
        in_order = ap (λ xs. r ∷ xs) later.in_order;
        bytes = omega (arith, later.bytes);
        active = omega (arith, later.active);
        stops = later.stops;
      })
  | inr e ↦
      subst (Drains (r ∷ rs) b) (sym (drain_waiting-stops r rs b e))
        (record { in_order = refl; bytes = omega arith; active = omega arith; stops = ap not e })
]

-- A budget and the reservations that are held.
pub record World : Type 0 where
  pub budget : BytesInFlightBudget
  pub held : List WaitingReservation

abbrev pub after : Drained → List WaitingReservation → World
after d held = record { budget = d.budget; held = d.admitted ++ held }

-- What callers do who keep to their reservations: they acquire, release a reservation that they hold by the
-- bytes that it has, resize one from the bytes that it has, or dispose of the budget. The code checks none
-- of this: a caller who releases two reservations at once by the sum of their bytes leaves the world of
-- these steps.
pub data Step : World → World → Type 0 where
  acquires :
      (w : World) (r : WaitingReservation) (d : Drained)
      → acquire r w.budget ≡ some d
      → Step w (after d w.held)
  releases :
      (b : BytesInFlightBudget) (xs ys : List WaitingReservation) (r : WaitingReservation)
      (d : Drained)
      → release r.bytes b ≡ some d
      → Step (record { budget = b; held = xs ++ r ∷ ys }) (after d (xs ++ ys))
  resizes :
      (b : BytesInFlightBudget) (xs ys : List WaitingReservation) (r : WaitingReservation)
      (next : ℕ) (d : Drained)
      → resize_reservation r.bytes next b ≡ some d
      → Step
          (record { budget = b; held = xs ++ r ∷ ys })
          (after d (xs ++ record r { bytes = next } ∷ ys))
  disposes : (w : World) → Step w (record w { budget = (dispose w.budget).0 })

pub data Reaches (max_bytes : ℕ) : World → Type 0 where
  begins : Reaches max_bytes (record { budget = new_budget max_bytes; held = [] })
  steps : (v w : World) → Reaches max_bytes v → Step v w → Reaches max_bytes w

-- The counts are those of the reservations that are held, nothing waits at a budget that is disposed, and
-- the first in the queue has no room.
pub record IsAccounted (w : World) : Type 0 where
  pub bytes : w.budget.reserved_bytes ≡ total w.held
  pub active : w.budget.active_reservations ≡ length w.held
  pub blocked : is_blocked w.budget.waiting w.budget ≡ true
  pub none_left : w.budget.is_disposed ≡ true → w.budget.waiting ≡ []
