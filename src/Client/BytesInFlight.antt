-- ===== src/Client/BytesInFlight.antt =====
-- The budget of source bytes that sync operations hold, packages/sync-client/src/sync/core/
-- bytes-in-flight.ts. Sizes are natural numbers, what `validateByteCount` returns. A waiting reservation
-- has the number of its request in place of its promise; an operation returns the reservations whose
-- promises it settles. Where a count would fall below zero the result is `none`: the source throws in
-- `release`, with the counts taken down already, and goes on in `resizeReservation`, and neither state
-- is modelled.
pub mod Accounting
pub mod Examples
pub mod Limit
pub mod Steps
use synch.Common.{
  ℕ, ◌+◌, ◌-◌, Bool, true, false, Option, none, some, List, [], ◌∷◌, ◌++◌, ◌||◌, ◌&&◌, ltb, leb,
  eqb, if◌then◌else◌,
}

pub record WaitingReservation : Type 0 where
  pub request : ℕ
  pub bytes : ℕ

pub record BytesInFlightBudget : Type 0 where
  pub max_bytes : ℕ
  pub reserved_bytes : ℕ
  pub active_reservations : ℕ
  pub waiting : List WaitingReservation
  pub is_disposed : Bool

-- A budget and the waiting reservations that were let in, in order.
pub record Drained : Type 0 where
  pub budget : BytesInFlightBudget
  pub admitted : List WaitingReservation

-- What `tryAcquire` does: it throws if the budget is disposed.
pub data Tried : Type 0 where
  throws : Tried
  no : Tried
  yes : BytesInFlightBudget → Tried

pub can_acquire : ℕ → BytesInFlightBudget → Bool
can_acquire bytes b =
    if ltb b.max_bytes bytes
    then eqb b.active_reservations 0
    else leb (b.reserved_bytes + bytes) b.max_bytes

pub reserve : ℕ → BytesInFlightBudget → BytesInFlightBudget
reserve bytes b = record b {
  active_reservations = b.active_reservations + 1;
  reserved_bytes = b.reserved_bytes + bytes;
}

-- `drain` on the reservations that wait: the first ones, while there is room.
pub drain_waiting : List WaitingReservation → BytesInFlightBudget → Drained
unfolding can_acquire reserve
drain_waiting [] b = record { budget = record b { waiting = [] }; admitted = [] }
drain_waiting (r ∷ rs) b = elim (can_acquire r.bytes b) [
  | false ↦ record { budget = record b { waiting = r ∷ rs }; admitted = [] }
  | true ↦
      let rest = drain_waiting rs (reserve r.bytes b) in
      record rest { admitted = r ∷ rest.admitted }
]

unfoldable pub drain : BytesInFlightBudget → Drained
unfolding drain_waiting
drain b = if b.is_disposed then record { budget = b; admitted = [] } else drain_waiting b.waiting b

pub is_empty : List WaitingReservation → Bool
is_empty [] = true
is_empty (r ∷ rs) = false

unfoldable pub try_acquire : ℕ → BytesInFlightBudget → Tried
unfolding is_empty can_acquire reserve
try_acquire bytes b =
    if b.is_disposed
    then throws
    else if is_empty b.waiting && can_acquire bytes b
    then yes (reserve bytes b)
    else no

pub wait_or_go : WaitingReservation → BytesInFlightBudget → Tried → Option Drained
unfolding drain
wait_or_go r b throws = none
wait_or_go r b (yes after) = some (record { budget = after; admitted = r ∷ [] })
wait_or_go r b no = some (drain (record b { waiting = b.waiting ++ r ∷ [] }))

-- A caller that is let in at once is among the admitted. A budget that is disposed rejects it.
unfoldable pub acquire : WaitingReservation → BytesInFlightBudget → Option Drained
unfolding try_acquire wait_or_go
acquire r b = wait_or_go r b (try_acquire r.bytes b)

-- The throw of an overdraw is `none`.
unfoldable pub release : ℕ → BytesInFlightBudget → Option Drained
unfolding drain
release bytes b =
    if ltb b.reserved_bytes bytes || eqb b.active_reservations 0
    then none
    else some (
        drain (record b {
          active_reservations = b.active_reservations - 1;
          reserved_bytes = b.reserved_bytes - bytes;
        }))

unfoldable pub resize_reservation : ℕ → ℕ → BytesInFlightBudget → Option Drained
unfolding drain
resize_reservation previous next b =
    if ltb (b.reserved_bytes + next) previous
    then none
    else some (drain (record b { reserved_bytes = (b.reserved_bytes + next) - previous }))

-- The reservations that are rejected, with the budget behind.
unfoldable pub dispose : BytesInFlightBudget → BytesInFlightBudget × List WaitingReservation
dispose b =
    if b.is_disposed then (b, []) else (record b { is_disposed = true; waiting = [] }, b.waiting)

unfoldable pub new_budget : ℕ → BytesInFlightBudget
new_budget max_bytes = record {
  max_bytes = max_bytes;
  reserved_bytes = 0;
  active_reservations = 0;
  waiting = [];
  is_disposed = false;
}
