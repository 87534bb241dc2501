-- ===== src/Client/BytesInFlight/Examples.antt =====
-- A budget of ten bytes: a small file, a large one that waits, and one behind it.
use synch.Common.{ℕ, ◌≡◌, ◌≢◌, refl, some, [], ◌∷◌, arith}
use synch.Client.BytesInFlight.{
  WaitingReservation, BytesInFlightBudget, acquire, release, new_budget,
}
use synch.Client.BytesInFlight.Accounting.{acquires, releases, Reaches, begins, steps, IsAccounted}
use synch.Client.BytesInFlight.Steps.{Reaches-IsAccounted, waiting-none_held}
use synch.Client.BytesInFlight.Limit.{IsWithin, acquire-IsWithin}

abbrev file : ℕ → ℕ → WaitingReservation
file request bytes = record { request = request; bytes = bytes }

abbrev small : WaitingReservation
small = file 1 4

abbrev large : WaitingReservation
large = file 2 30

abbrev one_held : BytesInFlightBudget
one_held = record (new_budget 10) { reserved_bytes = 4; active_reservations = 1 }

abbrev large_waits : BytesInFlightBudget
large_waits = record one_held { waiting = large ∷ [] }

abbrev large_held : BytesInFlightBudget
large_held = record (new_budget 10) { reserved_bytes = 30; active_reservations = 1 }

abbrev none_held : BytesInFlightBudget
none_held = new_budget 10

one_reached : Reaches 10 (record { budget = one_held; held = small ∷ [] })
unfolding new_budget acquire
one_reached =
    steps (record { budget = new_budget 10; held = [] }) _ begins
      (acquires _ small (record { budget = one_held; admitted = small ∷ [] }) refl)

two_reached : Reaches 10 (record { budget = large_waits; held = small ∷ [] })
unfolding new_budget acquire
two_reached =
    steps (record { budget = one_held; held = small ∷ [] }) _ one_reached
      (acquires _ large (record { budget = large_waits; admitted = [] }) refl)

large_reached : Reaches 10 (record { budget = large_held; held = large ∷ [] })
unfolding new_budget release
large_reached =
    steps (record { budget = large_waits; held = small ∷ [] }) _ two_reached
      (releases large_waits [] [] small (record { budget = large_held; admitted = large ∷ [] })
        refl)

none_reached : Reaches 10 (record { budget = none_held; held = [] })
unfolding new_budget release
none_reached =
    steps (record { budget = large_held; held = large ∷ [] }) _ large_reached
      (releases large_held [] [] large (record { budget = none_held; admitted = [] }) refl)

Reaches-IsAccounted_example : IsAccounted (record { budget = large_waits; held = small ∷ [] })
Reaches-IsAccounted_example =
    Reaches-IsAccounted 10 (record { budget = large_waits; held = small ∷ [] }) two_reached

waiting-none_held_example : none_held.waiting ≡ []
waiting-none_held_example =
    waiting-none_held 10 (record { budget = none_held; held = [] }) none_reached refl

has_one : small ∷ [] ≢ []
has_one h = absurd (ground (arith, h))

let_in : acquire small (new_budget 10) ≡ some (record { budget = one_held; admitted = small ∷ [] })
unfolding acquire new_budget
let_in = refl

acquire-IsWithin_example : IsWithin one_held
acquire-IsWithin_example =
    acquire-IsWithin small (new_budget 10) (record { budget = one_held; admitted = small ∷ [] })
      let_in has_one

-- Callers who do not keep to their reservations: two that hold five and three bytes, released as one of
-- eight, leave a reservation of no bytes active.
abbrev two_held : BytesInFlightBudget
two_held = record (new_budget 10) { reserved_bytes = 8; active_reservations = 2 }

released_at_once :
    release 8 two_held
    ≡ some (record { budget = record (new_budget 10) { active_reservations = 1 }; admitted = [] })
unfolding release new_budget
released_at_once = refl
