-- ===== src/Client/BytesInFlight/Limit.antt =====
-- What a budget lets in is within its limit, or alone.
use synch.Common.{
  ℕ, ◌≤◌, ◌≡◌, ◌≢◌, refl, sym, ap, subst, ◌⊎◌, inl, inr, true, some, List, [], ◌∷◌, ◌++◌, arith,
  Bool-cases, ltb,
}
use mathlib.Core.Option.{some_inj}
use synch.Client.BytesInFlight.{
  WaitingReservation, BytesInFlightBudget, Drained, can_acquire, reserve, drain_waiting, drain,
  acquire, try_acquire, wait_or_go, Tried, throws, no, yes,
}
use synch.Client.BytesInFlight.Accounting.{drain_waiting-admits, drain_waiting-stops}
use synch.Client.BytesInFlight.Steps.{drain-disposed, drain-usable, try_acquire-LetIn}

abbrev pub IsWithin : BytesInFlightBudget → Type 0
IsWithin b = (b.reserved_bytes ≤ b.max_bytes) ⊎ (b.active_reservations ≡ 1)

reserve-IsWithin :
    (bytes : ℕ) (b : BytesInFlightBudget) → can_acquire bytes b ≡ true → IsWithin (reserve bytes b)
unfolding can_acquire reserve
reserve-IsWithin bytes b h = elim (Bool-cases (ltb b.max_bytes bytes)) [
  | inl e ↦ inr (ground (arith, e, h))
  | inr e ↦ inl (ground (arith, e, h))
]

drain_waiting-IsWithin :
    (queue : List WaitingReservation) (b : BytesInFlightBudget)
    → IsWithin b
    → IsWithin (drain_waiting queue b).budget
drain_waiting-IsWithin [] b w = unfold drain_waiting in w
drain_waiting-IsWithin (r ∷ rs) b w = elim (Bool-cases (can_acquire r.bytes b)) [
  | inl e ↦
      subst (λ (d : Drained). IsWithin d.budget) (sym (drain_waiting-admits r rs b e))
        (drain_waiting-IsWithin rs (reserve r.bytes b) (reserve-IsWithin r.bytes b e))
  | inr e ↦ subst (λ (d : Drained). IsWithin d.budget) (sym (drain_waiting-stops r rs b e)) w
]

drain_waiting-admitted :
    (queue : List WaitingReservation) (b : BytesInFlightBudget)
    → (drain_waiting queue b).admitted ≢ []
    → IsWithin (drain_waiting queue b).budget
drain_waiting-admitted [] b h = absurd (h (unfold drain_waiting in refl))
drain_waiting-admitted (r ∷ rs) b h = elim (Bool-cases (can_acquire r.bytes b)) [
  | inl e ↦
      subst (λ (d : Drained). IsWithin d.budget) (sym (drain_waiting-admits r rs b e))
        (drain_waiting-IsWithin rs (reserve r.bytes b) (reserve-IsWithin r.bytes b e))
  | inr e ↦ absurd (h (ap (λ (d : Drained). d.admitted) (drain_waiting-stops r rs b e)))
]

drain-admitted : (b : BytesInFlightBudget) → (drain b).admitted ≢ [] → IsWithin (drain b).budget
drain-admitted b h = elim (Bool-cases b.is_disposed) [
  | inl e ↦ absurd (h (sym (ap (λ (d : Drained). d.admitted) (drain-disposed b e))))
  | inr e ↦
      subst (λ (d : Drained). d.admitted ≢ [] → IsWithin d.budget) (drain-usable b e)
        (drain_waiting-admitted b.waiting b) h
]

-- When a call of `acquire` lets reservations in, at whatever bytes the budget was before, then the bytes
-- that are reserved are within the budget's limit afterwards, or the one reservation that is let in is
-- the only one.
pub acquire-IsWithin :
    (r : WaitingReservation) (b : BytesInFlightBudget) (d : Drained)
    → acquire r b ≡ some d
    → d.admitted ≢ []
    → IsWithin d.budget
unfolding acquire wait_or_go
acquire-IsWithin r b d h = go (try_acquire r.bytes b) refl h
  where
    go :
        (t : Tried)
        → try_acquire r.bytes b ≡ t
        → wait_or_go r b t ≡ some d
        → d.admitted ≢ []
        → IsWithin d.budget
    go throws e k a = absurd (ground arith)
    go no e k a =
        subst (λ (d : Drained). d.admitted ≢ [] → IsWithin d.budget) (some_inj.0 k)
          (drain-admitted (record b { waiting = b.waiting ++ r ∷ [] })) a
    go (yes x) e k a =
        let l = try_acquire-LetIn r.bytes b x e in
        subst (λ (d : Drained). IsWithin d.budget) (some_inj.0 k)
          (subst IsWithin l.is_reserved (reserve-IsWithin r.bytes b l.has_room))
