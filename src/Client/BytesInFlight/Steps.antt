-- ===== src/Client/BytesInFlight/Steps.antt =====
-- What a step leaves of the counts of a budget, and what follows for callers.
use synch.Common.{
  ℕ, ◌+◌, ◌-◌, ◌≡◌, refl, sym, ap, subst, ◌∙◌, inl, inr, true, false, none, some, List, [], ◌∷◌,
  ◌++◌, ◌||◌, ◌≢◌, length, arith, Bool-cases, length-append, ltb, eqb, false≢true,
}
use mathlib.Core.Option.{some_inj}
use synch.Client.BytesInFlight.{
  WaitingReservation, BytesInFlightBudget, Drained, can_acquire, reserve, drain_waiting, drain,
  acquire, release, resize_reservation, dispose, new_budget, is_empty, try_acquire, wait_or_go,
  Tried, throws, no, yes,
}
use synch.Client.BytesInFlight.Accounting.{
  total, total-append, is_blocked, drain_waiting-Drains, World, after, Step, acquires, releases,
  resizes, disposes, Reaches, begins, steps, IsAccounted,
}

-- A budget whose counts are right, whoever waits.
record Counts (b : BytesInFlightBudget) (held : List WaitingReservation) : Type 0 where
  bytes : b.reserved_bytes ≡ total held
  active : b.active_reservations ≡ length held
  none_left : b.is_disposed ≡ true → b.waiting ≡ []

drain_waiting-is_disposed :
    (queue : List WaitingReservation) (b : BytesInFlightBudget)
    → (drain_waiting queue b).budget.is_disposed ≡ b.is_disposed
unfolding drain_waiting reserve
drain_waiting-is_disposed [] b = refl
drain_waiting-is_disposed (r ∷ rs) b =
    ground (arith, drain_waiting-is_disposed rs (reserve r.bytes b))

pub drain-disposed :
    (b : BytesInFlightBudget)
    → b.is_disposed ≡ true
    → record { budget = b; admitted = [] } ≡ drain b
unfolding drain
drain-disposed b e = rw e refl

pub drain-usable :
    (b : BytesInFlightBudget) → b.is_disposed ≡ false → drain_waiting b.waiting b ≡ drain b
unfolding drain
drain-usable b e = rw e refl

drain-IsAccounted :
    (b : BytesInFlightBudget) (held : List WaitingReservation)
    → Counts b held
    → IsAccounted (after (drain b) held)
unfolding is_blocked
drain-IsAccounted b held c = elim (Bool-cases b.is_disposed) [
  | inl e ↦
      subst (λ (d : Drained). IsAccounted (after d held)) (drain-disposed b e)
        (record {
          bytes = c.bytes;
          active = c.active;
          blocked = rw (c.none_left e) refl;
          none_left = c.none_left;
        })
  | inr e ↦
      let d = drain_waiting-Drains b.waiting b in
      subst (λ (d : Drained). IsAccounted (after d held)) (drain-usable b e)
        (record {
          bytes =
              omega
                (arith, d.bytes, c.bytes, total-append (drain_waiting b.waiting b).admitted held);
          active =
              omega (
                arith,
                d.active,
                c.active,
                length-append (drain_waiting b.waiting b).admitted held,
              );
          blocked = d.stops;
          none_left = λ h. absurd (ground (arith, h, e, drain_waiting-is_disposed b.waiting b));
        })
]

-- What a caller that is let in at once finds.
pub record LetIn (bytes : ℕ) (b x : BytesInFlightBudget) : Type 0 where
  pub is_reserved : reserve bytes b ≡ x
  is_usable : b.is_disposed ≡ false
  none_waits : b.waiting ≡ []
  pub has_room : can_acquire bytes b ≡ true

is_empty-true : (rs : List WaitingReservation) → is_empty rs ≡ true → rs ≡ []
unfolding is_empty
is_empty-true [] e = refl
is_empty-true (r ∷ rs) e = absurd (ground arith)

pub try_acquire-LetIn :
    (bytes : ℕ) (b x : BytesInFlightBudget) → try_acquire bytes b ≡ yes x → LetIn bytes b x
unfolding try_acquire
try_acquire-LetIn bytes b x h = elim (Bool-cases b.is_disposed) [
  | inl e ↦ absurd (ground arith)
  | inr e ↦ elim (Bool-cases (is_empty b.waiting)) [
    | inr f ↦ absurd (ground arith)
    | inl f ↦ elim (Bool-cases (can_acquire bytes b)) [
      | inr g ↦ absurd (ground arith)
      | inl g ↦ record {
        is_reserved = ground arith;
        is_usable = e;
        none_waits = is_empty-true b.waiting f;
        has_room = g;
      }
    ]
  ]
]

try_acquire-no :
    (bytes : ℕ) (b : BytesInFlightBudget) → try_acquire bytes b ≡ no → b.is_disposed ≡ false
unfolding try_acquire
try_acquire-no bytes b h = ground arith

module _ (r : WaitingReservation) (w : World) where
  tried-IsAccounted :
      (t : Tried) (d : Drained)
      → try_acquire r.bytes w.budget ≡ t
      → wait_or_go r w.budget t ≡ some d
      → IsAccounted w
      → IsAccounted (after d w.held)
  unfolding wait_or_go
  tried-IsAccounted throws d e h a = absurd (ground arith)
  tried-IsAccounted no d e h a =
      let usable = try_acquire-no r.bytes w.budget e in
      subst (λ (d : Drained). IsAccounted (after d w.held)) (some_inj.0 h)
        (drain-IsAccounted _ w.held (record {
          bytes = a.bytes;
          active = a.active;
          none_left = λ k. absurd (false≢true (sym usable ∙ k));
        }))
  tried-IsAccounted (yes x) d e h a =
      let l = try_acquire-LetIn r.bytes w.budget x e in
      subst (λ (d : Drained). IsAccounted (after d w.held)) (some_inj.0 h)
        (subst (λ (x : BytesInFlightBudget). IsAccounted (record { budget = x; held = r ∷ w.held }))
          l.is_reserved
          (record {
            bytes = unfold total in unfold reserve in omega (arith, a.bytes);
            active = unfold reserve in omega (arith, a.active);
            blocked = unfold is_blocked in unfold reserve in rw l.none_waits refl;
            none_left = unfold reserve in λ k. l.none_waits;
          }))

  acquire-IsAccounted :
      (d : Drained) → acquire r w.budget ≡ some d → IsAccounted w → IsAccounted (after d w.held)
  unfolding acquire
  acquire-IsAccounted d h a = tried-IsAccounted (try_acquire r.bytes w.budget) d refl h a

release-IsAccounted :
    (b : BytesInFlightBudget) (xs ys : List WaitingReservation) (r : WaitingReservation)
    → IsAccounted (record { budget = b; held = xs ++ r ∷ ys })
    → (d : Drained) × (release r.bytes b ≡ some d) × IsAccounted (after d (xs ++ ys))
unfolding release total
release-IsAccounted b xs ys r a =
    let bytes = total-append xs (r ∷ ys) in
    let active = length-append xs (r ∷ ys) in
    let enough : (ltb b.reserved_bytes r.bytes || eqb b.active_reservations 0) ≡ false =
      ground (arith, bytes, active, a.bytes, a.active) in
    (
      drain (record b {
        active_reservations = b.active_reservations - 1;
        reserved_bytes = b.reserved_bytes - r.bytes;
      }),
      rw enough refl,
      drain-IsAccounted _ (xs ++ ys) (record {
        bytes = omega (arith, bytes, a.bytes, total-append xs ys);
        active = omega (arith, active, a.active, length-append xs ys);
        none_left = a.none_left;
      }),
    )

resize-IsAccounted :
    (b : BytesInFlightBudget) (xs ys : List WaitingReservation) (r : WaitingReservation) (next : ℕ)
    → IsAccounted (record { budget = b; held = xs ++ r ∷ ys })
    → (d : Drained) × (resize_reservation r.bytes next b ≡ some d)
      × IsAccounted (after d (xs ++ record r { bytes = next } ∷ ys))
unfolding resize_reservation total
resize-IsAccounted b xs ys r next a =
    let bytes = total-append xs (r ∷ ys) in
    let active = length-append xs (r ∷ ys) in
    let enough : ltb (b.reserved_bytes + next) r.bytes ≡ false = ground (arith, bytes, a.bytes) in
    (
      drain (record b { reserved_bytes = (b.reserved_bytes + next) - r.bytes }),
      rw enough refl,
      drain-IsAccounted _ (xs ++ record r { bytes = next } ∷ ys) (record {
        bytes = omega (arith, bytes, a.bytes, total-append xs (record r { bytes = next } ∷ ys));
        active = omega (arith, active, a.active, length-append xs (record r { bytes = next } ∷ ys));
        none_left = a.none_left;
      }),
    )

dispose-disposed : (b : BytesInFlightBudget) → b.is_disposed ≡ true → b ≡ (dispose b).0
unfolding dispose
dispose-disposed b e = rw e refl

dispose-usable :
    (b : BytesInFlightBudget)
    → b.is_disposed ≡ false
    → record b { is_disposed = true; waiting = [] } ≡ (dispose b).0
unfolding dispose
dispose-usable b e = rw e refl

dispose-IsAccounted :
    (w : World) → IsAccounted w → IsAccounted (record w { budget = (dispose w.budget).0 })
unfolding is_blocked
dispose-IsAccounted w a = elim (Bool-cases w.budget.is_disposed) [
  | inl e ↦ subst (λ b. IsAccounted (record w { budget = b })) (dispose-disposed w.budget e) a
  | inr e ↦
      subst (λ b. IsAccounted (record w { budget = b })) (dispose-usable w.budget e)
        (record { bytes = a.bytes; active = a.active; blocked = refl; none_left = λ k. refl })
]

Step-IsAccounted : {v w : World} → Step v w → IsAccounted v → IsAccounted w
Step-IsAccounted (acquires w r d h) a = acquire-IsAccounted r w d h a
Step-IsAccounted (releases b xs ys r d h) a =
    let q = release-IsAccounted b xs ys r a in
    subst (λ (d : Drained). IsAccounted (after d (xs ++ ys))) (some_inj.0 (sym q.1 ∙ h)) q.2
Step-IsAccounted (resizes b xs ys r next d h) a =
    let q = resize-IsAccounted b xs ys r next a in
    subst (λ (d : Drained). IsAccounted (after d (xs ++ record r { bytes = next } ∷ ys)))
      (some_inj.0 (sym q.1 ∙ h)) q.2
Step-IsAccounted (disposes w) a = dispose-IsAccounted w a

-- While callers release and resize only reservations that they hold, each by the bytes that it has then, a
-- budget counts exactly the bytes and the number of the reservations that are held, the first reservation
-- that waits has no room, and nothing waits at a budget that is disposed.
pub Reaches-IsAccounted : (max_bytes : ℕ) (w : World) → Reaches max_bytes w → IsAccounted w
unfolding new_budget total is_blocked
Reaches-IsAccounted max_bytes _ begins = record {
  bytes = refl;
  active = refl;
  blocked = refl;
  none_left = λ h. refl;
}
Reaches-IsAccounted max_bytes w (steps v _ before s) =
    Step-IsAccounted s (Reaches-IsAccounted max_bytes v before)

-- While callers release and resize only reservations that they hold, each by the bytes that it has then,
-- nothing waits where nothing is held: every reservation that waits is let in when the others are
-- released, however large it is.
pub waiting-none_held :
    (max_bytes : ℕ) (w : World) → Reaches max_bytes w → w.held ≡ [] → w.budget.waiting ≡ []
unfolding is_blocked total
waiting-none_held max_bytes w reached h =
    go w.budget.waiting (Reaches-IsAccounted max_bytes w reached)
      (Reaches-IsAccounted max_bytes w reached).blocked
  where
    go : (rs : List WaitingReservation) → IsAccounted w → is_blocked rs w.budget ≡ true → rs ≡ []
    go [] a blocked = refl
    go (r ∷ rs) a blocked =
        let bytes : w.budget.reserved_bytes ≡ 0 = a.bytes ∙ ap total h in
        let active : w.budget.active_reservations ≡ 0 = a.active ∙ ap length h in
        absurd (ground (arith, bytes, active, blocked))

-- Among such callers, one that releases what it holds is never told that it releases too much.
pub release-held :
    (max_bytes : ℕ) (b : BytesInFlightBudget) (xs ys : List WaitingReservation)
    (r : WaitingReservation)
    → Reaches max_bytes (record { budget = b; held = xs ++ r ∷ ys })
    → release r.bytes b ≢ none
release-held max_bytes b xs ys r reached e =
    let q = release-IsAccounted b xs ys r (Reaches-IsAccounted max_bytes _ reached) in
    absurd (ground (arith, q.1, e))
