-- ===== src/Client/AdaptiveConcurrency/Bounds.antt =====
-- The limit stays between one and the maximum, and a trial adds one transfer.
use synch.Common.{
  ℕ, ◌+◌, ◌≤◌, ◌<◌, ◌≡◌, refl, Bool, true, false, Option, none, some, arith, inl, inr, Bool-cases,
  ltb, leb, eqb, ◌||◌, List, [], ◌∷◌, subst, if◌then◌else◌,
}
use mathlib.Core.Option.{some_inj}
use synch.Client.AdaptiveConcurrency.{
  AdaptiveConcurrencyPolicy, TransferWindow, Baseline, new_policy, congested, idle, observe,
  compare, compare_steady, degrade, settle, end_probe, is_degraded, is_improved, limit_before,
}

-- What the trial of a larger limit goes back to.
abbrev IsTrial : Bool → Option Baseline → ℕ → Type 0
IsTrial true (some b) current = (1 ≤ b.limit) × (b.limit + 1 ≡ current)
IsTrial true none current = current < current
IsTrial false _ current = 0 ≤ current

pub record IsBounded (p : AdaptiveConcurrencyPolicy) : Type 0 where
  pub at_least_one : 1 ≤ p.current
  pub at_most : p.current ≤ p.maximum
  pub is_trial : IsTrial p.probing p.baseline p.current

new_policy-IsBounded :
    (maximum : ℕ) (p : AdaptiveConcurrencyPolicy) → new_policy maximum ≡ some p → IsBounded p
unfolding new_policy
new_policy-IsBounded maximum p h = elim (Bool-cases (ltb maximum 1)) [
  | inl e ↦ absurd (ground arith)
  | inr e ↦
      subst IsBounded (some_inj.0 (rw e at h))
        (record { at_least_one = ground arith; at_most = omega arith; is_trial = omega arith })
]

IsBounded-if :
    (c : Bool) {p q : AdaptiveConcurrencyPolicy}
    → (c ≡ true → IsBounded p)
    → (c ≡ false → IsBounded q)
    → IsBounded (if c then p else q)
IsBounded-if true h k = h refl
IsBounded-if false h k = k refl

congested-IsBounded :
    (now : ℕ) (p : AdaptiveConcurrencyPolicy) → IsBounded p → IsBounded (congested now p)
unfolding congested
congested-IsBounded now p b =
    IsBounded-if (ltb now p.next_decrease_at) (λ e. b)
      (λ e. record {
        at_least_one = omega arith;
        at_most = omega (arith, b.at_least_one, b.at_most);
        is_trial = omega arith;
      })

limit_before-le :
    (probing : Bool) (b : Option Baseline) (current : ℕ)
    → IsTrial probing b current
    → 1 ≤ current
    → (1 ≤ limit_before probing b current) × (limit_before probing b current ≤ current)
unfolding limit_before
limit_before-le true (some b) current t h = (t.0, omega (arith, t.1))
limit_before-le true none current t h = absurd (omega (arith, t))
limit_before-le false b current t h = (h, omega arith)

idle-IsBounded : (p : AdaptiveConcurrencyPolicy) → IsBounded p → IsBounded (idle p)
unfolding idle
idle-IsBounded p b =
    let r = limit_before-le p.probing p.baseline p.current b.is_trial b.at_least_one in
    record { at_least_one = r.0; at_most = omega (arith, r.1, b.at_most); is_trial = omega arith }

module _ (w : TransferWindow) (now : ℕ) (p : AdaptiveConcurrencyPolicy) (h : IsBounded p) where
  end_probe-IsBounded :
      (b : Baseline) → 1 ≤ b.limit → b.limit + 1 ≡ p.current → IsBounded (end_probe w now b p)
  unfolding end_probe
  end_probe-IsBounded b one next = elim (Bool-cases (is_improved w b)) [
    | inl e ↦ record {
      at_least_one = ground (arith, h.at_least_one, e);
      at_most = ground (arith, h.at_most, e);
      is_trial = omega arith;
    }
    | inr e ↦ record {
      at_least_one = ground (arith, one, e);
      at_most = ground (arith, h.at_most, next, e);
      is_trial = omega arith;
    }
  ]

  degrade-IsBounded : IsBounded (degrade now p)
  unfolding degrade
  degrade-IsBounded =
      let still : IsBounded (record p { degraded_windows = p.degraded_windows + 1 }) = record {
        at_least_one = h.at_least_one;
        at_most = h.at_most;
        is_trial = h.is_trial;
      } in
      IsBounded-if (leb 2 (p.degraded_windows + 1)) (λ e. congested-IsBounded now _ still)
        (λ e. still)

  settle-IsBounded : IsBounded (settle w now p)
  unfolding settle
  settle-IsBounded =
      IsBounded-if (ltb now p.next_probe_at || leb p.maximum p.current)
        (λ e. record { at_least_one = h.at_least_one; at_most = h.at_most; is_trial = h.is_trial })
        (λ e. record {
          at_least_one = omega arith;
          at_most = ground (arith, e);
          is_trial = (h.at_least_one, refl);
        })

  compare_steady-IsBounded : IsBounded (compare_steady w now p)
  unfolding compare_steady
  compare_steady-IsBounded =
      IsBounded-if (is_degraded w p.steady) (λ e. degrade-IsBounded) (λ e. settle-IsBounded)

  compare-IsBounded :
      (probing : Bool) (b : Option Baseline)
      → IsTrial probing b p.current
      → IsBounded (compare w now probing b p)
  unfolding compare
  compare-IsBounded true (some b) t = end_probe-IsBounded b t.0 t.1
  compare-IsBounded true none t = absurd (omega (arith, t))
  compare-IsBounded false b t = compare_steady-IsBounded

  observe-IsBounded : IsBounded (observe w now p)
  unfolding observe
  observe-IsBounded =
      IsBounded-if (eqb w.bytes 0 || eqb w.elapsed_ms 0) (λ e. h)
        (λ e. compare-IsBounded p.probing p.baseline h.is_trial)

-- What the scheduler calls.
pub data Call : Type 0 where
  observes : TransferWindow → ℕ → Call
  congests : ℕ → Call
  idles : Call

unfoldable pub run : List Call → AdaptiveConcurrencyPolicy → AdaptiveConcurrencyPolicy
unfolding observe congested idle
run [] p = p
run (observes w now ∷ calls) p = run calls (observe w now p)
run (congests now ∷ calls) p = run calls (congested now p)
run (idles ∷ calls) p = run calls (idle p)

run-kept :
    (calls : List Call) (p : AdaptiveConcurrencyPolicy) → IsBounded p → IsBounded (run calls p)
unfolding run
run-kept [] p h = h
run-kept (observes w now ∷ calls) p h =
    run-kept calls (observe w now p) (observe-IsBounded w now p h)
run-kept (congests now ∷ calls) p h = run-kept calls (congested now p) (congested-IsBounded now p h)
run-kept (idles ∷ calls) p h = run-kept calls (idle p) (idle-IsBounded p h)

-- After any calls of a new policy the limit is at least one and at most the maximum, and while a larger
-- limit is on trial it is one more than the limit, of at least one, to which a failed trial goes back.
pub run-IsBounded :
    (maximum : ℕ) (p : AdaptiveConcurrencyPolicy) (calls : List Call)
    → new_policy maximum ≡ some p
    → IsBounded (run calls p)
run-IsBounded maximum p calls h = run-kept calls p (new_policy-IsBounded maximum p h)
