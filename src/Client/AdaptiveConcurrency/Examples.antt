-- ===== src/Client/AdaptiveConcurrency/Examples.antt =====
-- A policy that tries a larger limit and gives it up.
use synch.Common.{ℕ, ◌≡◌, refl, Option, false, [], ◌∷◌}
use synch.Client.AdaptiveConcurrency.{
  AdaptiveConcurrencyPolicy, TransferWindow, new_policy, observe,
}
use synch.Client.AdaptiveConcurrency.Bounds.{IsBounded, observes, congests, run, run-IsBounded}

abbrev window : ℕ → TransferWindow
window bytes = record { bytes = bytes; elapsed_ms = 1000; mean_duration_ms = 50 }

abbrev policy : AdaptiveConcurrencyPolicy
policy = record {
  maximum = 12;
  current = 8;
  baseline = Option.none;
  probing = false;
  next_probe_at = 0;
  next_decrease_at = 0;
  steady = Option.none;
  degraded_windows = 0;
}

trial : (run (observes (window 1000) 0 ∷ []) policy).current ≡ 9
unfolding run observe
trial = refl

given_up : (run (observes (window 1000) 0 ∷ observes (window 1050) 1000 ∷ []) policy).current ≡ 8
unfolding run observe
given_up = refl

kept : (run (observes (window 1000) 0 ∷ observes (window 1200) 1000 ∷ []) policy).current ≡ 9
unfolding run observe
kept = refl

run-IsBounded_example : IsBounded (run (observes (window 1000) 0 ∷ congests 500 ∷ []) policy)
run-IsBounded_example =
    run-IsBounded 12 policy (observes (window 1000) 0 ∷ congests 500 ∷ [])
      (unfold new_policy in refl)
