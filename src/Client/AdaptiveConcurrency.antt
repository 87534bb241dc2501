-- ===== src/Client/AdaptiveConcurrency.antt =====
-- How many transfers run at once, packages/sync-client/src/sync/remote/adaptive-concurrency-policy.ts. A
-- rate is the fraction of bytes and time that the source divides, and rates are compared exactly.
pub mod Bounds
pub mod Examples
use synch.Common.{
  ℕ, ◌+◌, ◌*◌, ◌/◌, min, max, Bool, true, false, not, ◌&&◌, ◌||◌, Option, none, some, ltb, leb, eqb,
  if◌then◌else◌,
}

pub record TransferWindow : Type 0 where
  pub bytes : ℕ
  pub elapsed_ms : ℕ
  pub mean_duration_ms : ℕ

-- `bytes / elapsedMs`
pub record Rate : Type 0 where
  pub bytes : ℕ
  pub elapsed_ms : ℕ

pub record Baseline : Type 0 where
  pub rate : Rate
  pub latency : ℕ
  pub limit : ℕ

pub record Steady : Type 0 where
  pub rate : Rate
  pub latency : ℕ

pub record AdaptiveConcurrencyPolicy : Type 0 where
  pub maximum : ℕ
  pub current : ℕ
  pub baseline : Option Baseline
  pub probing : Bool
  pub next_probe_at : ℕ
  pub next_decrease_at : ℕ
  pub steady : Option Steady
  pub degraded_windows : ℕ

-- The constructor throws for a maximum of zero.
unfoldable pub new_policy : ℕ → Option AdaptiveConcurrencyPolicy
new_policy maximum =
    if ltb maximum 1
    then none
    else some (record {
      maximum = maximum;
      current = min 8 maximum;
      baseline = none;
      probing = false;
      next_probe_at = 0;
      next_decrease_at = 0;
      steady = none;
      degraded_windows = 0;
    })

unfoldable pub congested : ℕ → AdaptiveConcurrencyPolicy → AdaptiveConcurrencyPolicy
congested now p = if ltb now p.next_decrease_at then p else record p {
  current = max 1 (p.current / 2);
  baseline = none;
  probing = false;
  steady = none;
  degraded_windows = 0;
  next_decrease_at = now + 5000;
  next_probe_at = now + 10000;
}

pub limit_before : Bool → Option Baseline → ℕ → ℕ
limit_before true (some b) current = b.limit
limit_before true none current = current
limit_before false _ current = current

unfoldable pub idle : AdaptiveConcurrencyPolicy → AdaptiveConcurrencyPolicy
unfolding limit_before
idle p = record p {
  current = limit_before p.probing p.baseline p.current;
  baseline = none;
  probing = false;
  steady = none;
  degraded_windows = 0;
}

-- `rate >= baseline.rate * 1.1` and the latency at most doubled.
pub is_improved : TransferWindow → Baseline → Bool
is_improved w b =
    leb ((b.rate.bytes * w.elapsed_ms) * 11) ((w.bytes * b.rate.elapsed_ms) * 10)
    && leb w.mean_duration_ms (b.latency * 2)

pub end_probe :
    TransferWindow → ℕ → Baseline → AdaptiveConcurrencyPolicy → AdaptiveConcurrencyPolicy
unfolding is_improved
end_probe w now b p =
    let improved = is_improved w b in
    record p {
      current = if improved then p.current else b.limit;
      probing = false;
      baseline = none;
      steady = none;
      next_probe_at = if improved then now else now + 10000;
    }

-- `rate < steady.rate * 0.7` and a latency of more than one and a half.
pub is_degraded : TransferWindow → Option Steady → Bool
is_degraded w none = false
is_degraded w (some s) =
    ltb ((w.bytes * s.rate.elapsed_ms) * 10) ((s.rate.bytes * w.elapsed_ms) * 7)
    && ltb (s.latency * 3) (w.mean_duration_ms * 2)

pub degrade : ℕ → AdaptiveConcurrencyPolicy → AdaptiveConcurrencyPolicy
unfolding congested
degrade now p =
    let counted = record p { degraded_windows = p.degraded_windows + 1 } in
    if leb 2 counted.degraded_windows then congested now counted else counted

pub rate_of : TransferWindow → Rate
rate_of w = record { bytes = w.bytes; elapsed_ms = w.elapsed_ms }

-- A steady window, after which a larger limit may be tried.
pub settle : TransferWindow → ℕ → AdaptiveConcurrencyPolicy → AdaptiveConcurrencyPolicy
unfolding rate_of
settle w now p =
    let calm = record p {
      degraded_windows = 0;
      steady = some (record { rate = rate_of w; latency = w.mean_duration_ms });
    } in
    if ltb now p.next_probe_at || leb p.maximum p.current then calm else record calm {
      baseline =
          some (record { rate = rate_of w; latency = w.mean_duration_ms; limit = p.current });
      current = p.current + 1;
      probing = true;
    }

pub compare_steady : TransferWindow → ℕ → AdaptiveConcurrencyPolicy → AdaptiveConcurrencyPolicy
unfolding is_degraded degrade settle
compare_steady w now p = if is_degraded w p.steady then degrade now p else settle w now p

pub compare :
    TransferWindow
    → ℕ
    → Bool
    → Option Baseline
    → AdaptiveConcurrencyPolicy
    → AdaptiveConcurrencyPolicy
unfolding end_probe compare_steady
compare w now true (some b) p = end_probe w now b p
compare w now true none p = compare_steady w now p
compare w now false _ p = compare_steady w now p

unfoldable pub observe : TransferWindow → ℕ → AdaptiveConcurrencyPolicy → AdaptiveConcurrencyPolicy
unfolding compare
observe w now p =
    if eqb w.bytes 0 || eqb w.elapsed_ms 0 then p else compare w now p.probing p.baseline p
