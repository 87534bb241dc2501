-- ===== src/Maintenance/Bounds.antt =====
-- The delay before a failed job is tried again, and the half hours of the collection's job.
use synch.Common.{
  ℕ, zero, suc, ◌+◌, ◌-◌, ◌≤◌, ◌<◌, ◌≡◌, ap, String, ◌==◌, not, arith, inl, inr, Bool-cases,
}
use synch.Maintenance.{
  maintenance_job_due_at, maintenance_retry_delay_ms, power_of_2, maintenance_retry_max_ms,
  maintenance_retry_min_ms, blob_gc_alarm_bucket_ms,
}

power_of_2-positive : (n : ℕ) → 1 ≤ power_of_2 n
power_of_2-positive zero = omega arith
power_of_2-positive (suc n) = omega (arith, power_of_2-positive n)

add_sub_one : (n : ℕ) → (n + 1) - 1 ≡ n
add_sub_one n = omega arith

suc_sub_one : (n : ℕ) → suc n - 1 ≡ n
suc_sub_one n = omega arith

power_of_2-step : (n : ℕ) → power_of_2 (n - 1) ≤ power_of_2 n
power_of_2-step zero = omega arith
power_of_2-step (suc n) = omega (arith, power_of_2-positive n, ap power_of_2 (suc_sub_one n))

-- The delay before a failed job is tried again is at least 30 seconds and at most 15 minutes, and does
-- not fall from one failure to the next.
pub maintenance_retry_delay_ms-bounds :
    (n : ℕ)
    → (maintenance_retry_min_ms ≤ maintenance_retry_delay_ms n)
      × (maintenance_retry_delay_ms n ≤ maintenance_retry_max_ms)
      × (maintenance_retry_delay_ms n ≤ maintenance_retry_delay_ms (n + 1))
unfolding maintenance_retry_delay_ms
maintenance_retry_delay_ms-bounds n = (
  omega (arith, power_of_2-positive (n - 1)),
  omega arith,
  omega (arith, power_of_2-step n, ap power_of_2 (add_sub_one n)),
)

-- A job is put off to no earlier time than asked for, and by less than a half hour.
pub maintenance_job_due_at-bucket :
    (key : String) (due_at : ℕ)
    → (due_at ≤ maintenance_job_due_at key due_at)
      × (maintenance_job_due_at key due_at < due_at + blob_gc_alarm_bucket_ms)
unfolding maintenance_job_due_at
maintenance_job_due_at-bucket key due_at = elim (Bool-cases (not (key == "blob_gc"))) [
  | inl e ↦ rw (maintenance_job_due_at, e) (omega arith, omega arith)
  | inr e ↦ rw (maintenance_job_due_at, e) (omega arith, omega arith)
]
