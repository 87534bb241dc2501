-- ===== src/Maintenance/Examples.antt =====
-- The theorems on background jobs at a schedule of two jobs.
use synch.Common.{
  ℕ, ◌≡◌, refl, String, ◌==◌, Option, none, some, [], ◌∷◌, arith, Result, ok, err, invalid_token,
  if◌then◌else◌, select, any,
}
use synch.Maintenance.{Schedule, drain, fresh_job}
use synch.Maintenance.Armed.{IsArmed, drain-IsArmed}
use synch.Maintenance.Drained.{AnswersLater, due_count}
use synch.Maintenance.Settled.{run_due, drain-run_due}

abbrev schedule : Schedule
schedule = record {
  jobs = fresh_job "blob_gc" 1800000 5 ∷ fresh_job "health_summary_flush" 700000 5 ∷ [];
  alarm = some 700000;
}

-- The collection is done for now; the summary's flush fails.
abbrev answers : String → Result (Option ℕ)
answers key = if key == "blob_gc" then ok none else err invalid_token

drain-IsArmed_example : IsArmed (drain (λ key at s. (answers key, s)) 2000000 schedule)
drain-IsArmed_example = drain-IsArmed (λ key at s. (answers key, s)) 2000000 schedule

answers-AnswersLater : AnswersLater answers 2000000
answers-AnswersLater = record { later = λ key next h. absurd (never key next h) }
  where
    never : (key : String) (next : ℕ) → answers key ≡ ok (some next) → ⊥
    never key next h = ground arith

drain-run_due_example :
    ((drain (λ key at t. (answers key, t)) 2000000 schedule).jobs
      ≡ run_due answers 2000000 schedule.jobs)
    × (due_count 2000000 (drain (λ key at t. (answers key, t)) 2000000 schedule).jobs ≡ 0)
unfolding select any
drain-run_due_example =
    drain-run_due answers 2000000 schedule answers-AnswersLater (refl, (refl, tt))
      (refl, (refl, tt)) (omega arith)

-- The collection is done, the flush is put off by thirty seconds.
flush_put_off :
    run_due answers 2000000 schedule.jobs
    ≡ record (fresh_job "health_summary_flush" 2030000 2000000) {
      retry_count = 1;
      last_error_at = some 2000000;
    }
      ∷ []
unfolding run_due
flush_put_off = refl
