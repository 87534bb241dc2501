-- ===== src/Maintenance/Settled.antt =====
-- What a drain makes of the table of jobs.
use synch.Common.{
  ℕ, zero, suc, ◌+◌, ◌-◌, ◌*◌, ◌≤◌, ◌≡◌, refl, sym, ◌∙◌, ap, String, true, false, Option, none,
  some, List, [], ◌∷◌, ◌++◌, arith, Result, ok, err, inl, inr, Bool-cases, Option-cases, min, All,
  select, any, if◌then◌else◌,
}
use synch.Storage.Table.{update_where, delete_where, upsert_where}
use synch.Maintenance.{
  Job, Schedule, drain, drain_jobs, rearm, settle, read_next_due_job, has_key, reschedule_job,
  reschedule_failed_job, max_drained_jobs_per_alarm, maintenance_job_due_at,
  maintenance_retry_delay_ms, power_of_2,
}
use synch.Maintenance.Drained.{
  is_due, due_count, IsKnown, AnswersLater, read_next_due_job-some, read_next_due_job-none,
  settle-due_count, settle-IsKnown, drain-none_due,
}
use synch.Maintenance.Bounds.{maintenance_retry_delay_ms-bounds, maintenance_job_due_at-bucket}
use synch.Maintenance.Keys.{
  HasDistinctKeys, IsOf, settle-HasDistinctKeys, Has-any, Has-IsOf, read_next_due_job-Has,
}

-- What is left of a job that has run: nothing, the job at its next time, or the job put off by thirty
-- seconds, doubled for every retry that it has had, but by no more than a quarter of an hour.
pub after_run : ℕ → Job → Result (Option ℕ) → List Job
after_run now j (ok none) = []
after_run now j (ok (some next)) =
    record j {
      due_at = maintenance_job_due_at j.key next;
      retry_count = 0;
      last_error_at = none;
      updated_at = now;
    }
    ∷ []
after_run now j (err e) =
    record j {
      due_at = now + min (15 * 60 * 1000) (30 * 1000 * power_of_2 j.retry_count);
      retry_count = j.retry_count + 1;
      last_error_at = some now;
      updated_at = now;
    }
    ∷ []

module _ (answers : String → Result (Option ℕ)) (now : ℕ) where
  -- Every due job has run, and the others are as they were.
  unfoldable pub run_due : List Job → List Job
  unfolding after_run
  run_due [] = []
  run_due (j ∷ js) =
      (if is_due now j then after_run now j (answers j.key) else j ∷ []) ++ run_due js

  run_due-later :
      (j : Job) (js : List Job) → is_due now j ≡ false → run_due (j ∷ js) ≡ j ∷ run_due js
  unfolding run_due
  run_due-later j js e = rw e refl

  run_due-due :
      (j : Job) (js : List Job)
      → is_due now j ≡ true
      → run_due (j ∷ js) ≡ after_run now j (answers j.key) ++ run_due js
  unfolding run_due
  run_due-due j js e = rw e refl

  run_due-cons :
      (j : Job) (js ks : List Job) → run_due js ≡ run_due ks → run_due (j ∷ js) ≡ run_due (j ∷ ks)
  unfolding run_due
  run_due-cons j js ks h =
      ap (λ xs. (if is_due now j then after_run now j (answers j.key) else j ∷ []) ++ xs) h

  run_due-none : (js : List Job) → due_count now js ≡ 0 → run_due js ≡ js
  unfolding select
  run_due-none [] h = unfold run_due in refl
  run_due-none (j ∷ js) h = elim (Bool-cases (is_due now j)) [
    | inl e ↦ absurd (ground (arith, e, h))
    | inr e ↦ run_due-later j js e ∙ ap (λ xs. j ∷ xs) (run_due-none js (ground (arith, e, h)))
  ]

maintenance_retry_delay_ms-suc :
    (n : ℕ) → maintenance_retry_delay_ms (n + 1) ≡ min (15 * 60 * 1000) (30 * 1000 * power_of_2 n)
unfolding maintenance_retry_delay_ms
maintenance_retry_delay_ms-suc n = let back : (n + 1) - 1 ≡ n = omega arith in rw back refl

module _ (answers : String → Result (Option ℕ)) (now : ℕ) (job : Job)
    (due : is_due now job ≡ true) where
  run_due-delete :
      (js : List Job)
      → answers job.key ≡ ok none
      → IsOf job js
      → run_due answers now (delete_where (has_key job.key) js) ≡ run_due answers now js
  unfolding delete_where select
  run_due-delete [] e h = refl
  run_due-delete (x ∷ xs) e h = elim (Bool-cases (has_key job.key x)) [
    | inl k ↦
        let rest = run_due-delete xs e h.1 in
        let same = h.0 k in
        let gone : run_due answers now (x ∷ xs) ≡ run_due answers now xs = rw same (
          run_due-due answers now job xs due
          ∙ ap (λ a. after_run now job a ++ run_due answers now xs) e
          ∙ unfold after_run in refl) in
        rw k (rest ∙ sym gone)
    | inr k ↦ rw k (run_due-cons answers now x _ _ (run_due-delete xs e h.1))
  ]

  run_due-update :
      (f : Job → Job) (js : List Job)
      → is_due now (f job) ≡ false
      → after_run now job (answers job.key) ≡ f job ∷ []
      → IsOf job js
      → run_due answers now (update_where (has_key job.key) f js) ≡ run_due answers now js
  unfolding update_where
  run_due-update f [] l e h = refl
  run_due-update f (x ∷ xs) l e h = elim (Bool-cases (has_key job.key x)) [
    | inl k ↦
        let rest = run_due-update f xs l e h.1 in
        let same = h.0 k in
        rw k (
          rw same (
            run_due-later answers now (f job) (update_where (has_key job.key) f xs) l
            ∙ ap (λ ys. f job ∷ ys) rest
            ∙ sym (run_due-due answers now job xs due ∙ ap (λ a. a ++ run_due answers now xs) e)))
    | inr k ↦ rw k (run_due-cons answers now x _ _ (run_due-update f xs l e h.1))
  ]

  settle-run_due :
      AnswersLater answers now
      → (s : Schedule) → any (has_key job.key) s.jobs ≡ true
      → IsOf job s.jobs
      → run_due answers now (settle job now (answers job.key, s)).jobs ≡ run_due answers now s.jobs
  unfolding reschedule_job reschedule_failed_job upsert_where
  settle-run_due later s present h = go (answers job.key) refl
    where
      go :
          (a : Result (Option ℕ))
          → answers job.key ≡ a
          → run_due answers now (settle job now (a, s)).jobs ≡ run_due answers now s.jobs
      go (ok none) e = run_due-delete s.jobs e h
      go (ok (some next)) e =
          let after = later.later job.key next e in
          let bucket = maintenance_job_due_at-bucket job.key next in
          rw present (
            run_due-update _ s.jobs (ground (arith, after, bucket.0))
              (ap (after_run now job) e ∙ unfold after_run in refl) h)
      go (err x) e =
          let delay = maintenance_retry_delay_ms-bounds (job.retry_count + 1) in
          run_due-update _ s.jobs (ground (arith, delay.0))
            (ap (after_run now job) e
              ∙ unfold after_run in rw (maintenance_retry_delay_ms-suc job.retry_count) refl)
            h

module _ (answers : String → Result (Option ℕ)) (now : ℕ) (later : AnswersLater answers now) where
  drain_jobs-run_due :
      (n : ℕ) (s : Schedule)
      → All IsKnown s.jobs
      → HasDistinctKeys s.jobs
      → due_count now s.jobs ≤ n
      → (drain_jobs n (λ key at t. (answers key, t)) now s).jobs ≡ run_due answers now s.jobs
  unfolding drain_jobs
  drain_jobs-run_due zero s k d few = sym (run_due-none answers now s.jobs (omega (arith, few)))
  drain_jobs-run_due (suc n) s k d few = elim (Option-cases (read_next_due_job now s.jobs)) [
    | inl e ↦
        rw (drain_jobs, e)
          (sym (run_due-none answers now s.jobs (read_next_due_job-none now s.jobs k e)))
    | inr (job, e) ↦
        let h = read_next_due_job-some now s.jobs {j = job} e in
        let m = read_next_due_job-Has now s.jobs job e in
        let present = Has-any job s.jobs m.0 in
        rw (drain_jobs, e)
          (drain_jobs-run_due n (settle job now (answers job.key, s))
              (settle-IsKnown answers now later job s h k)
              (settle-HasDistinctKeys job now (answers job.key) s present d)
              (omega (arith, few, settle-due_count answers now later job s h))
            ∙ settle-run_due answers now job m.1 later s present (Has-IsOf job s.jobs d m.0))
  ]

rearm_jobs : (s : Schedule) → (rearm s).jobs ≡ s.jobs
unfolding rearm
rearm_jobs s = refl

-- In a table with distinct, known keys of which at most 16 jobs are due, with handlers that leave the table
-- alone and answer, if with a next time, with a later one, a drain runs exactly the jobs that are due: a job
-- whose handler answers no next time is gone, one with a next time is due then (for the collection at
-- the end of that half hour) with no retries, and one whose handler fails stays, with one retry more and
-- put off by thirty seconds, doubled for each earlier retry, but at most by a quarter of an hour. The other
-- jobs are as they were, and then no job is due.
pub drain-run_due :
    (answers : String → Result (Option ℕ)) (now : ℕ) (s : Schedule)
    → AnswersLater answers now
    → All IsKnown s.jobs
    → HasDistinctKeys s.jobs
    → due_count now s.jobs ≤ max_drained_jobs_per_alarm
    → ((drain (λ key at t. (answers key, t)) now s).jobs ≡ run_due answers now s.jobs)
      × (due_count now (drain (λ key at t. (answers key, t)) now s).jobs ≡ 0)
unfolding drain
drain-run_due answers now s later known distinct few = (
  rearm_jobs (drain_jobs max_drained_jobs_per_alarm (λ key at t. (answers key, t)) now s)
      ∙ drain_jobs-run_due answers now later max_drained_jobs_per_alarm s known distinct few,
  drain-none_due answers now s later known few,
)
