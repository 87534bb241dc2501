-- ===== src/Maintenance/Drained.antt =====
-- A drain runs every job that is due.
use synch.Common.{
  ℕ, zero, suc, ◌+◌, ◌≤◌, ◌<◌, ◌≡◌, refl, sym, ◌∙◌, ap, subst, String, eq_refl, Bool, true, ◌&&◌,
  Option, none, some, List, [], ◌∷◌, arith, Result, ok, err, inl, inr, Bool-cases, Option-cases,
  leb, All, All-select, select, length, any,
}
use synch.Storage.Table.{update_where, delete_where, upsert_where, All-update_where}
use synch.Storage.Entries.{order_by}
use synch.Storage.Entries.Ordering.{All-order_by, any-order_by, length-order_by}
use synch.Maintenance.{
  Job, Schedule, Handlers, drain, drain_jobs, rearm, settle, read_next_due_job, due_order, has_key,
  first, is_maintenance_job_key, reschedule_job, reschedule_failed_job, max_drained_jobs_per_alarm,
}
use synch.Maintenance.Bounds.{maintenance_retry_delay_ms-bounds, maintenance_job_due_at-bucket}

abbrev pub is_due : ℕ → Job → Bool
is_due now j = leb j.due_at now

abbrev pub due_count : ℕ → List Job → ℕ
due_count now js = length (select (is_due now) js)

abbrev pub IsKnown : Job → Type 0
IsKnown j = is_maintenance_job_key j.key ≡ true

-- A due job of a key is there.
abbrev pub HasDue : ℕ → String → List Job → Type 0
HasDue now key js = any (λ j. has_key key j && is_due now j) js ≡ true

due_count-delete_le :
    (now : ℕ) (key : String) (js : List Job)
    → due_count now (delete_where (has_key key) js) ≤ due_count now js
unfolding select delete_where
due_count-delete_le now key [] = omega arith
due_count-delete_le now key (j ∷ js) = ground (arith, due_count-delete_le now key js)

due_count-delete :
    (now : ℕ) (key : String) (js : List Job)
    → HasDue now key js
    → due_count now (delete_where (has_key key) js) < due_count now js
unfolding select delete_where any
due_count-delete now key [] h = cc
due_count-delete now key (j ∷ js) h =
    ground (arith, due_count-delete now key js, due_count-delete_le now key js)

module _ (now : ℕ) (key : String) (f : Job → Job) (later : (j : Job) → now < (f j).due_at) where
  due_count-update_le :
      (js : List Job) → due_count now (update_where (has_key key) f js) ≤ due_count now js
  unfolding select update_where
  due_count-update_le [] = omega arith
  due_count-update_le (j ∷ js) = ground (arith, later j, due_count-update_le js)

  due_count-update :
      (js : List Job)
      → HasDue now key js
      → due_count now (update_where (has_key key) f js) < due_count now js
  unfolding select update_where any
  due_count-update [] h = cc
  due_count-update (j ∷ js) h = ground (arith, later j, due_count-update js, due_count-update_le js)

first-any :
    (p : Job → Bool) (js : List Job) {j : Job} → first js ≡ some j → p j ≡ true → any p js ≡ true
unfolding any
first-any p [] e t = cc
first-any p (x ∷ xs) {j} e t = let same : x ≡ j = ground arith in ground (arith, ap p same, t)

any-select : (p q : Job → Bool) (js : List Job) → any p (select q js) ≡ any (λ j. p j && q j) js
unfolding any select
any-select p q [] = refl
any-select p q (j ∷ js) = ground (arith, any-select p q js)

-- The job that is read is one of the table, and due.
pub read_next_due_job-some :
    (now : ℕ) (js : List Job) {j : Job} → read_next_due_job now js ≡ some j → HasDue now j.key js
unfolding read_next_due_job
read_next_due_job-some now js {j} h =
    elim (Option-cases (first (order_by due_order (select (is_due now) js)))) [
      | inl e ↦ absurd (ground arith)
      | inr (x, e) ↦ elim (Bool-cases (is_maintenance_job_key x.key)) [
        | inr k ↦ absurd (ground arith)
        | inl k ↦
            let same : x ≡ j = ground arith in
            let here =
              first-any (has_key x.key) (order_by due_order (select (is_due now) js)) {j = x} e
                (eq_refl x.key) in
            subst (λ y. HasDue now y.key js) same
              (sym (any-select (has_key x.key) (is_due now) js)
                ∙ sym (any-order_by due_order (has_key x.key) (select (is_due now) js))
                ∙ here)
      ]
    ]

-- If none is read, and all keys are known, none is due.
pub read_next_due_job-none :
    (now : ℕ) (js : List Job)
    → All IsKnown js
    → read_next_due_job now js ≡ none
    → due_count now js ≡ 0
unfolding read_next_due_job
read_next_due_job-none now js k h = go (order_by due_order (select (is_due now) js)) refl
  where
    go : (xs : List Job) → order_by due_order (select (is_due now) js) ≡ xs → due_count now js ≡ 0
    go [] e = sym (length-order_by due_order (select (is_due now) js)) ∙ ap length e
    go (x ∷ xs) e =
        let known : All IsKnown (x ∷ xs) =
          subst (All IsKnown) e
            (All-order_by due_order IsKnown _ (All-select IsKnown (is_due now) js k)) in
        absurd (ground (arith, known.0))

-- Handlers that leave the table to the scheduler, and answer with later times.
pub record AnswersLater (answers : String → Result (Option ℕ)) (now : ℕ) : Type 0 where
  pub later : (key : String) (next : ℕ) → answers key ≡ ok (some next) → now < next

module _ (answers : String → Result (Option ℕ)) (now : ℕ) (later : AnswersLater answers now) where
  abbrev handlers : Handlers
  handlers key at s = (answers key, s)

  pub settle-due_count :
      (job : Job) (s : Schedule)
      → HasDue now job.key s.jobs
      → due_count now (settle job now (answers job.key, s)).jobs < due_count now s.jobs
  unfolding reschedule_job reschedule_failed_job upsert_where any
  settle-due_count job s h = go (answers job.key) refl
    where
      present : (js : List Job) → HasDue now job.key js → any (has_key job.key) js ≡ true
      present [] h = cc
      present (j ∷ js) h = ground (arith, present js)

      go :
          (a : Result (Option ℕ))
          → answers job.key ≡ a
          → due_count now (settle job now (a, s)).jobs < due_count now s.jobs
      go (ok none) e = due_count-delete now job.key s.jobs h
      go (ok (some next)) e =
          let after = later.later job.key next e in
          let bucket = maintenance_job_due_at-bucket job.key next in
          rw (present s.jobs h)
            (due_count-update now job.key _ (λ j. omega (arith, after, bucket.0)) s.jobs h)
      go (err x) e =
          let delay = maintenance_retry_delay_ms-bounds (job.retry_count + 1) in
          due_count-update now job.key _ (λ j. omega (arith, delay.0)) s.jobs h

  pub settle-IsKnown :
      (job : Job) (s : Schedule)
      → HasDue now job.key s.jobs
      → All IsKnown s.jobs
      → All IsKnown (settle job now (answers job.key, s)).jobs
  unfolding reschedule_job reschedule_failed_job upsert_where delete_where any
  settle-IsKnown job s h k = go (answers job.key)
    where
      present : (js : List Job) → HasDue now job.key js → any (has_key job.key) js ≡ true
      present [] h = cc
      present (j ∷ js) h = ground (arith, present js)

      go : (a : Result (Option ℕ)) → All IsKnown (settle job now (a, s)).jobs
      go (ok none) = All-select IsKnown _ s.jobs k
      go (ok (some next)) =
          rw (present s.jobs h) (All-update_where IsKnown (has_key job.key) _ s.jobs (λ j q _. q) k)
      go (err x) = All-update_where IsKnown (has_key job.key) _ s.jobs (λ j q _. q) k

  drain_jobs-due_count :
      (n : ℕ) (s : Schedule)
      → All IsKnown s.jobs
      → due_count now s.jobs ≤ n
      → due_count now (drain_jobs n handlers now s).jobs ≡ 0
  unfolding drain_jobs
  drain_jobs-due_count zero s k few = omega (arith, few)
  drain_jobs-due_count (suc n) s k few = elim (Option-cases (read_next_due_job now s.jobs)) [
    | inl e ↦ rw (drain_jobs, e) (read_next_due_job-none now s.jobs k e)
    | inr (job, e) ↦
        let h = read_next_due_job-some now s.jobs {j = job} e in
        rw (drain_jobs, e)
          (drain_jobs-due_count n (settle job now (answers job.key, s)) (settle-IsKnown job s h k)
            (omega (arith, few, settle-due_count job s h)))
  ]

rearm_jobs : (s : Schedule) → (rearm s).jobs ≡ s.jobs
unfolding rearm
rearm_jobs s = refl

-- If at most 16 jobs of known keys are due, and each handler that answers with a next time answers with a
-- later one and leaves the table alone, then no job is due after a drain.
pub drain-none_due :
    (answers : String → Result (Option ℕ)) (now : ℕ) (s : Schedule)
    → AnswersLater answers now
    → All IsKnown s.jobs
    → due_count now s.jobs ≤ max_drained_jobs_per_alarm
    → due_count now (drain (λ key at t. (answers key, t)) now s).jobs ≡ 0
unfolding drain
drain-none_due answers now s later known few =
    rw (rearm_jobs (drain_jobs max_drained_jobs_per_alarm (λ key at t. (answers key, t)) now s))
      (drain_jobs-due_count answers now later max_drained_jobs_per_alarm s known few)
