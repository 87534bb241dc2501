-- ===== src/Maintenance/Armed.antt =====
-- The alarm rings no later than the first job is due.
use synch.Common.{
  ℕ, ◌≤◌, ◌≡◌, refl, ◌∙◌, subst, String, ◌==◌, eq_refl, Bool, Option, none, some, List, [], ◌∷◌,
  arith, inl, inr, Bool-cases, Option-cases, leb, ltb, min, All, All-map, find?,
}
use synch.Storage.Table.{update_where, upsert_where, find?-any, any-find?, find?-append}
use synch.Storage.Entries.{order_by}
use synch.Storage.Entries.Ordering.{All-order_by-from, IsFirst, IsFirst-order_by}
use synch.Maintenance.{
  Job, Schedule, Handlers, rearm, ensure_armed, defer, drain, drain_jobs, read_next_due_at,
  due_only_order, has_key, read_job, maintenance_job_due_at, first, due_of, fresh_job,
  is_maintenance_job_key, max_drained_jobs_per_alarm,
}

-- The alarm is set, and for no later than the job is due.
abbrev pub Covers : Option ℕ → Job → Type 0
Covers none j = ⊥
Covers (some at) j = at ≤ j.due_at

abbrev pub IsArmed : Schedule → Type 0
IsArmed s = All (Covers s.alarm) s.jobs

next_due-Covers : (js : List Job) → All (Covers (read_next_due_at js)) js
unfolding read_next_due_at
next_due-Covers js =
    All-order_by-from due_only_order _ js (ordered (order_by due_only_order js) least)
  where
    least : IsFirst due_only_order (λ (a b : Job). a.due_at ≤ b.due_at) (order_by due_only_order js)
    least =
        IsFirst-order_by due_only_order (λ (a b : Job). a.due_at ≤ b.due_at) (λ a. omega arith)
          (λ a b c p q. omega (arith, p, q)) (λ a b h. ground (arith, h))
          (λ a b h. ground (arith, h)) js

    ordered :
        (xs : List Job)
        → IsFirst due_only_order (λ (a b : Job). a.due_at ≤ b.due_at) xs
        → All (Covers (due_of (first xs))) xs
    ordered [] h = tt
    ordered (x ∷ xs) h = h

rearm_jobs : (s : Schedule) → (rearm s).jobs ≡ s.jobs
unfolding rearm
rearm_jobs s = refl

pub rearm-IsArmed : (s : Schedule) → IsArmed (rearm s)
unfolding rearm
rearm-IsArmed s = next_due-Covers s.jobs

-- However the handlers answer, fail or defer jobs: when a drain has ended the alarm rings no later than the
-- first of the jobs that are left is due.
pub drain-IsArmed : (handlers : Handlers) (now : ℕ) (s : Schedule) → IsArmed (drain handlers now s)
unfolding drain
drain-IsArmed handlers now s = rearm-IsArmed (drain_jobs max_drained_jobs_per_alarm handlers now s)

-- Whatever alarm a restart finds, `ensureArmed` leaves one that rings no later than the first job is due.
pub ensure_armed-IsArmed : (s : Schedule) → IsArmed (ensure_armed s)
unfolding ensure_armed
ensure_armed-IsArmed s = go (read_next_due_at s.jobs) refl s.alarm refl
  where
    covers : (n : Option ℕ) → read_next_due_at s.jobs ≡ n → All (Covers n) s.jobs
    covers n e = subst (λ x. All (Covers x) s.jobs) e (next_due-Covers s.jobs)

    go :
        (n : Option ℕ)
        → read_next_due_at s.jobs ≡ n
        → (a : Option ℕ) → s.alarm ≡ a
        → IsArmed (ensure_armed s)
    go none e a f = rw (ensure_armed, e) (All-map _ _ s.jobs (λ j h. absurd h) (covers none e))
    go (some next) e none f = rw (ensure_armed, e, f) (covers (some next) e)
    go (some next) e (some at) f = elim (Bool-cases (ltb next at)) [
      | inl l ↦ rw (ensure_armed, e, f, l) (covers (some next) e)
      | inr l ↦
          rw (ensure_armed, e, f, l)
            (All-map _ _ s.jobs (λ j h. ground (arith, l, h)) (covers (some next) e))
    ]

find?-deferred :
    (key : String) (scheduled now : ℕ) (js : List Job) {j : Job}
    → find? (has_key key) js ≡ some j
    → (k : Job) × (find? (has_key key) (
          update_where
            (has_key key)
            (λ x. record x { due_at = min x.due_at scheduled; updated_at = now })
            js)
        ≡ some k)
      × (k.due_at ≤ scheduled)
unfolding find? update_where
find?-deferred key scheduled now [] {j} h = cc
find?-deferred key scheduled now (x ∷ xs) {j} h = elim (Bool-cases (x.key == key)) [
  | inl e ↦
      (record x { due_at = min x.due_at scheduled; updated_at = now }, rw (e, e) refl, omega arith)
  | inr e ↦
      let (k, f, l) = find?-deferred key scheduled now xs {j = j} (rw e at h) in (k, rw (e, e) f, l)
]

covered_job :
    (p : Job → Bool) (alarm : Option ℕ) (js : List Job) {j : Job}
    → All (Covers alarm) js
    → find? p js ≡ some j
    → Covers alarm j
unfolding find?
covered_job p alarm [] h e = cc
covered_job p alarm (x ∷ xs) {j} h e = elim (Bool-cases (p x)) [
  | inl t ↦ let same : x ≡ j = ground arith in subst (Covers alarm) same h.0
  | inr t ↦ covered_job p alarm xs {j = j} h.1 (rw t at e)
]

-- The alarm is set for a time or before.
abbrev pub RingsBy : Option ℕ → ℕ → Type 0
RingsBy none due = ⊥
RingsBy (some at) due = at ≤ due

rings : (alarm : Option ℕ) (j : Job) (due : ℕ) → Covers alarm j → j.due_at ≤ due → RingsBy alarm due
rings none j due c l = c
rings (some at) j due c l = omega (arith, c, l)

read_job-find? :
    (key : String) (js : List Job) {j : Job}
    → read_job key js ≡ some j
    → find? (has_key key) js ≡ some j
unfolding read_job
read_job-find? key js {j} h = elim (Option-cases (find? (has_key key) js)) [
  | inl e ↦ absurd (ground arith)
  | inr (x, e) ↦ elim (Bool-cases (is_maintenance_job_key x.key)) [
    | inl k ↦ e ∙ (rw (read_job, e, k) at h)
    | inr k ↦ absurd (no (rw (read_job, e, k) at h))
  ]
]
  where
    no : ◌≡◌ {A = Option Job} none (some j) → ⊥
    no q = cc

-- The deferred job stands in the table, due by the time that it is deferred to.
deferred_job :
    (key : String) (scheduled now : ℕ) (js : List Job)
    → (k : Job) × (find? (has_key key) (
          upsert_where
            (has_key key)
            (fresh_job key scheduled now)
            (λ x. record x { due_at = min x.due_at scheduled; updated_at = now })
            js)
        ≡ some k)
      × (k.due_at ≤ scheduled)
unfolding upsert_where find?
deferred_job key scheduled now js = elim (Option-cases (find? (has_key key) js)) [
  | inl e ↦ (
    fresh_job key scheduled now,
    rw
        (
          find?-any (has_key key) js e,
          find?-append (has_key key) js (fresh_job key scheduled now ∷ []) e,
          eq_refl key,
        )
        refl,
    omega arith,
  )
  | inr (j, e) ↦
      let (k, f, l) = find?-deferred key scheduled now js {j = j} e in
      (k, rw (any-find? (has_key key) js {x = j} e).0 f, l)
]

-- Deferring a job keeps the alarm no later than any job, and has it ring by the deferred time, which the
-- collection rounds up to a half hour, whether or not the job was there already.
pub defer-IsArmed :
    (key : String) (due_at now : ℕ) (s : Schedule)
    → IsArmed s
    → IsArmed (defer key due_at now s)
      × RingsBy (defer key due_at now s).alarm (maintenance_job_due_at key due_at)
unfolding defer
defer-IsArmed key due_at now s h = go (read_job key s.jobs) refl
  where
    scheduled : ℕ
    scheduled = maintenance_job_due_at key due_at

    deferred : Schedule
    deferred = record s {
      jobs =
          upsert_where (has_key key) (fresh_job key scheduled now)
            (λ j. record j { due_at = min j.due_at scheduled; updated_at = now }) s.jobs;
    }

    written : IsArmed (rearm deferred) × RingsBy (rearm deferred).alarm scheduled
    written =
        let armed = rearm-IsArmed deferred in
        let covered = rw (rearm_jobs deferred) at armed in
        let (k, f, l) = deferred_job key scheduled now s.jobs in
        (
          armed,
          rings (rearm deferred).alarm k scheduled
              (covered_job (has_key key) (rearm deferred).alarm deferred.jobs {j = k} covered f) l,
        )

    go :
        (o : Option Job)
        → read_job key s.jobs ≡ o
        → IsArmed (defer key due_at now s) × RingsBy (defer key due_at now s).alarm scheduled
    go none e = rw (defer, e) written
    go (some j) e = elim (Bool-cases (leb j.due_at scheduled)) [
      | inl l ↦
          rw (defer, e, l)
            (
              h,
              rings s.alarm j scheduled
                  (covered_job (has_key key) s.alarm s.jobs {j = j} h
                    (read_job-find? key s.jobs {j = j} e))
                  (ground (arith, l)),
            )
      | inr l ↦ rw (defer, e, l) written
    ]
