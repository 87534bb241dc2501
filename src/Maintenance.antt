-- ===== src/Maintenance.antt =====
-- adapters/outbound/scheduler/maintenance-scheduler.ts: background jobs behind the object's one alarm.
-- The error texts of failed jobs (`last_error`) are left out; the code only writes them.
pub mod Bounds
pub mod Armed
pub mod Drained
pub mod Keys
pub mod Settled
pub mod Examples
use synch.Common.{
  ℕ, zero, suc, ◌+◌, ◌-◌, ◌*◌, ◌/◌, String, ◌==◌, Bool, true, false, not, ◌&&◌, ◌||◌, Option, none,
  some, List, [], ◌∷◌, Error, Result, ok, err, if◌then◌else◌, leb, ltb, eqb, min, select, find?,
}
use synch.Storage.Table.{update_where, delete_where, upsert_where}
use synch.Storage.Entries.{order_by, le_text}

pub record Job : Type 0 where
  pub key : String
  pub due_at : ℕ
  pub retry_count : ℕ
  pub updated_at : ℕ
  pub last_error_at : Option ℕ

-- The table of jobs and the alarm that is set.
pub record Schedule : Type 0 where
  pub jobs : List Job
  pub alarm : Option ℕ

abbrev pub max_drained_jobs_per_alarm : ℕ
max_drained_jobs_per_alarm = 16

abbrev pub maintenance_retry_min_ms : ℕ
maintenance_retry_min_ms = 30 * 1000

abbrev pub maintenance_retry_max_ms : ℕ
maintenance_retry_max_ms = 15 * 60 * 1000

abbrev pub blob_gc_alarm_bucket_ms : ℕ
blob_gc_alarm_bucket_ms = 30 * 60 * 1000

abbrev pub is_maintenance_job_key : String → Bool
is_maintenance_job_key key = key == "blob_gc" || key == "health_summary_flush"

abbrev pub power_of_2 : ℕ → ℕ
power_of_2 zero = 1
power_of_2 (suc n) = 2 * power_of_2 n

unfoldable pub maintenance_retry_delay_ms : ℕ → ℕ
maintenance_retry_delay_ms retry_count =
    min maintenance_retry_max_ms (maintenance_retry_min_ms * power_of_2 (retry_count - 1))

-- `Math.ceil(dueAt / bucket) * bucket` for the collection's job.
unfoldable pub maintenance_job_due_at : String → ℕ → ℕ
maintenance_job_due_at key due_at =
    if not (key == "blob_gc")
    then due_at
    else (due_at + (blob_gc_alarm_bucket_ms - 1))
      / blob_gc_alarm_bucket_ms
      * blob_gc_alarm_bucket_ms

abbrev pub has_key : String → Job → Bool
has_key key j = j.key == key

-- ORDER BY due_at ASC, key ASC
abbrev pub due_order : Job → Job → Bool
due_order a b = ltb a.due_at b.due_at || (eqb a.due_at b.due_at && le_text a.key b.key)

-- ORDER BY due_at ASC
abbrev pub due_only_order : Job → Job → Bool
due_only_order a b = leb a.due_at b.due_at

abbrev pub first {ℓ} : {A : Type ℓ} → List A → Option A
first [] = none
first (x ∷ xs) = some x

-- A row whose key is of no known job is read as no job.
abbrev pub known_job : Option Job → Option Job
known_job none = none
known_job (some j) = if is_maintenance_job_key j.key then some j else none

unfoldable pub read_next_due_job : ℕ → List Job → Option Job
unfolding order_by
read_next_due_job now jobs =
    known_job (first (order_by due_order (select (λ j. leb j.due_at now) jobs)))

abbrev pub due_of : Option Job → Option ℕ
due_of none = none
due_of (some j) = some j.due_at

unfoldable pub read_next_due_at : List Job → Option ℕ
unfolding order_by
read_next_due_at jobs = due_of (first (order_by due_only_order jobs))

unfoldable pub read_job : String → List Job → Option Job
read_job key jobs = known_job (find? (has_key key) jobs)

-- The alarm afterwards is the earliest due time, or none.
unfoldable pub rearm : Schedule → Schedule
unfolding read_next_due_at
rearm s = record s { alarm = read_next_due_at s.jobs }

abbrev pub is_later : Option ℕ → ℕ → Bool
is_later none next = true
is_later (some at) next = ltb next at

unfoldable pub ensure_armed : Schedule → Schedule
unfolding read_next_due_at
ensure_armed s = elim (read_next_due_at s.jobs) [
  | none ↦ s
  | some next ↦ if is_later s.alarm next then record s { alarm = some next } else s
]

abbrev pub fresh_job : String → ℕ → ℕ → Job
fresh_job key due_at now = record {
  key = key;
  due_at = due_at;
  retry_count = 0;
  updated_at = now;
  last_error_at = none;
}

abbrev pub already_due : Option Job → ℕ → Bool
already_due none due_at = false
already_due (some j) due_at = leb j.due_at due_at

unfoldable pub defer : String → ℕ → ℕ → Schedule → Schedule
unfolding rearm maintenance_job_due_at read_job
defer key due_at now s =
    let scheduled = maintenance_job_due_at key due_at in
    if already_due (read_job key s.jobs) scheduled
    then s
    else rearm (record s {
      jobs =
          upsert_where (has_key key) (fresh_job key scheduled now)
            (λ j. record j { due_at = min j.due_at scheduled; updated_at = now }) s.jobs;
    })

abbrev pub delete_job : String → List Job → List Job
delete_job key jobs = delete_where (has_key key) jobs

unfoldable pub reschedule_job : String → ℕ → ℕ → List Job → List Job
unfolding maintenance_job_due_at
reschedule_job key due_at now jobs =
    let scheduled = maintenance_job_due_at key due_at in
    upsert_where (has_key key) (fresh_job key scheduled now)
      (λ j. record j {
        due_at = scheduled;
        retry_count = 0;
        last_error_at = none;
        updated_at = now;
      })
      jobs

unfoldable pub reschedule_failed_job : Job → ℕ → List Job → List Job
unfolding maintenance_retry_delay_ms
reschedule_failed_job job now jobs =
    let retry_count = job.retry_count + 1 in
    update_where (has_key job.key)
      (λ j. record j {
        due_at = now + maintenance_retry_delay_ms retry_count;
        retry_count = retry_count;
        last_error_at = some now;
        updated_at = now;
      })
      jobs

-- What a handler answers at `now`: the next time that it is due, if any, or a failure. It may defer
-- jobs itself, so it takes the schedule and returns it.
abbrev pub Handlers : Type 0
Handlers = String → ℕ → Schedule → Result (Option ℕ) × Schedule

abbrev pub settle : Job → ℕ → Result (Option ℕ) × Schedule → Schedule
settle job now (ok none, s) = record s { jobs = delete_job job.key s.jobs }
settle job now (ok (some next), s) = record s { jobs = reschedule_job job.key next now s.jobs }
settle job now (err e, s) = record s { jobs = reschedule_failed_job job now s.jobs }

-- The loop, for as many rounds as `n`.
unfoldable pub drain_jobs : ℕ → Handlers → ℕ → Schedule → Schedule
drain_jobs zero handlers now s = s
drain_jobs (suc n) handlers now s = elim (read_next_due_job now s.jobs) [
  | none ↦ s
  | some job ↦ drain_jobs n handlers now (settle job now (handlers job.key now s))
]

unfoldable pub drain : Handlers → ℕ → Schedule → Schedule
unfolding rearm drain_jobs
drain handlers now s = rearm (drain_jobs max_drained_jobs_per_alarm handlers now s)
