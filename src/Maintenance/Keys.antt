-- ===== src/Maintenance/Keys.antt =====
-- The keys of a table of jobs, and the job that is read from it.
use synch.Common.{
  ℕ, ◌≡◌, refl, sym, ◌∙◌, ap, subst, String, eq_iff, eq_refl, Bool, true, false, Option, none, some,
  List, [], ◌∷◌, arith, Result, ok, err, inl, inr, Bool-cases, Option-cases, false≢true, All,
  All-map, All-select, Has, select, select-All, any,
}
use mathlib.Core.Option.{some_inj}
use synch.Storage.Table.{any-delete_where, update_where, delete_where, upsert_where}
use synch.Storage.Entries.{order_by}
use synch.Storage.Entries.Ordering.{All-order_by}
use synch.Maintenance.{
  Job, Schedule, settle, read_next_due_job, due_order, has_key, first, reschedule_job,
  reschedule_failed_job,
}
use synch.Maintenance.Drained.{is_due}

-- The key is the table's primary key.
abbrev pub HasDistinctKeys : List Job → Type 0
HasDistinctKeys [] = Unit
HasDistinctKeys (j ∷ js) = (any (has_key j.key) js ≡ false) × HasDistinctKeys js

-- The rows of a job's key are that job.
abbrev pub IsOf : Job → List Job → Type 0
IsOf job js = All (λ (x : Job). has_key job.key x ≡ true → x ≡ job) js

-- Distinct keys, after a step as before it.
delete-HasDistinctKeys :
    (q : Job → Bool) (js : List Job) → HasDistinctKeys js → HasDistinctKeys (delete_where q js)
unfolding delete_where select
delete-HasDistinctKeys q [] h = tt
delete-HasDistinctKeys q (j ∷ js) h = elim (Bool-cases (q j)) [
  | inl e ↦ rw e (delete-HasDistinctKeys q js h.1)
  | inr e ↦ rw e (any-delete_where (has_key j.key) q js h.0, delete-HasDistinctKeys q js h.1)
]

module _ (q : Job → Bool) (f : Job → Job) (keeps : (j : Job) → (f j).key ≡ j.key) where
  any-update :
      (key : String) (js : List Job)
      → any (has_key key) (update_where q f js) ≡ any (has_key key) js
  unfolding any update_where
  any-update key [] = refl
  any-update key (j ∷ js) = elim (Bool-cases (q j)) [
    | inl e ↦ rw (e, keeps j, any-update key js) refl
    | inr e ↦ rw (e, any-update key js) refl
  ]

  update-HasDistinctKeys :
      (js : List Job) → HasDistinctKeys js → HasDistinctKeys (update_where q f js)
  unfolding update_where
  update-HasDistinctKeys [] h = tt
  update-HasDistinctKeys (j ∷ js) h = elim (Bool-cases (q j)) [
    | inl e ↦ rw (e, keeps j) (any-update j.key js ∙ h.0, update-HasDistinctKeys js h.1)
    | inr e ↦ rw e (any-update j.key js ∙ h.0, update-HasDistinctKeys js h.1)
  ]

pub settle-HasDistinctKeys :
    (job : Job) (now : ℕ) (a : Result (Option ℕ)) (s : Schedule)
    → any (has_key job.key) s.jobs ≡ true
    → HasDistinctKeys s.jobs
    → HasDistinctKeys (settle job now (a, s)).jobs
unfolding reschedule_job reschedule_failed_job upsert_where
settle-HasDistinctKeys job now (ok none) s present h = delete-HasDistinctKeys _ s.jobs h
settle-HasDistinctKeys job now (ok (some next)) s present h =
    rw present (update-HasDistinctKeys _ _ (λ j. refl) s.jobs h)
settle-HasDistinctKeys job now (err e) s present h = update-HasDistinctKeys _ _ (λ j. refl) s.jobs h

any-IsOf : (job : Job) (js : List Job) → any (has_key job.key) js ≡ false → IsOf job js
unfolding any
any-IsOf job [] h = tt
any-IsOf job (x ∷ xs) h =
    ((λ k. absurd (ground (arith, h, k))), any-IsOf job xs (ground (arith, h)))

pub Has-any : (job : Job) (js : List Job) → Has (λ x. x ≡ job) js → any (has_key job.key) js ≡ true
unfolding any
Has-any job [] h = absurd h
Has-any job (x ∷ xs) (inl e) = rw e (ground (arith, eq_refl job.key))
Has-any job (x ∷ xs) (inr m) = ground (arith, Has-any job xs m)

-- A job of a table with distinct keys is the only one of its key.
pub Has-IsOf :
    (job : Job) (js : List Job) → HasDistinctKeys js → Has (λ x. x ≡ job) js → IsOf job js
Has-IsOf job [] d m = tt
Has-IsOf job (x ∷ xs) d (inl e) =
    ((λ k. e), any-IsOf job xs (subst (λ y. any (has_key y.key) xs ≡ false) e d.0))
Has-IsOf job (x ∷ xs) d (inr m) = (
  (λ k.
      let same : x.key ≡ job.key = (eq_iff x.key job.key).0 k in
      absurd (false≢true (sym d.0 ∙ ap (λ key. any (has_key key) xs) same ∙ Has-any job xs m))),
  Has-IsOf job xs d.1 m,
)

members : (js : List Job) → All (λ y. Has (λ x. x ≡ y) js) js
members [] = tt
members (j ∷ js) = (
  inl refl,
  All-map (λ y. Has (λ x. x ≡ y) js) (λ y. Has (λ x. x ≡ y) (j ∷ js)) js (λ y m. inr m)
      (members js),
)

All-both : (P Q : Job → Type 0) (js : List Job) → All P js → All Q js → All (λ j. P j × Q j) js
All-both P Q [] p q = tt
All-both P Q (j ∷ js) p q = ((p.0, q.0), All-both P Q js p.1 q.1)

first-All : (P : Job → Type 0) (js : List Job) {x : Job} → first js ≡ some x → All P js → P x
first-All P [] h a = absurd (ground (arith, h))
first-All P (j ∷ js) h a = subst P (some_inj.0 h) a.0

-- The job that is read is one of the table, and due.
pub read_next_due_job-Has :
    (now : ℕ) (js : List Job) (j : Job)
    → read_next_due_job now js ≡ some j
    → Has (λ x. x ≡ j) js × (is_due now j ≡ true)
unfolding read_next_due_job
read_next_due_job-Has now js j h =
    elim (Option-cases (first (order_by due_order (select (is_due now) js)))) [
      | inl e ↦ absurd (ground arith)
      | inr (x, e) ↦
          let same : x ≡ j = ground arith in
          subst (λ y. Has (λ x. x ≡ y) js × (is_due now y ≡ true)) same
            (first-All (λ y. Has (λ x. x ≡ y) js × (is_due now y ≡ true)) _ e
              (All-order_by due_order _ (select (is_due now) js) (
                All-both (λ y. Has (λ x. x ≡ y) js) (λ y. is_due now y ≡ true)
                  (select (is_due now) js) (All-select _ (is_due now) js (members js))
                  (select-All (is_due now) js))))
    ]
