-- ===== src/Client/ConflictFile.antt =====
-- The names of conflict copies, packages/sync-client/src/sync/core/conflict-file.ts. The formatted time is
-- a parameter. The loop over attempts takes fuel.
use Prim.Native.Char.{code}
use Prim.Native.Nat.{◌/◌, ◌%◌}
use Prim.Native.String.{◌++◌ as ◌<>◌}
use synch.Common.{
  ℕ, zero, suc, ◌+◌, ◌<◌, ◌≡◌, refl, String, Bool, false, Bool-cases, Option, none, some, ◌==◌, ltb,
  eqb, if◌then◌else◌, arith, inl, inr,
}

-- What stands before and behind the last occurrence of a character, `lastIndexOf` and `slice`.
pub split_at_last : ℕ → String → Option (String × String)
split_at_last c String.[] = none
split_at_last c (String.◌∷◌ d s) = elim (split_at_last c s) [
  | some (before, after) ↦ some (String.◌∷◌ d before, after)
  | none ↦ if eqb (code d) c then some ("", s) else none
]

pub digit : ℕ → String
digit n =
    if eqb n 0
    then "0"
    else if eqb n 1
    then "1"
    else if eqb n 2
    then "2"
    else if eqb n 3
    then "3"
    else if eqb n 4
    then "4"
    else if eqb n 5
    then "5"
    else if eqb n 6
    then "6"
    else if eqb n 7
    then "7"
    else if eqb n 8
    then "8"
    else "9"

-- The decimal text of a number below ten to the fuel.
pub decimal : ℕ → ℕ → String
unfolding digit
decimal zero n = ""
decimal (suc fuel) n =
    let rest = decimal fuel (n / 10) in if ltb n 10 then digit n else rest <> digit (n % 10)

-- `parent ? `${parent}/` : ""`
pub folder_prefix : String → String
folder_prefix parent = if parent == "" then "" else parent <> "/"

-- The stem and the extension of a file's name; a dot in front of the name begins no extension.
pub stem_and_extension : String → Option (String × String) → String × String
stem_and_extension name none = (name, "")
stem_and_extension name (some (before, after)) =
    if before == "" then (name, "") else (before, "." <> after)

pub attempt_suffix : ℕ → String
unfolding decimal
attempt_suffix attempt = if eqb attempt 0 then "" else "-" <> decimal (attempt + 2) (attempt + 1)

pub named_copy : String → String → String → ℕ → String
unfolding folder_prefix stem_and_extension attempt_suffix split_at_last
named_copy parent name timestamp attempt =
    let (stem, extension) = stem_and_extension name (split_at_last b'.' name) in
    folder_prefix parent
    <> (stem <> (".sync-conflict-" <> (timestamp <> (attempt_suffix attempt <> extension))))

pub copy_of : String → Option (String × String) → String → ℕ → String
unfolding named_copy
copy_of path none timestamp attempt = named_copy "" path timestamp attempt
copy_of path (some (parent, name)) timestamp attempt = named_copy parent name timestamp attempt

unfoldable pub build_conflict_copy_path : String → String → ℕ → String
unfolding copy_of split_at_last
build_conflict_copy_path path timestamp attempt =
    copy_of path (split_at_last b'/' path) timestamp attempt

module _ (exists : String → Bool) (path timestamp : String) where
  -- `none` is an end of the fuel.
  pub first_free : ℕ → ℕ → Option String
  first_free zero attempt = none
  first_free (suc fuel) attempt =
      let later = first_free fuel (attempt + 1) in
      let candidate = build_conflict_copy_path path timestamp attempt in
      if exists candidate then later else some candidate

  unfoldable pub get_available_conflict_copy_path : ℕ → Option String
  unfolding first_free
  get_available_conflict_copy_path fuel = first_free fuel 0

  first_free-not_taken :
      (fuel attempt : ℕ) {p : String} → first_free fuel attempt ≡ some p → exists p ≡ false
  unfolding first_free
  first_free-not_taken zero attempt h = absurd (ground arith)
  first_free-not_taken (suc fuel) attempt {p} h =
      elim (Bool-cases (exists (build_conflict_copy_path path timestamp attempt))) [
        | inl e ↦ first_free-not_taken fuel (attempt + 1) {p = p} (ground arith)
        | inr e ↦ ground arith
      ]

  -- A path that is found is free.
  pub get_available_conflict_copy_path-not_taken :
      (fuel : ℕ) {p : String} → get_available_conflict_copy_path fuel ≡ some p → exists p ≡ false
  unfolding get_available_conflict_copy_path
  get_available_conflict_copy_path-not_taken fuel h = first_free-not_taken fuel 0 h

  first_free-found :
      (fuel attempt more : ℕ)
      → exists (build_conflict_copy_path path timestamp (attempt + more)) ≡ false
      → more < fuel
      → (p : String) × (first_free fuel attempt ≡ some p)
  unfolding first_free
  first_free-found zero attempt more free h = absurd (omega arith)
  first_free-found (suc fuel) attempt zero free h =
      let here : attempt + 0 ≡ attempt = omega arith in
      (build_conflict_copy_path path timestamp attempt, rw (rw here at free) refl)
  first_free-found (suc fuel) attempt (suc more) free h =
      elim (Bool-cases (exists (build_conflict_copy_path path timestamp attempt))) [
        | inl e ↦
            let same : attempt + suc more ≡ attempt + 1 + more = omega arith in
            rw e (first_free-found fuel (attempt + 1) more (rw same at free) (omega arith))
        | inr e ↦ (build_conflict_copy_path path timestamp attempt, rw e refl)
      ]

  -- If some attempt's path is free, fuel for that many attempts finds a path.
  pub get_available_conflict_copy_path-found :
      (fuel attempt : ℕ)
      → exists (build_conflict_copy_path path timestamp attempt) ≡ false
      → attempt < fuel
      → (p : String) × (get_available_conflict_copy_path fuel ≡ some p)
  unfolding get_available_conflict_copy_path
  get_available_conflict_copy_path-found fuel attempt free h =
      let same : 0 + attempt ≡ attempt = omega arith in
      first_free-found fuel 0 attempt (rw same free) h

copy_of_note :
    build_conflict_copy_path "notes/day.one.md" "20260102-030405" 11
    ≡ "notes/day.one.sync-conflict-20260102-030405-12.md"
unfolding build_conflict_copy_path
copy_of_note = refl
