-- ===== src/Access/Denied.antt =====
-- A refresh never gives back what an earlier one revoked.
use text.Mathlib.TextPositions.{starts_with-append}
use text.Mathlib.Text.{starts_with}
use synch.Common.{
  ℕ, ◌+◌, ◌<◌, ◌≡◌, ◌≢◌, refl, sym, ◌∙◌, ap, subst, String, ◌==◌, eq_iff, Bool, true, false,
  false≢true, Option, none, some, List, [], ◌∷◌, ◌++◌, arith, inl, inr, Bool-cases, if◌then◌else◌,
  leb, max, find?, any, select,
}
use synch.Storage.Table.{update_where, delete_where, upsert_where}
use synch.Access.{
  SyncAccessRevocation, vault_suspension_key, user_revocation_key, has_revocation_key,
  write_revocation, delete_revocation, has_expired, prune, AccessState, is_ahead, entries_of,
  read_cache, load, denial, Grant, SyncAccessSnapshot, grant_revocation, write_grants,
  write_suspension, refresh,
}

-- A user is refused below a version, by an entry that has not expired.
pub record IsRevoked (now : ℕ) (key : String) (version : ℕ) (entries : List SyncAccessRevocation)
    : Type 0 where
  pub entry : SyncAccessRevocation
  pub found : find? (has_revocation_key key) entries ≡ some entry
  pub least_version : ℕ
  pub minimum_eq : entry.minimum_version ≡ some least_version
  pub refused : version < least_version
  pub current : now < entry.expires_at

-- The cache, where there is one, holds the stored rows.
abbrev pub SameRows : Option (List SyncAccessRevocation) → List SyncAccessRevocation → Type 0
SameRows none rows = Unit {0}
SameRows (some entries) rows = entries ≡ rows

abbrev pub IsCoherent : AccessState → Type 0
IsCoherent s = SameRows s.revocations s.rows

IsRevoked-denial :
    (now : ℕ) (user_id : String) (version : ℕ) (entries : List SyncAccessRevocation)
    → IsRevoked now (user_revocation_key user_id) version entries
    → denial user_id version entries ≢ none
unfolding denial
IsRevoked-denial now user_id version entries r h =
    elim (Bool-cases (any (has_revocation_key vault_suspension_key) entries)) [
      | inl e ↦ absurd (ground (arith, e))
      | inr e ↦ absurd (ground (arith, e, r.found, r.minimum_eq, r.refused))
    ]

module _ (key : String) (new : SyncAccessRevocation) where
  untouched :
      (xs : List SyncAccessRevocation)
      → any (has_revocation_key new.key) xs ≡ false
      → update_where (has_revocation_key new.key) (λ _. new) xs ≡ xs
  unfolding update_where any
  untouched [] h = refl
  untouched (x ∷ xs) h = ground (arith, untouched xs)

  updated :
      (xs : List SyncAccessRevocation)
      → any (has_revocation_key new.key) xs ≡ true
      → find? (has_revocation_key key) (update_where (has_revocation_key new.key) (λ _. new) xs)
        ≡ (if new.key == key then some new else find? (has_revocation_key key) xs)
  unfolding find? update_where any
  updated [] h = cc
  updated (x ∷ xs) h = elim (Bool-cases (any (has_revocation_key new.key) xs)) [
    | inl more ↦
        ground (arith, eq_iff x.key new.key, eq_iff x.key key, eq_iff new.key key, updated xs more)
    | inr last ↦
        ground
          (arith, eq_iff x.key new.key, eq_iff x.key key, eq_iff new.key key, untouched xs last)
  ]

  appended :
      (xs : List SyncAccessRevocation)
      → any (has_revocation_key new.key) xs ≡ false
      → find? (has_revocation_key key) (xs ++ new ∷ [])
        ≡ (if new.key == key then some new else find? (has_revocation_key key) xs)
  unfolding find? any
  appended [] h = refl
  appended (x ∷ xs) h =
      ground (arith, eq_iff x.key new.key, eq_iff x.key key, eq_iff new.key key, appended xs)

  find-write_revocation :
      (rows : List SyncAccessRevocation)
      → find? (has_revocation_key key) (write_revocation new rows)
        ≡ (if new.key == key then some new else find? (has_revocation_key key) rows)
  unfolding write_revocation upsert_where
  find-write_revocation rows = elim (Bool-cases (any (has_revocation_key new.key) rows)) [
    | inl e ↦ rw e (updated rows e)
    | inr e ↦ rw e (appended rows e)
  ]

-- A deletion of rows that the entry is not among.
IsRevoked-delete :
    (now : ℕ) (key : String) (version : ℕ) (p : SyncAccessRevocation → Bool)
    (rows : List SyncAccessRevocation)
    → ((x : SyncAccessRevocation) → x.key ≡ key → now < x.expires_at → p x ≡ false)
    → IsRevoked now key version rows
    → IsRevoked now key version (delete_where p rows)
unfolding find? delete_where select
IsRevoked-delete now key version p rows keep r = record {
  entry = r.entry;
  found = kept rows r.found;
  least_version = r.least_version;
  minimum_eq = r.minimum_eq;
  refused = r.refused;
  current = r.current;
}
  where
    kept :
        (xs : List SyncAccessRevocation)
        → find? (has_revocation_key key) xs ≡ some r.entry
        → find? (has_revocation_key key) (delete_where p xs) ≡ some r.entry
    kept [] h = cc
    kept (x ∷ xs) h = elim (Bool-cases (x.key == key)) [
      | inl e ↦
          let same : x ≡ r.entry = ground arith in
          let stays : p x ≡ false =
            keep x ((eq_iff x.key key).0 e)
              (subst (λ (y : SyncAccessRevocation). now < y.expires_at) (sym same) r.current) in
          rw (stays, e) (ap some same)
      | inr e ↦ elim (Bool-cases (p x)) [
        | inl f ↦ rw f (kept xs (rw e at h))
        | inr f ↦ rw (f, e) (kept xs (rw e at h))
      ]
    ]

write-IsRevoked :
    (now expires_at : ℕ) (key : String) (version : ℕ) (cached rows : List SyncAccessRevocation)
    (g : Grant)
    → IsRevoked now key version cached
    → IsRevoked now key version rows
    → IsRevoked now key version (write_revocation (grant_revocation expires_at cached g) rows)
write-IsRevoked now expires_at key version cached rows g c r =
    let new = grant_revocation expires_at cached g in
    elim (Bool-cases (new.key == key)) [
      | inl e ↦
          let same : new.key ≡ key = (eq_iff new.key key).0 e in
          let before : find? (has_revocation_key new.key) cached ≡ some c.entry = rw same c.found in
          record {
            entry = new;
            found = find-write_revocation key new rows ∙ (rw e refl);
            least_version = max g.access_version c.least_version;
            minimum_eq = rw (before, c.minimum_eq) refl;
            refused = omega (arith, c.refused);
            current = rw before (omega (arith, c.current));
          }
      | inr e ↦ record {
        entry = r.entry;
        found = find-write_revocation key new rows ∙ (rw e r.found);
        least_version = r.least_version;
        minimum_eq = r.minimum_eq;
        refused = r.refused;
        current = r.current;
      }
    ]

write_grants-IsRevoked :
    (now expires_at : ℕ) (key : String) (version : ℕ) (cached : List SyncAccessRevocation)
    (gs : List Grant) (rows : List SyncAccessRevocation)
    → IsRevoked now key version cached
    → IsRevoked now key version rows
    → IsRevoked now key version (write_grants expires_at cached gs rows)
unfolding write_grants
write_grants-IsRevoked now expires_at key version cached [] rows c r = r
write_grants-IsRevoked now expires_at key version cached (g ∷ gs) rows c r =
    elim (Bool-cases (leb g.access_version 1)) [
      | inl e ↦ rw e (write_grants-IsRevoked now expires_at key version cached gs rows c r)
      | inr e ↦ rw e (
          write_grants-IsRevoked now expires_at key version cached gs _ c
            (write-IsRevoked now expires_at key version cached rows g c r))
    ]

not_vault : (user_id : String) → (vault_suspension_key == user_revocation_key user_id) ≡ false
unfolding user_revocation_key
not_vault user_id = elim (Bool-cases (vault_suspension_key == user_revocation_key user_id)) [
  | inr e ↦ e
  | inl e ↦ absurd (
      false≢true (
        ap (λ k. starts_with k "user:")
          ((eq_iff vault_suspension_key (user_revocation_key user_id)).0 e)
        ∙ starts_with-append "user:" user_id))
]

write_suspension-IsRevoked :
    (suspended : Bool) (now expires_at : ℕ) (user_id : String) (version : ℕ)
    (rows : List SyncAccessRevocation)
    → IsRevoked now (user_revocation_key user_id) version rows
    → IsRevoked now
        (user_revocation_key user_id)
        version
        (write_suspension suspended expires_at rows)
unfolding delete_revocation
write_suspension-IsRevoked true now expires_at user_id version rows r = record {
  entry = r.entry;
  found =
      find-write_revocation (user_revocation_key user_id) _ rows ∙ (rw (not_vault user_id) r.found);
  least_version = r.least_version;
  minimum_eq = r.minimum_eq;
  refused = r.refused;
  current = r.current;
}
write_suspension-IsRevoked false now expires_at user_id version rows r =
    IsRevoked-delete now (user_revocation_key user_id) version
      (has_revocation_key vault_suspension_key) rows
      (λ x same alive. ground (
        arith,
        same,
        not_vault user_id,
        eq_iff x.key vault_suspension_key,
        eq_iff vault_suspension_key (user_revocation_key user_id),
      ))
      r

read_cache-rows :
    (s : AccessState)
    → IsCoherent s
    → ((read_cache s).revocations ≡ some (read_cache s).rows) × ((read_cache s).rows ≡ s.rows)
unfolding read_cache
read_cache-rows s h = go s.revocations refl
  where
    go :
        (c : Option (List SyncAccessRevocation))
        → s.revocations ≡ c
        → ((read_cache s).revocations ≡ some (read_cache s).rows) × ((read_cache s).rows ≡ s.rows)
    go none e = rw (read_cache, e) (refl, refl)
    go (some entries) e =
        let same : SameRows (some entries) s.rows = subst (λ c. SameRows c s.rows) e h in
        rw (read_cache, e) (e ∙ ap some same, refl)

-- A cache that is loaded holds the rows, and keeps what has not expired.
record Loaded (now : ℕ) (key : String) (version : ℕ) (s t : AccessState) : Type 0 where
  pub cached : t.revocations ≡ some t.rows
  pub kept : IsRevoked now key version s.rows → IsRevoked now key version t.rows

load-Loaded :
    (now : ℕ) (key : String) (version : ℕ) (s : AccessState)
    → IsCoherent s
    → Loaded now key version s (load now s)
unfolding load prune
load-Loaded now key version s h =
    let (cached, rows) = read_cache-rows s h in
    elim (Bool-cases (is_ahead (read_cache s).next_expiry now)) [
      | inl e ↦
          rw (load, e)
            (record { cached = cached; kept = λ r. subst (IsRevoked now key version) (sym rows) r })
      | inr e ↦
          rw (load, e)
            (record {
              cached = rw cached refl;
              kept = λ r.
                  IsRevoked-delete now key version (has_expired now) (read_cache s).rows
                    (λ x same alive. ground (arith, alive))
                    (subst (IsRevoked now key version) (sym rows) r);
            })
    ]

-- A user whom an entry refuses below some version when a refresh begins is refused below it when the refresh
-- has ended, whatever the snapshot says: its grants can only raise the version, and lifting the vault's
-- suspension leaves the users' entries alone.
pub refresh-IsRevoked :
    (now lifetime : ℕ) (snapshot : SyncAccessSnapshot) (s : AccessState) (user_id : String)
    (version : ℕ)
    → IsCoherent s
    → IsRevoked now (user_revocation_key user_id) version (entries_of (load now s))
    → (denial user_id version (entries_of (refresh now lifetime snapshot s)) ≢ none)
      × IsRevoked now
          (user_revocation_key user_id)
          version
          (entries_of (refresh now lifetime snapshot s))
unfolding refresh
refresh-IsRevoked now lifetime snapshot s user_id version h r =
    let key = user_revocation_key user_id in
    let loaded = load-Loaded now key version s h in
    let entries = entries_of (load now s) in
    let same : entries ≡ (load now s).rows = rw loaded.cached refl in
    let stored : IsRevoked now key version (load now s).rows =
      subst (IsRevoked now key version) same r in
    let granted =
      write_grants-IsRevoked now (now + lifetime) key version entries snapshot.grants
        (load now s).rows r stored in
    let written =
      write_suspension-IsRevoked snapshot.suspended now (now + lifetime) user_id version _
        granted in
    let next : AccessState = record (load now s) {
      rows =
          write_suspension snapshot.suspended (now + lifetime)
            (write_grants (now + lifetime) entries snapshot.grants (load now s).rows);
      revocations = none;
    } in
    let again = load-Loaded now key version next tt in
    let final : IsRevoked now key version (entries_of (load now next)) =
      rw again.cached (again.kept written) in
    (IsRevoked-denial now user_id version (entries_of (load now next)) final, final)
