-- ===== src/Access.antt =====
-- application/services/sync-access-service.ts and adapters/outbound/sqlite/sync-access-store.ts: who is
-- refused access to a vault, until the tokens that were issued before have expired.
pub mod Denied
pub mod Examples
use Prim.Native.String.{◌++◌ as str_append}
use synch.Common.{
  ℕ, ◌+◌, String, ◌==◌, Bool, true, false, not, ◌&&◌, Option, none, some, List, [], ◌∷◌,
  if◌then◌else◌, ltb, leb, max, or_else, find?, any, select, is_some,
}
use synch.Domain.BlobGcPolicy.{minimum}
use synch.Storage.Table.{delete_where, upsert_where}

-- A row of sync_access_revocations; a null version is a suspension of the whole vault.
pub record SyncAccessRevocation : Type 0 where
  pub key : String
  pub minimum_version : Option ℕ
  pub expires_at : ℕ

abbrev pub vault_suspension_key : String
vault_suspension_key = "vault"

unfoldable pub user_revocation_key : String → String
user_revocation_key user_id = str_append "user:" user_id

abbrev pub has_revocation_key : String → SyncAccessRevocation → Bool
has_revocation_key key r = r.key == key

unfoldable pub write_revocation :
    SyncAccessRevocation → List SyncAccessRevocation → List SyncAccessRevocation
write_revocation entry rows = upsert_where (has_revocation_key entry.key) entry (λ _. entry) rows

unfoldable pub delete_revocation : String → List SyncAccessRevocation → List SyncAccessRevocation
delete_revocation key rows = delete_where (has_revocation_key key) rows

abbrev pub has_expired : ℕ → SyncAccessRevocation → Bool
has_expired now r = leb r.expires_at now

unfoldable pub prune : ℕ → List SyncAccessRevocation → List SyncAccessRevocation
prune now rows = delete_where (has_expired now) rows

-- The stored rows, the service's `Map` of them (its keys are the rows', which differ), and the
-- earliest expiry, where `none` stands for Infinity.
pub record AccessState : Type 0 where
  pub rows : List SyncAccessRevocation
  pub revocations : Option (List SyncAccessRevocation)
  pub next_expiry : Option ℕ

abbrev pub expiry_times : List SyncAccessRevocation → List ℕ
expiry_times [] = []
expiry_times (r ∷ rs) = r.expires_at ∷ expiry_times rs

abbrev pub least : List ℕ → Option ℕ
least [] = none
least (d ∷ ds) = some (minimum d ds)

unfoldable pub earliest_expiry : List SyncAccessRevocation → Option ℕ
unfolding minimum
earliest_expiry entries = least (expiry_times entries)

-- `nextExpiry > now`
abbrev pub is_ahead : Option ℕ → ℕ → Bool
is_ahead none now = true
is_ahead (some at) now = ltb now at

abbrev pub entries_of : AccessState → List SyncAccessRevocation
entries_of s = or_else s.revocations []

unfoldable pub read_cache : AccessState → AccessState
unfolding earliest_expiry
read_cache s = elim s.revocations [
  | none ↦ record s { revocations = some s.rows; next_expiry = earliest_expiry s.rows }
  | some entries ↦ s
]

abbrev pub drop_expired : ℕ → AccessState → AccessState
drop_expired now s =
    let kept = delete_where (has_expired now) (entries_of s) in
    record { rows = prune now s.rows; revocations = some kept; next_expiry = earliest_expiry kept }

unfoldable pub load : ℕ → AccessState → AccessState
unfolding read_cache
load now s =
    let cached = read_cache s in
    if is_ahead cached.next_expiry now then cached else drop_expired now cached

pub data Denial : Type 0 where
  sharing_suspended vault_access_denied : Denial

abbrev pub below : ℕ → Option SyncAccessRevocation → Bool
below version none = false
below version (some r) = elim r.minimum_version [ none ↦ false | some m ↦ ltb version m ]

unfoldable pub denial : String → ℕ → List SyncAccessRevocation → Option Denial
denial user_id version entries =
    if any (has_revocation_key vault_suspension_key) entries
    then some sharing_suspended
    else if below version (find? (has_revocation_key (user_revocation_key user_id)) entries)
    then some vault_access_denied
    else none

-- `require`, after its own check whether sync is allowed.
unfoldable pub require_access : String → ℕ → ℕ → AccessState → Option Denial × AccessState
unfolding load
require_access user_id version now s =
    let loaded = load now s in (denial user_id version (entries_of loaded), loaded)

pub record Grant : Type 0 where
  pub user_id : String
  pub access_version : ℕ

pub record SyncAccessSnapshot : Type 0 where
  pub suspended : Bool
  pub grants : List Grant

abbrev pub version_of : Option SyncAccessRevocation → ℕ
version_of none = 0
version_of (some r) = or_else r.minimum_version 0

abbrev pub expiry_of : Option SyncAccessRevocation → ℕ
expiry_of none = 0
expiry_of (some r) = r.expires_at

abbrev pub grant_revocation : ℕ → List SyncAccessRevocation → Grant → SyncAccessRevocation
grant_revocation expires_at cached g =
    let previous = find? (has_revocation_key (user_revocation_key g.user_id)) cached in
    record {
      key = user_revocation_key g.user_id;
      minimum_version = some (max g.access_version (version_of previous));
      expires_at = max expires_at (expiry_of previous);
    }

-- The loop over the grants; versions up to 1 were never revoked.
unfoldable pub write_grants :
    ℕ
    → List SyncAccessRevocation
    → List Grant
    → List SyncAccessRevocation
    → List SyncAccessRevocation
write_grants expires_at cached [] rows = rows
write_grants expires_at cached (g ∷ gs) rows = write_grants expires_at cached gs (
    if leb g.access_version 1
    then rows
    else write_revocation (grant_revocation expires_at cached g) rows)

abbrev pub write_suspension : Bool → ℕ → List SyncAccessRevocation → List SyncAccessRevocation
write_suspension true expires_at rows =
    write_revocation
      (record { key = vault_suspension_key; minimum_version = none; expires_at = expires_at }) rows
write_suspension false expires_at rows = delete_revocation vault_suspension_key rows

-- `refresh` once its snapshot is read; the rest runs without waiting, at one time `now`.
unfoldable pub refresh : ℕ → ℕ → SyncAccessSnapshot → AccessState → AccessState
unfolding load write_grants
refresh now token_lifetime_ms snapshot s =
    let loaded = load now s in
    let expires_at = now + token_lifetime_ms in
    let granted = write_grants expires_at (entries_of loaded) snapshot.grants loaded.rows in
    load now (record loaded {
      rows = write_suspension snapshot.suspended expires_at granted;
      revocations = none;
    })

pub record ConnectedSession : Type 0 where
  pub connection_id : String
  pub user_id : String
  pub access_version : Option ℕ

-- The connections that `closeDeniedSockets` closes.
unfoldable pub denied_connections :
    List SyncAccessRevocation → List ConnectedSession → List ConnectedSession
unfolding denial
denied_connections entries sessions =
    select (λ c. is_some (denial c.user_id (or_else c.access_version 1) entries)) sessions
