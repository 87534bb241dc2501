-- ===== src/Access/Examples.antt =====
-- The theorem on access at a suspended vault with one revoked user.
use synch.Common.{◌≢◌, refl, false, none, some, [], ◌∷◌, arith, find?}
use synch.Domain.BlobGcPolicy.{minimum}
use synch.Access.{
  AccessState, user_revocation_key, entries_of, read_cache, load, denial, refresh, earliest_expiry,
}
use synch.Access.Denied.{IsRevoked, refresh-IsRevoked}

-- Nothing is cached yet; tokens of Ann before version 3 are refused until 5000.
abbrev access : AccessState
access = record {
  rows =
      record { key = "vault"; minimum_version = none; expires_at = 5000 }
      ∷ record { key = "user:ann"; minimum_version = some 3; expires_at = 5000 }
      ∷ [];
  revocations = none;
  next_expiry = none;
}

ann-IsRevoked : IsRevoked 100 (user_revocation_key "ann") 2 (entries_of (load 100 access))
unfolding load read_cache user_revocation_key find? earliest_expiry minimum
ann-IsRevoked = record {
  entry = record { key = "user:ann"; minimum_version = some 3; expires_at = 5000 };
  found = refl;
  least_version = 3;
  minimum_eq = refl;
  refused = omega arith;
  current = omega arith;
}

-- The suspension is lifted, and the snapshot grants Ann version 2.
refresh-IsRevoked_example :
    (denial "ann" 2 (
        entries_of (
          refresh 100 600
            (record {
              suspended = false;
              grants = record { user_id = "ann"; access_version = 2 } ∷ [];
            })
            access))
      ≢ none)
    × IsRevoked 100 (user_revocation_key "ann") 2 (
        entries_of (
          refresh 100 600
            (record {
              suspended = false;
              grants = record { user_id = "ann"; access_version = 2 } ∷ [];
            })
            access))
refresh-IsRevoked_example =
    refresh-IsRevoked 100 600
      (record { suspended = false; grants = record { user_id = "ann"; access_version = 2 } ∷ [] })
      access "ann" 2 tt ann-IsRevoked
