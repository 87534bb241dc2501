-- ===== src/Client/AutoSync/Examples.antt =====
-- A queue that is asked for two pulls and a push.
use synch.Common.{◌≡◌, refl, some, none, List, [], ◌∷◌, All, true, false}
use synch.Client.AutoSync.{clear, take_pending_work, has_pending_work}
use synch.Client.AutoSync.Requests.{
  Request, pushes, pulls, request_all, Covers, take_pending_work-Covers,
}

abbrev requests : List Request
requests = pulls (some 7) ∷ pushes ∷ pulls (some 4) ∷ pulls none ∷ []

taken :
    (take_pending_work (request_all requests clear)).0
    ≡ record { push = true; pull_target_cursor = some 7 }
unfolding take_pending_work request_all clear
taken = refl

take_pending_work-Covers_example :
    All (Covers (take_pending_work (request_all requests clear)).0) requests
    × (has_pending_work (take_pending_work (request_all requests clear)).1 ≡ false)
take_pending_work-Covers_example = take_pending_work-Covers requests clear
