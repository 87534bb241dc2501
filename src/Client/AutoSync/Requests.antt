-- ===== src/Client/AutoSync/Requests.antt =====
-- No requested work is lost, and none is left behind.
use synch.Common.{
  ℕ, ◌+◌, ◌≤◌, ◌≡◌, refl, true, false, Option, none, some, List, [], ◌∷◌, All, subst, sym, arith,
}
use synch.Client.AutoSync.{
  PendingSyncWork, request_push, request_pull, has_pending_work, take_pending_work,
}

pub data Request : Type 0 where
  pushes : Request
  pulls : Option ℕ → Request

unfoldable pub request_all : List Request → PendingSyncWork → PendingSyncWork
unfolding request_push request_pull
request_all [] work = work
request_all (pushes ∷ rs) work = request_all rs (request_push work)
request_all (pulls target ∷ rs) work = request_all rs (request_pull target work)

-- The work has a target of at least the cursor.
abbrev Reaches : Option ℕ → ℕ → Type 0
Reaches none cursor = cursor + 1 ≤ 0
Reaches (some target) cursor = cursor ≤ target

abbrev pub Covers : PendingSyncWork → Request → Type 0
Covers work pushes = work.push ≡ true
Covers work (pulls none) = Reaches work.pull_target_cursor 0
Covers work (pulls (some cursor)) = Reaches work.pull_target_cursor cursor

request_pull-Reaches :
    (target : Option ℕ) (work : PendingSyncWork) (cursor : ℕ)
    → Reaches work.pull_target_cursor cursor
    → Reaches (request_pull target work).pull_target_cursor cursor
request_pull-Reaches target work cursor h = go target work.pull_target_cursor h
  where
    go :
        (t p : Option ℕ)
        → Reaches p cursor
        → Reaches
            (request_pull t (record work { pull_target_cursor = p })).pull_target_cursor
            cursor
    go none none h = absurd (omega (arith, h))
    go none (some n) h = unfold request_pull in h
    go (some m) none h = absurd (omega (arith, h))
    go (some m) (some n) h = unfold request_pull in omega (arith, h)

-- A request covers what it asks for, and keeps what is covered.
request-Covers : (r : Request) (work : PendingSyncWork) → Covers (request_all (r ∷ []) work) r
unfolding request_all
request-Covers pushes work = unfold request_push in refl
request-Covers (pulls none) work = unfold request_pull in omega arith
request-Covers (pulls (some n)) work = unfold request_pull in omega arith

push-kept :
    (r : Request) (work : PendingSyncWork)
    → work.push ≡ true
    → (request_all (r ∷ []) work).push ≡ true
unfolding request_all
push-kept pushes work h = unfold request_push in refl
push-kept (pulls none) work h = unfold request_pull in h
push-kept (pulls (some n)) work h = unfold request_pull in h

request-kept :
    (r s : Request) (work : PendingSyncWork) → Covers work r → Covers (request_all (s ∷ []) work) r
request-kept pushes s work h = push-kept s work h
request-kept (pulls none) pushes work h = unfold request_all in unfold request_push in h
request-kept (pulls none) (pulls t) work h = unfold request_all in request_pull-Reaches t work 0 h
request-kept (pulls (some n)) pushes work h = unfold request_all in unfold request_push in h
request-kept (pulls (some n)) (pulls t) work h =
    unfold request_all in request_pull-Reaches t work n h

request_all-cons :
    (r : Request) (rs : List Request) (work : PendingSyncWork)
    → request_all (r ∷ rs) work ≡ request_all rs (request_all (r ∷ []) work)
unfolding request_all
request_all-cons pushes rs work = refl
request_all-cons (pulls t) rs work = refl

request_all-kept :
    (r : Request) (rs : List Request) (work : PendingSyncWork)
    → Covers work r
    → Covers (request_all rs work) r
request_all-kept r [] work h = unfold request_all in h
request_all-kept r (s ∷ rs) work h =
    subst (λ w. Covers w r) (sym (request_all-cons s rs work))
      (request_all-kept r rs (request_all (s ∷ []) work) (request-kept r s work h))

request_all-Covers :
    (rs : List Request) (work : PendingSyncWork) → All (Covers (request_all rs work)) rs
request_all-Covers [] work = tt
request_all-Covers (r ∷ rs) work =
    subst (λ w. All (Covers w) (r ∷ rs)) (sym (request_all-cons r rs work))
      (
        request_all-kept r rs (request_all (r ∷ []) work) (request-Covers r work),
        request_all-Covers rs (request_all (r ∷ []) work),
      )

-- The work that is taken after any requests has a push if one was requested, and a target at or beyond
-- every cursor that was requested; behind it no work is pending.
pub take_pending_work-Covers :
    (rs : List Request) (work : PendingSyncWork)
    → All (Covers (take_pending_work (request_all rs work)).0) rs
      × (has_pending_work (take_pending_work (request_all rs work)).1 ≡ false)
unfolding take_pending_work has_pending_work
take_pending_work-Covers rs work = (request_all-Covers rs work, refl)
