-- ===== src/Client/AutoSync.antt =====
-- The state of a client's sync loop, packages/sync-client/src/sync/engine/auto-sync-work-queue.ts and
-- auto-sync-state.ts. A change that is reported is returned beside the state.
pub mod Examples
pub mod Requests
use synch.Common.{ℕ, max, Bool, true, false, ◌||◌, Option, none, some, or_else, is_some}

pub record PendingSyncWork : Type 0 where
  pub push : Bool
  pub pull_target_cursor : Option ℕ

pub request_push : PendingSyncWork → PendingSyncWork
request_push work = record work { push = true }

-- Without a target the server is asked for its own.
pub request_pull : Option ℕ → PendingSyncWork → PendingSyncWork
request_pull none work = record work {
  pull_target_cursor = some (or_else work.pull_target_cursor 0);
}
request_pull (some target_cursor) work = record work {
  pull_target_cursor = some (max (or_else work.pull_target_cursor 0) target_cursor);
}

pub has_pending_work : PendingSyncWork → Bool
has_pending_work work = work.push || is_some work.pull_target_cursor

pub clear : PendingSyncWork
clear = record { push = false; pull_target_cursor = none }

-- The work, and the queue behind it.
pub take_pending_work : PendingSyncWork → PendingSyncWork × PendingSyncWork
unfolding clear
take_pending_work work = (work, clear)

pub data SyncLoopState : Type 0 where
  stopped : SyncLoopState
  connecting : SyncLoopState
  live : SyncLoopState
  draining : SyncLoopState
  retry_wait : SyncLoopState
  reconnect_wait : SyncLoopState

pub data SyncConnectionState : Type 0 where
  is_connecting : SyncConnectionState
  is_live : SyncConnectionState
  is_reconnecting : SyncConnectionState

pub is_active : SyncLoopState → Bool
is_active stopped = false
is_active connecting = true
is_active live = true
is_active draining = true
is_active retry_wait = true
is_active reconnect_wait = true

-- The connection state that a change from one state to another reports.
pub reported : SyncLoopState → SyncLoopState → Option SyncConnectionState
reported connecting connecting = none
reported stopped connecting = some is_connecting
reported live connecting = some is_connecting
reported draining connecting = some is_connecting
reported retry_wait connecting = some is_connecting
reported reconnect_wait connecting = some is_connecting
reported reconnect_wait reconnect_wait = none
reported stopped reconnect_wait = some is_reconnecting
reported connecting reconnect_wait = some is_reconnecting
reported live reconnect_wait = some is_reconnecting
reported draining reconnect_wait = some is_reconnecting
reported retry_wait reconnect_wait = some is_reconnecting
reported connecting live = some is_live
reported reconnect_wait live = some is_live
reported _ _ = none

pub set : SyncLoopState → SyncLoopState → SyncLoopState × Option SyncConnectionState
unfolding reported
set state previous = (state, reported previous state)
