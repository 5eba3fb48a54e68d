-- ===== src/Sync/Reloader.antt =====
-- packages/gateway-core/src/runtime-sync/reloader.ts: the class `GatewayConfigReloader`. Between
-- two awaits its methods run without a break, so each such stretch is one function of the state;
-- publishing the status and logging change nothing here.
use api_gateway_platform.Common.{ℕ, max, leb, ltb, String, ◌≡◌, Option, none, some, if◌then◌else◌}

pub data SyncState : Type 0 where
  applied_state loading_state error_state : SyncState

-- `activeReload`: none, or a promise, and how far it is: a round for the target version that awaits
-- its snapshot; a round that has ended and reports the status before the loop is tested again; or a
-- loop that has ended, whose `finally` callback, a microtask of its own, has not run.
pub data ActiveReload : Type 0 where
  idle : ActiveReload
  loading : ℕ → ActiveReload
  reporting : ActiveReload
  leaving : ActiveReload

pub record Reloader : Type 0 where
  pub applied_version : ℕ
  pub requested_version : ℕ
  pub active_reload : ActiveReload
  pub last_applied_at : ℕ
  pub last_error : Option String
  pub state : SyncState

-- The constructor.
unfoldable pub create_reloader : ℕ → ℕ → Reloader
create_reloader initial_version now = record {
  applied_version = initial_version;
  requested_version = initial_version;
  active_reload = idle;
  last_applied_at = now;
  last_error = none;
  state = applied_state;
}

-- The test of the loop of `drainReloads`, and the start of a round or the end of the loop.
unfoldable pub begin_round : Reloader → Reloader
begin_round s =
    if ltb s.applied_version s.requested_version
    then record s {
      active_reload = loading s.requested_version;
      state = loading_state;
      last_error = none;
    }
    else record s { active_reload = leaving }

-- `.finally(() => { this.activeReload = null; })`
unfoldable pub settle : Reloader → Reloader
settle s = record s { active_reload = idle }

-- The snapshot of the round was loaded and applied.
unfoldable pub finish_round : ℕ → ℕ → Reloader → Reloader
finish_round target_version now s = record s {
  applied_version = target_version;
  active_reload = reporting;
  last_applied_at = now;
  state = applied_state;
}

-- Loading or applying the snapshot threw.
unfoldable pub fail_round : String → Reloader → Reloader
fail_round error s = record s {
  requested_version = s.applied_version;
  active_reload = reporting;
  state = error_state;
  last_error = some error;
}

-- `if (!this.activeReload)`
unfoldable pub start_if_idle : ActiveReload → Reloader → Reloader
unfolding begin_round
start_if_idle idle s = begin_round s
start_if_idle (loading _) s = s
start_if_idle reporting s = s
start_if_idle leaving s = s

unfoldable pub request_reload : ℕ → Reloader → Reloader
unfolding start_if_idle
request_reload version s =
    let asked = record s { requested_version = max s.requested_version version } in
    if leb version s.applied_version then s else start_if_idle s.active_reload asked

-- `reconcile` requests the latest version; where reading it throws, it keeps the error.
unfoldable pub fail_reconcile : String → Reloader → Reloader
fail_reconcile error s = record s { state = error_state; last_error = some error }

-- What can happen to a reloader between two awaits.
pub data Step : Reloader → Reloader → Type 0 where
  requested : (version : ℕ) (s : Reloader) → Step s (request_reload version s)
  finished :
      (now target : ℕ) (s : Reloader)
      → s.active_reload ≡ loading target
      → Step s (finish_round target now s)
  failed :
      (error : String) (target : ℕ) (s : Reloader)
      → s.active_reload ≡ loading target
      → Step s (fail_round error s)
  reported : (s : Reloader) → s.active_reload ≡ reporting → Step s (begin_round s)
  settled : (s : Reloader) → s.active_reload ≡ leaving → Step s (settle s)
  unreachable : (error : String) (s : Reloader) → Step s (fail_reconcile error s)

pub data Steps : Reloader → Reloader → Type 0 where
  none_left : {s : Reloader} → Steps s s
  one_more : {s t u : Reloader} → Step s t → Steps t u → Steps s u
