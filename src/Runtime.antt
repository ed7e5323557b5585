-- ===== src/Runtime.antt =====
-- mcp_router/core/runtime.py: the operational state of one endpoint, and the leases that upstream
-- requests hold on it. Each method runs under the runtime's condition lock, as one step.
pub mod Leases
mod Tests
use mcp_mux_2_0_dev.Base.{
  ℕ, ◌+◌, ◌-◌, String, Option, none, some, List, [], ◌∷◌, Bool, true, false, ◌&&◌, ◌||◌, not, leb,
  nat_beq, filter, if◌then◌else◌,
}
use mcp_mux_2_0_dev.Base.Int.{ℤ}
use mcp_mux_2_0_dev.Config.{Endpoint, base, is_managed}

pub data RuntimeState : Type 0 where
  stopped starting running draining failed : RuntimeState

unfoldable pub is_state : RuntimeState → RuntimeState → Bool
is_state stopped stopped = true
is_state starting starting = true
is_state running running = true
is_state draining draining = true
is_state failed failed = true
is_state _ _ = false

-- A subprocess: its object identity, its process id, and its exit code once it is known.
pub record Process : Type 0 where
  pub handle : ℕ
  pub pid : ℕ
  pub returncode : Option ℤ

-- An asyncio task: its object identity, and whether it is done.
pub record Task : Type 0 where
  pub handle : ℕ
  pub done : Bool

pub record EndpointRuntime : Type 0 where
  pub config : Endpoint
  pub state : RuntimeState
  pub process : Option Process
  pub stdout_task : Option Task
  pub stderr_task : Option Task
  pub exit_task : Option Task
  pub restart_task : Option Task
  pub active_leases : ℕ
  pub last_completed_activity : ℕ
  pub last_exit_code : Option ℤ
  pub failure_reason : Option String
  pub restart_attempts : ℕ
  pub process_restarts_total : ℕ
  pub legacy_session_ids : List String
  pub legacy_tasks : List Task

-- `EndpointRuntime.from_config`; `now` is the default of `last_completed_activity`
unfoldable pub from_config : Endpoint → ℕ → EndpointRuntime
from_config config now = record {
  config = config;
  state = if is_managed config then stopped else running;
  process = none;
  stdout_task = none;
  stderr_task = none;
  exit_task = none;
  restart_task = none;
  active_leases = 0;
  last_completed_activity = now;
  last_exit_code = none;
  failure_reason = none;
  restart_attempts = 0;
  process_restarts_total = 0;
  legacy_session_ids = [];
  legacy_tasks = [];
}

pub record UpstreamLease : Type 0 where
  pub released : Bool

pub data LeaseResult : Type 0 where
  -- RuntimeUnavailableError
  unavailable : String → RuntimeState → LeaseResult
  granted : UpstreamLease → EndpointRuntime → LeaseResult

unfoldable pub acquire_lease : EndpointRuntime → LeaseResult
unfolding is_state
acquire_lease runtime =
    if is_state runtime.state draining || is_state runtime.state failed
    then unavailable (base runtime.config).path runtime.state
    else if is_managed runtime.config && not (is_state runtime.state running)
    then unavailable (base runtime.config).path runtime.state
    else granted (record { released = false })
        (record runtime { active_leases = runtime.active_leases + 1 })

-- `_release_lease`
unfoldable pub release_lease : ℕ → EndpointRuntime → EndpointRuntime
release_lease now runtime =
    if leb runtime.active_leases 0
    then runtime
    else record runtime { active_leases = runtime.active_leases - 1; last_completed_activity = now }

-- `UpstreamLease.release`
unfoldable pub release : ℕ → UpstreamLease → EndpointRuntime → UpstreamLease × EndpointRuntime
unfolding release_lease
release now lease runtime =
    if lease.released
    then (lease, runtime)
    else (record lease { released = true }, release_lease now runtime)

unfoldable pub track_legacy_task : Task → EndpointRuntime → EndpointRuntime
track_legacy_task task runtime = record runtime { legacy_tasks = task ∷ runtime.legacy_tasks }

-- the done callback: `legacy_tasks.discard(task)`
unfoldable pub discard_legacy_task : ℕ → EndpointRuntime → EndpointRuntime
discard_legacy_task handle runtime = record runtime {
  legacy_tasks = filter (λ (t : Task). not (nat_beq t.handle handle)) runtime.legacy_tasks;
}

-- The tasks that are cancelled, and the runtime after all have ended.
unfoldable pub cancel_legacy_tasks : EndpointRuntime → List Task × EndpointRuntime
cancel_legacy_tasks runtime =
    (filter (λ (t : Task). not t.done) runtime.legacy_tasks, record runtime { legacy_tasks = [] })
