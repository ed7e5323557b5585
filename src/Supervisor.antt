-- ===== src/Supervisor.antt =====
-- mcp_router/core/process_manager.py: the supervisor of managed processes. Each critical section
-- under the runtime's lock is one function; what the operating system, the launched service and
-- the event loop do in it is an argument.
pub mod States
pub mod Start
pub mod Loop
pub mod Restart
pub mod Drain
pub mod Logs
pub mod Probe
pub mod Readiness
mod Tests
mod ReadinessTests
use Prim.Native.String
use mcp_mux_2_0_dev.Base.{
  ℕ, zero, suc, ◌+◌, ◌-◌, ◌*◌, ◌^◌, String, Option, none, some, List, [], ◌∷◌, ◌++◌, Bool, true,
  false, ◌&&◌, ◌||◌, not, leb, ltb, nat_beq, is_some, min, if◌then◌else◌,
}
use mcp_mux_2_0_dev.Base.Int.{ℤ}
use mcp_mux_2_0_dev.Config.{
  Endpoint, remote_endpoint, managed_endpoint, base, EndpointBase, ManagedFields,
  ManagedRestartConfig,
}
use mcp_mux_2_0_dev.Runtime.{
  RuntimeState, stopped, starting, running, draining, failed, is_state, Process, Task,
  EndpointRuntime, cancel_legacy_tasks,
}

-- `is_running`
abbrev pub is_alive : Option Process → Bool
is_alive none = false
is_alive (some proc) = not (is_some proc.returncode)

unfoldable pub is_running : EndpointRuntime → Bool
is_running runtime = is_alive runtime.process

-- the task that runs the current coroutine, if it is one of the runtime's
abbrev pub CurrentTask : Type 0
CurrentTask = Option ℕ

abbrev pub is_current : CurrentTask → Task → Bool
is_current none task = false
is_current (some current) task = nat_beq task.handle current

-- `None` after the cancellation, unless the task is the current one
abbrev pub cleared : CurrentTask → Option Task → Option Task
cleared current none = none
cleared current (some task) = if is_current current task then some task else none

-- `restart_task is not current_task and not restart_task.done()`: the task is cancelled and cleared
abbrev pub cancelled_if_pending : CurrentTask → Option Task → Option Task
cancelled_if_pending current none = none
cancelled_if_pending current (some task) =
    if not (is_current current task) && not task.done then none else some task

pub data Signal : Type 0 where
  sigterm sigkill : ℕ → Signal

-- how the end of a process goes
pub data Termination : Type 0 where
  exits_in_time exits_when_killed : Termination
  -- sending the signal raises an `OSError`, which is caught and logged
  sigterm_fails sigkill_fails : Termination

-- The signals sent to a process that is to end, and whether it is known to have ended.
unfoldable pub end_process : Termination → Option Process → List Signal × Bool
end_process how none = ([], true)
end_process how (some proc) = if is_some proc.returncode then ([], true) else signalled how proc.pid
  where
    signalled : Termination → ℕ → List Signal × Bool
    signalled exits_in_time pid = (sigterm pid ∷ [], true)
    signalled exits_when_killed pid = (sigterm pid ∷ sigkill pid ∷ [], true)
    signalled sigterm_fails pid = ([], false)
    signalled sigkill_fails pid = (sigterm pid ∷ [], false)

-- `_finish_log_tasks_locked`
unfoldable pub finish_log_tasks : EndpointRuntime → EndpointRuntime
finish_log_tasks runtime = record runtime { stdout_task = none; stderr_task = none }

-- `_terminate_locked`, its effect on the runtime: it is the same whether or not the process is known
-- to have ended, so that one that could not be signalled is forgotten while it lives
unfoldable pub terminate_locked : CurrentTask → RuntimeState → EndpointRuntime → EndpointRuntime
unfolding finish_log_tasks
terminate_locked current final_state runtime =
    let finished = finish_log_tasks runtime in
    record finished {
      restart_task = cleared current runtime.restart_task;
      exit_task = cleared current runtime.exit_task;
      process = none;
      state = final_state;
    }

-- `stop_managed_server`
unfoldable pub stop_managed_server : CurrentTask → RuntimeState → EndpointRuntime → EndpointRuntime
unfolding terminate_locked
stop_managed_server current final_state runtime = terminate_locked current final_state runtime

-- the first critical section of `drain_and_stop`
unfoldable pub begin_drain : EndpointRuntime → EndpointRuntime
begin_drain runtime = record runtime { state = draining }

-- The restart policy in force: none for a remote endpoint.
abbrev pub restart_config : Endpoint → Option ManagedRestartConfig
restart_config (remote_endpoint b) = none
restart_config (managed_endpoint b m) = some m.restart

-- `restart.enabled and runtime.restart_attempts < restart.max_attempts`
abbrev pub may_restart : Option ManagedRestartConfig → ℕ → Bool
may_restart none attempts = false
may_restart (some restart) attempts = restart.enabled && ltb attempts restart.max_attempts

abbrev pub is_pending : Option Task → Bool
is_pending none = false
is_pending (some task) = not task.done

-- `_schedule_restart_if_allowed`; `handle` is the identity of the task that is created
unfoldable pub schedule_restart_if_allowed : ℕ → EndpointRuntime → EndpointRuntime
unfolding is_state
schedule_restart_if_allowed handle runtime =
    if not (is_state runtime.state failed)
    then runtime
    else if not (may_restart (restart_config runtime.config) runtime.restart_attempts)
    then runtime
    else if is_pending runtime.restart_task
    then runtime
    else record runtime { restart_task = some (record { handle = handle; done = false }) }

-- `reconcile_restart_policy`
unfoldable pub reconcile_restart_policy : ℕ → EndpointRuntime → EndpointRuntime
unfolding schedule_restart_if_allowed
reconcile_restart_policy handle runtime = schedule_restart_if_allowed handle runtime
