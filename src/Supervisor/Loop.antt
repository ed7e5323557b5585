-- ===== src/Supervisor/Loop.antt =====
-- mcp_router/core/process_manager.py: the exit monitor and the restart loop.

use mcp_mux_2_0_dev.Base.{
  ℕ, zero, suc, ◌+◌, ◌-◌, ◌*◌, ◌^◌, String, Option, none, some, Bool, false, ◌&&◌, ◌||◌, not, ltb,
  nat_beq, min, if◌then◌else◌,
}
use mcp_mux_2_0_dev.Base.Int.{ℤ}
use mcp_mux_2_0_dev.Config.{ManagedRestartConfig}
use mcp_mux_2_0_dev.Runtime.{stopped, draining, failed, is_state, Process, Task, EndpointRuntime}
use mcp_mux_2_0_dev.Supervisor.{
  CurrentTask, finish_log_tasks, is_current, may_restart, restart_config,
  schedule_restart_if_allowed,
}
use mcp_mux_2_0_dev.Supervisor.Start.{
  Launch, NewTasks, StartResult, not_managed, start_locked, url, was_cancelled,
}

abbrev pub same_process : Process → Option Process → Bool
same_process proc none = false
same_process proc (some p) = nat_beq p.handle proc.handle

-- `_monitor_exit`, once the process has ended with the code; `message` is the failure reason
unfoldable pub monitor_exit : ℕ → Process → ℤ → String → EndpointRuntime → EndpointRuntime
unfolding schedule_restart_if_allowed finish_log_tasks
monitor_exit handle proc returncode message runtime =
    if not (same_process proc runtime.process)
    then runtime
    else let ended =
        finish_log_tasks
          (record runtime { last_exit_code = some returncode; process = none; exit_task = none }) in
      if is_state runtime.state draining || is_state runtime.state stopped
      then ended
      else schedule_restart_if_allowed handle
          (record ended { state = failed; failure_reason = some message })

-- `_restart_delay`, in nanoseconds
unfoldable pub restart_delay : ManagedRestartConfig → ℕ → ℕ
restart_delay restart attempt =
    min (restart.initial_backoff * 2 ^ (attempt - 1)) restart.max_backoff

abbrev pub reserve :
    Option ManagedRestartConfig → EndpointRuntime → Option (ℕ × ℕ) × EndpointRuntime
reserve none runtime = (none, runtime)
reserve (some restart) runtime =
    let attempt = runtime.restart_attempts + 1 in
    if is_state runtime.state failed && may_restart (some restart) runtime.restart_attempts
    then (
      some (attempt, restart_delay restart attempt),
      record runtime { restart_attempts = attempt },
    )
    else (none, runtime)

-- The first critical section of `_restart_loop`: the attempt and its delay, if there is to be one.
unfoldable pub begin_restart : EndpointRuntime → Option (ℕ × ℕ) × EndpointRuntime
unfolding restart_delay is_state
begin_restart runtime = reserve (restart_config runtime.config) runtime

pub data RestartStep : Type 0 where
  -- the loop returns, or goes round again
  leaves continues : RestartStep

abbrev pub not_own : CurrentTask → Option Task → Option Task
not_own current none = none
not_own current (some task) = if is_current current task then none else some task

-- `if runtime.restart_task is current_task: runtime.restart_task = None`
abbrev pub forget_current : CurrentTask → EndpointRuntime → EndpointRuntime
forget_current current runtime = record runtime {
  restart_task = not_own current runtime.restart_task;
}

-- how the loop goes on after a start
abbrev pub after_start : CurrentTask → StartResult × EndpointRuntime → RestartStep × EndpointRuntime
after_start current (url u, runtime) = (leaves, forget_current current runtime)
after_start current (was_cancelled, runtime) = (leaves, forget_current current runtime)
after_start current (not_managed, runtime) = (leaves, forget_current current runtime)
after_start current (_, runtime) = (continues, runtime)

abbrev pub retry :
    (String → String)
    → ℕ
    → NewTasks
    → ℕ
    → Launch
    → Option ManagedRestartConfig
    → EndpointRuntime
    → RestartStep × EndpointRuntime
retry redact own new attempt how none runtime = (leaves, forget_current (some own) runtime)
retry redact own new attempt how (some restart) runtime =
    if is_state runtime.state failed && restart.enabled && not (ltb restart.max_attempts attempt)
    then after_start (some own) (
        start_locked redact (some own) new false how
          (record runtime { process_restarts_total = runtime.process_restarts_total + 1 }))
    else (leaves, forget_current (some own) runtime)

-- The second critical section of `_restart_loop`, run by the task `own` after the delay.
unfoldable pub finish_restart :
    (String → String) → ℕ → NewTasks → ℕ → Launch → EndpointRuntime → RestartStep × EndpointRuntime
unfolding start_locked
finish_restart redact own new attempt how runtime =
    retry redact own new attempt how (restart_config runtime.config) runtime

abbrev pub next :
    (EndpointRuntime → Option EndpointRuntime)
    → RestartStep × EndpointRuntime
    → Option EndpointRuntime
next again (leaves, runtime) = some runtime
next again (continues, runtime) = again runtime

-- one round of the loop, after its first critical section
abbrev pub round :
    (String → String)
    → ℕ
    → NewTasks
    → (ℕ → Launch)
    → (EndpointRuntime → Option EndpointRuntime)
    → Option (ℕ × ℕ) × EndpointRuntime
    → Option EndpointRuntime
round redact own new launches again (none, runtime) = some (forget_current (some own) runtime)
round redact own new launches again (some (attempt, delay), runtime) =
    next again (finish_restart redact own new attempt (launches attempt) runtime)

-- `_restart_loop` when nothing else touches the runtime between its critical sections; the launch
-- of each attempt is given. `none` is want of fuel.
unfoldable pub restart_loop :
    (String → String) → ℕ → NewTasks → (ℕ → Launch) → ℕ → EndpointRuntime → Option EndpointRuntime
unfolding begin_restart finish_restart
restart_loop redact own new launches zero runtime = none
restart_loop redact own new launches (suc fuel) runtime =
    round redact own new launches (restart_loop redact own new launches fuel)
      (begin_restart runtime)
