-- ===== src/Supervisor/Start.antt =====
-- mcp_router/core/process_manager.py: starting a managed process.
use Prim.Native.String
use mcp_mux_2_0_dev.Base.{
  ℕ, String, Option, none, some, Bool, true, false, ◌&&◌, ◌||◌, not, is_some, if◌then◌else◌,
}
use mcp_mux_2_0_dev.Base.Int.{ℤ}
use mcp_mux_2_0_dev.Config.{
  Endpoint, remote_endpoint, managed_endpoint, EndpointBase, ManagedFields,
}
use mcp_mux_2_0_dev.Runtime.{
  stopped, starting, running, draining, failed, is_state, Process, Task, EndpointRuntime,
}
use mcp_mux_2_0_dev.Supervisor.{
  CurrentTask, cancelled_if_pending, is_running, schedule_restart_if_allowed, terminate_locked,
}

-- how a launch goes, after the state has become STARTING
pub data Launch : Type 0 where
  -- creating the process raises, with this message
  spawn_error : String → Launch
  -- the process has no output pipes, with this message
  no_pipes : Process → String → Launch
  -- it does not become ready; its exit code is there if it has ended
  not_ready : Process → String → Launch
  -- it is ready at this time
  ready : Process → ℕ → Launch
  -- the start is cancelled, before or after the process is there
  cancelled : Option Process → Launch

pub data StartResult : Type 0 where
  url : String → StartResult
  not_managed is_failed is_draining unresolved launch_failed was_cancelled : StartResult

-- the identities of the tasks that a start creates
pub record NewTasks : Type 0 where
  pub stdout : ℕ
  pub stderr : ℕ
  pub exit : ℕ
  pub restart : ℕ

abbrev pub fresh_task : ℕ → Option Task
fresh_task handle = some (record { handle = handle; done = false })

-- the process and the tasks that watch it
abbrev pub attach : NewTasks → Process → EndpointRuntime → EndpointRuntime
attach new proc runtime = record runtime {
  process = some proc;
  stdout_task = fresh_task new.stdout;
  stderr_task = fresh_task new.stderr;
  exit_task = fresh_task new.exit;
}

-- `if proc is not None and proc.returncode is not None: last_exit_code = proc.returncode`
abbrev pub exit_code_of : Option Process → Option ℤ → Option ℤ
exit_code_of none old = old
exit_code_of (some proc) old = elim proc.returncode [ none ↦ old | some code ↦ some code ]

-- what the handler of launch errors records
abbrev pub noted : (String → String) → Option Process → String → EndpointRuntime → EndpointRuntime
noted redact proc message runtime = record runtime {
  last_exit_code = exit_code_of proc runtime.last_exit_code;
  failure_reason = some (redact message);
}

-- the handler of launch errors
abbrev pub fail_launch :
    (String → String)
    → CurrentTask
    → NewTasks
    → Option Process
    → String
    → EndpointRuntime
    → EndpointRuntime
fail_launch redact current new proc message runtime =
    schedule_restart_if_allowed new.restart
      (terminate_locked current failed (noted redact proc message runtime))

-- the body under `try`
unfoldable pub launch :
    (String → String)
    → CurrentTask
    → NewTasks
    → EndpointBase
    → Launch
    → EndpointRuntime
    → StartResult × EndpointRuntime
unfolding schedule_restart_if_allowed terminate_locked
launch redact current new b (spawn_error message) runtime =
    (launch_failed, fail_launch redact current new none message runtime)
launch redact current new b (no_pipes proc message) runtime = (
  launch_failed,
  fail_launch redact current new (some proc) message (record runtime { process = some proc }),
)
launch redact current new b (not_ready proc message) runtime =
    (launch_failed, fail_launch redact current new (some proc) message (attach new proc runtime))
launch redact current new b (ready proc now) runtime =
    let attached = attach new proc runtime in
    (
      url b.url,
      record attached { state = running; failure_reason = none; last_completed_activity = now },
    )
launch redact current new b (cancelled none) runtime =
    (was_cancelled, terminate_locked current stopped (record runtime { failure_reason = none }))
launch redact current new b (cancelled (some proc)) runtime =
    let attached = attach new proc runtime in
    (was_cancelled, terminate_locked current stopped (record attached { failure_reason = none }))

-- the launch command: `argv`, or else the shell command
abbrev pub has_command : ManagedFields → Bool
has_command m = is_some m.argv || is_some m.unsafe_shell_command

abbrev pub is_resolved : ManagedFields → Bool
is_resolved m = is_some m.readiness.host && is_some m.readiness.port

-- with no command the body raises before any process is there
abbrev pub actual_launch : EndpointBase → ManagedFields → Launch → Launch
actual_launch b m how =
    if has_command m
    then how
    else spawn_error
        (String.◌++◌ "Managed endpoint '" (String.◌++◌ b.path "' has no execution command"))

abbrev pub prepared : CurrentTask → Bool → EndpointRuntime → EndpointRuntime
prepared current reset_restart_attempts runtime = record runtime {
  restart_task = cancelled_if_pending current runtime.restart_task;
  restart_attempts = if reset_restart_attempts then 0 else runtime.restart_attempts;
  state = starting;
  failure_reason = none;
}

abbrev pub start_managed :
    (String → String)
    → CurrentTask
    → NewTasks
    → Bool
    → Launch
    → Endpoint
    → EndpointRuntime
    → StartResult × EndpointRuntime
start_managed redact current new reset how (remote_endpoint b) runtime = (not_managed, runtime)
start_managed redact current new reset how (managed_endpoint b m) runtime =
    let before = prepared current reset runtime in
    if is_running runtime && is_state runtime.state running
    then (url b.url, runtime)
    else if is_state runtime.state draining
    then (is_draining, runtime)
    else if not (is_resolved m)
    then (
      unresolved,
      record before { state = failed; failure_reason = some "unresolved readiness settings" },
    )
    else launch redact current new b (actual_launch b m how) before

-- `_start_locked`
unfoldable pub start_locked :
    (String → String)
    → CurrentTask
    → NewTasks
    → Bool
    → Launch
    → EndpointRuntime
    → StartResult × EndpointRuntime
unfolding launch is_running is_state
start_locked redact current new reset how runtime =
    start_managed redact current new reset how runtime.config runtime

-- `start_managed_server`
unfoldable pub start_managed_server :
    (String → String) → NewTasks → Launch → EndpointRuntime → StartResult × EndpointRuntime
unfolding start_locked
start_managed_server redact new how runtime =
    if is_state runtime.state failed
    then (is_failed, runtime)
    else start_locked redact none new true how runtime
