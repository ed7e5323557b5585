-- ===== src/Supervisor/States.antt =====
-- process_manager.py and runtime.py: what every step of the supervisor keeps true of a runtime.
use mcp_mux_2_0_dev.Base.{ℕ, ◌+◌, String, ◌≡◌, ◌≢◌, ◌⊎◌, some, true, false, arith, is_some}
use mcp_mux_2_0_dev.Base.Int.{ℤ}
use mcp_mux_2_0_dev.Config.{Endpoint, is_managed}
use mcp_mux_2_0_dev.Runtime.{
  RuntimeState, stopped, starting, running, draining, failed, Process, EndpointRuntime,
  UpstreamLease, granted, acquire_lease, release_lease, from_config,
}
use mcp_mux_2_0_dev.Supervisor.{
  CurrentTask, is_running, stop_managed_server, begin_drain, reconcile_restart_policy,
}
use mcp_mux_2_0_dev.Supervisor.Start.{NewTasks, Launch, start_managed_server}
use mcp_mux_2_0_dev.Supervisor.Loop.{monitor_exit, begin_restart, finish_restart}

-- Between critical sections: no start is under way, a runtime that is stopped or failed has no
-- live process, and a managed one that is running has a process.
pub record IsSettled (runtime : EndpointRuntime) : Type 0 where
  pub not_starting : runtime.state ≢ starting
  pub stopped_is_dead : runtime.state ≡ stopped → is_running runtime ≡ false
  pub failed_is_dead : runtime.state ≡ failed → is_running runtime ≡ false
  pub running_has_process :
      runtime.state ≡ running → is_managed runtime.config ≡ true → is_some runtime.process ≡ true

pub from_config-IsSettled : (config : Endpoint) (now : ℕ) → IsSettled (from_config config now)
unfolding from_config is_running
from_config-IsSettled config now = ground arith

-- What may happen to a runtime while nothing stops it: requests and the supervisor's tasks.
pub data Work (redact : String → String) (t u : EndpointRuntime) : Type 0 where
  lease : (l : UpstreamLease) → acquire_lease t ≡ granted l u → Work redact t u
  unlease : (now : ℕ) → u ≡ release_lease now t → Work redact t u
  start :
      (new : NewTasks) (how : Launch)
      → u ≡ (start_managed_server redact new how t).1
      → Work redact t u
  drain : u ≡ begin_drain t → Work redact t u
  monitor :
      (handle : ℕ) (proc : Process) (code : ℤ) (message : String)
      → u ≡ monitor_exit handle proc code message t
      → Work redact t u
  reserve_restart : u ≡ (begin_restart t).1 → Work redact t u
  restart :
      (own : ℕ) (new : NewTasks) (attempt : ℕ) (how : Launch)
      → u ≡ (finish_restart redact own new attempt how t).1
      → Work redact t u
  reconcile : (handle : ℕ) → u ≡ reconcile_restart_policy handle t → Work redact t u
  process_ends :
      (proc : Process) (code : ℤ)
      → t.process ≡ some proc
      → u ≡ record t { process = some (record proc { returncode = some code }) }
      → Work redact t u

-- Any step: such work, or a stop that leaves one of the final states that the code asks for.
pub data Step (redact : String → String) (t u : EndpointRuntime) : Type 0 where
  work : Work redact t u → Step redact t u
  stop :
      (current : CurrentTask) (final_state : RuntimeState)
      → (final_state ≡ stopped) ⊎ (final_state ≡ draining)
      → u ≡ stop_managed_server current final_state t
      → Step redact t u

pub data Reach (redact : String → String) (s : EndpointRuntime) : EndpointRuntime → Type 0 where
  here : Reach redact s s
  then_step : {t u : EndpointRuntime} → Reach redact s t → Step redact t u → Reach redact s u

-- the runtime once a restart is counted
abbrev counted : EndpointRuntime → EndpointRuntime
counted runtime = record runtime { process_restarts_total = runtime.process_restarts_total + 1 }
