-- ===== src/Supervisor/Drain.antt =====
-- process_manager.py: a runtime that drains is out of service until it is stopped.
use mcp_mux_2_0_dev.Base.{ℕ, ◌≤◌, String, ◌≡◌, Option, none, some, Bool, true, arith}
use mcp_mux_2_0_dev.Config.{Endpoint, remote_endpoint, managed_endpoint, ManagedRestartConfig}
use mcp_mux_2_0_dev.Runtime.{draining, is_state, EndpointRuntime, acquire_lease, release_lease}
use mcp_mux_2_0_dev.Supervisor.{
  CurrentTask, begin_drain, restart_config, reconcile_restart_policy, schedule_restart_if_allowed,
}
use mcp_mux_2_0_dev.Supervisor.Start.{
  NewTasks, Launch, start_managed, start_locked, start_managed_server,
}
use mcp_mux_2_0_dev.Supervisor.Loop.{monitor_exit, begin_restart, finish_restart, retry, reserve}
use mcp_mux_2_0_dev.Supervisor.States.{
  Work, lease, unlease, start, drain, monitor, reserve_restart, restart, reconcile, process_ends,
}

-- The later runtime drains still, and holds no more leases.
abbrev pub StillDrains : EndpointRuntime → EndpointRuntime → Type 0
StillDrains t u = (u.state ≡ draining) × (u.active_leases ≤ t.active_leases)

start_managed-StillDrains :
    (redact : String → String) (current : CurrentTask) (new : NewTasks) (reset : Bool)
    (how : Launch) (config : Endpoint) (t : EndpointRuntime)
    → t.state ≡ draining
    → StillDrains t (start_managed redact current new reset how config t).1
unfolding is_state
start_managed-StillDrains redact current new reset how (remote_endpoint b) t h = ground arith
start_managed-StillDrains redact current new reset how (managed_endpoint b m) t h = ground arith

retry-StillDrains :
    (redact : String → String) (own : ℕ) (new : NewTasks) (attempt : ℕ) (how : Launch)
    (policy : Option ManagedRestartConfig) (t : EndpointRuntime)
    → t.state ≡ draining
    → StillDrains t (retry redact own new attempt how policy t).1
unfolding is_state
retry-StillDrains redact own new attempt how none t h = ground arith
retry-StillDrains redact own new attempt how (some policy) t h = ground arith

reserve-StillDrains :
    (policy : Option ManagedRestartConfig) (t : EndpointRuntime)
    → t.state ≡ draining
    → StillDrains t (reserve policy t).1
unfolding is_state
reserve-StillDrains none t h = ground arith
reserve-StillDrains (some policy) t h = ground arith

module _ (redact : String → String) where
  Work-StillDrains :
      {t u : EndpointRuntime} → Work redact t u → t.state ≡ draining → StillDrains t u
  unfolding acquire_lease release_lease begin_drain monitor_exit begin_restart
      reconcile_restart_policy schedule_restart_if_allowed start_managed_server start_locked
      finish_restart
  Work-StillDrains (lease l e) h = ground arith
  Work-StillDrains (unlease now e) h = ground arith
  Work-StillDrains {t} (start new how e) h =
      ground (arith, start_managed-StillDrains redact none new true how t.config t h)
  Work-StillDrains (drain e) h = ground arith
  Work-StillDrains (monitor handle proc code message e) h = ground arith
  Work-StillDrains {t} (reserve_restart e) h =
      ground (arith, reserve-StillDrains (restart_config t.config) t h)
  Work-StillDrains {t} (restart own new attempt how e) h =
      ground (arith, retry-StillDrains redact own new attempt how (restart_config t.config) t h)
  Work-StillDrains (reconcile handle e) h = ground arith
  Work-StillDrains (process_ends proc code e e') h = ground arith

  -- any sequence of work
  pub data Works (s : EndpointRuntime) : EndpointRuntime → Type 0 where
    idle : Works s s
    and_then : {t u : EndpointRuntime} → Works s t → Work redact t u → Works s u

  -- A runtime that drains stays DRAINING through any sequence of requests, exits, starts, restarts
  -- and reconciliations, and its count of leases never grows: only a stop ends the drain.
  pub Works-StillDrains : {s t : EndpointRuntime} → Works s t → s.state ≡ draining → StillDrains s t
  Works-StillDrains idle h = (h, omega arith)
  Works-StillDrains (and_then ws w) h =
      let (drains, fewer) = Works-StillDrains ws h in
      let (still, fewer') = Work-StillDrains w drains in (still, omega (arith, fewer, fewer'))
