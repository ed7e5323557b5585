-- ===== src/Server/Activation.antt =====
-- server.py: what acquiring an upstream lease adds to the endpoint's active leases, with or without
-- a process start.
use mcp_mux_2_0_dev.Base.{
  ℕ, ◌+◌, String, ◌≡◌, refl, Option, none, some, Bool, true, arith, if◌then◌else◌,
}
use mcp_mux_2_0_dev.Config.{Endpoint, remote_endpoint, managed_endpoint, EndpointBase}
use mcp_mux_2_0_dev.Runtime.{EndpointRuntime, UpstreamLease, acquire_lease}
use mcp_mux_2_0_dev.Server.Leases.{
  Surroundings, Activation, lease, activation_error, start_raised, lease_or_error, after_activation,
  acquire_upstream_lease,
}
use mcp_mux_2_0_dev.Supervisor.Start.{
  NewTasks, Launch, StartResult, launch, actual_launch, prepared, start_managed, start_locked, url,
  was_cancelled, not_managed, is_failed, is_draining, unresolved, launch_failed,
  start_managed_server,
}
use mcp_mux_2_0_dev.Supervisor.{CurrentTask, schedule_restart_if_allowed, terminate_locked}

abbrev pub held_upstream : Option UpstreamLease → ℕ
held_upstream none = 0
held_upstream (some l) = if l.released then 0 else 1

-- Starting a process does not touch the count of leases.
abbrev SameLeases : EndpointRuntime → EndpointRuntime → Type 0
SameLeases t u = u.active_leases ≡ t.active_leases

launch-SameLeases :
    (redact : String → String) (current : CurrentTask) (new : NewTasks) (b : EndpointBase)
    (how : Launch) (t : EndpointRuntime)
    → SameLeases t (launch redact current new b how t).1
unfolding launch schedule_restart_if_allowed terminate_locked
launch-SameLeases redact current new b how t = ground arith

start_managed-SameLeases :
    (redact : String → String) (current : CurrentTask) (new : NewTasks) (reset : Bool)
    (how : Launch) (config : Endpoint) (t : EndpointRuntime)
    → SameLeases t (start_managed redact current new reset how config t).1
start_managed-SameLeases redact current new reset how (remote_endpoint b) t = refl
start_managed-SameLeases redact current new reset how (managed_endpoint b m) t = ground (
  arith,
  launch-SameLeases redact current new b (actual_launch b m how) (prepared current reset t),
)

start_managed_server-SameLeases :
    (redact : String → String) (new : NewTasks) (how : Launch) (t : EndpointRuntime)
    → SameLeases t (start_managed_server redact new how t).1
unfolding start_managed_server start_locked
start_managed_server-SameLeases redact new how t =
    ground (arith, start_managed-SameLeases redact none new true how t.config t)

-- what an activation adds to the count of leases
abbrev pub taken : Activation → ℕ
taken (lease l) = held_upstream (some l)
taken (activation_error status) = 0
taken start_raised = 0

acquire_lease-taken :
    (t : EndpointRuntime)
    → (lease_or_error t (acquire_lease t)).1.active_leases
      ≡ t.active_leases + taken (lease_or_error t (acquire_lease t)).0
unfolding acquire_lease
acquire_lease-taken t = ground arith

after_activation-taken :
    (t : EndpointRuntime) (started : StartResult × EndpointRuntime)
    → SameLeases t started.1
    → (after_activation started).1.active_leases
      ≡ t.active_leases + taken (after_activation started).0
after_activation-taken t (url _, u) h = ground (arith, acquire_lease-taken u)
after_activation-taken t (not_managed, u) h = omega (arith, h)
after_activation-taken t (was_cancelled, u) h = omega (arith, h)
after_activation-taken t (is_failed, u) h = omega (arith, h)
after_activation-taken t (is_draining, u) h = omega (arith, h)
after_activation-taken t (unresolved, u) h = omega (arith, h)
after_activation-taken t (launch_failed, u) h = omega (arith, h)

pub acquire_upstream_lease-taken :
    (env : Surroundings) (t : EndpointRuntime)
    → (acquire_upstream_lease env t).1.active_leases
      ≡ t.active_leases + taken (acquire_upstream_lease env t).0
unfolding acquire_upstream_lease
acquire_upstream_lease-taken env t =
    let started = start_managed_server env.redact env.tasks env.launch t in
    ground (
      arith,
      acquire_lease-taken t,
      after_activation-taken t started
          (start_managed_server-SameLeases env.redact env.tasks env.launch t),
    )
