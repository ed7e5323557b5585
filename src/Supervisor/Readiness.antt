-- ===== src/Supervisor/Readiness.antt =====
-- process_manager.py: waiting for a started service, `_wait_for_port` and `_wait_for_readiness`.
-- The clock counts nanoseconds; what the network answers at each moment, and the process attached
-- at it, are arguments. A wait with a timeout ends at its deadline at the latest.
pub mod Verdict
use mcp_mux_2_0_dev.Base.{
  ℕ, zero, suc, ◌+◌, ◌-◌, min, String, Option, none, some, Bool, true, false, ◌||◌, not, leb,
  is_some, if◌then◌else◌,
}
use mcp_mux_2_0_dev.Config.{EndpointBase, ManagedFields, ManagedReadinessConfig}
use mcp_mux_2_0_dev.Json.{Json}
use mcp_mux_2_0_dev.Runtime.{Process}
use mcp_mux_2_0_dev.Supervisor.{is_alive}
use mcp_mux_2_0_dev.Supervisor.Probe.{
  TimedReply, ProbeRequest, probe_jsonrpc_result, probe_modern_discovery, probe_legacy_initialize,
}

-- what `asyncio.open_connection` comes to
pub data Connect : Type 0 where
  refused : ℕ → Connect
  -- the operating system gives up, with a `TimeoutError`
  os_timeout : ℕ → Connect
  -- the time until it is open, and the time that closing it takes
  connected : ℕ → ℕ → Connect

pub record World : Type 0 where
  pub process : ℕ → Option Process
  pub connect : String → ℕ → ℕ → Connect
  pub send : ProbeRequest → ℕ → TimedReply

-- the verdict, and the time it is given
abbrev pub Verdict : Type 0
Verdict = Bool × ℕ

-- `await asyncio.sleep(min(interval, remaining))`
abbrev pub pause : ℕ → ℕ → ℕ → ℕ
pause interval deadline now = now + min interval (deadline - now)

abbrev pub attempt : ℕ → ℕ → (ℕ → Option Verdict) → ℕ → Connect → Option Verdict
attempt interval deadline again now (refused elapsed) =
    if leb deadline (now + elapsed)
    then some (false, deadline)
    else again (pause interval deadline (now + elapsed))
attempt interval deadline again now (os_timeout elapsed) =
    some (false, min deadline (now + elapsed))
attempt interval deadline again now (connected elapsed closing) =
    if leb deadline (now + elapsed)
    then some (false, deadline)
    else some (true, min deadline (now + elapsed + closing))

-- the loop of `_wait_for_port`; `none` is want of fuel
unfoldable pub port_rounds : World → String → ℕ → ℕ → ℕ → ℕ → ℕ → Option Verdict
port_rounds w host port interval deadline zero now = none
port_rounds w host port interval deadline (suc fuel) now =
    if leb deadline now
    then some (false, now)
    else attempt interval deadline (port_rounds w host port interval deadline fuel) now
        (w.connect host port now)

-- `_wait_for_port`
unfoldable pub wait_for_port : World → String → ℕ → ℕ → ℕ → ℕ → ℕ → Option Verdict
unfolding port_rounds
wait_for_port w host port timeout interval fuel now =
    port_rounds w host port interval (now + timeout) fuel now

module _ (loads : String → Option Json) (w : World) (b : EndpointBase) where
  -- `remaining <= 0`, and otherwise the wait before the next round
  abbrev pub rest_of_round : ℕ → ℕ → (ℕ → Option Verdict) → ℕ → Option Verdict
  rest_of_round interval deadline again now =
      if leb deadline now then some (false, now) else again (pause interval deadline now)

  -- a probe that started at this time, and how the round goes on after a failure
  abbrev pub after_probe : ℕ → (ℕ → Option Verdict) → Bool × ℕ → Option Verdict
  after_probe now continue (true, elapsed) = some (true, now + elapsed)
  after_probe now continue (false, elapsed) = continue (now + elapsed)

  abbrev pub probe : ProbeRequest → ℕ → (ℕ → Option Verdict) → ℕ → Option Verdict
  probe request deadline continue now =
      if leb deadline now
      then some (false, now)
      else after_probe now continue
          (probe_jsonrpc_result loads (deadline - now) (w.send request now))

  -- the probe of the legacy protocol, where it is wanted
  abbrev pub fallback : Bool → ℕ → (ℕ → Option Verdict) → ℕ → Option Verdict
  fallback true deadline continue now = probe (probe_legacy_initialize b) deadline continue now
  fallback false deadline continue now = continue now

  abbrev pub probe_round : ManagedReadinessConfig → ℕ → (ℕ → Option Verdict) → ℕ → Option Verdict
  probe_round readiness deadline again now =
      if is_alive (w.process now)
      then probe (probe_modern_discovery b) deadline
          (fallback readiness.legacy_initialize_fallback deadline
            (rest_of_round readiness.interval deadline again))
          now
      else some (false, now)

  -- the loop of `_wait_for_readiness`
  unfoldable pub probe_rounds : ManagedReadinessConfig → ℕ → ℕ → ℕ → Option Verdict
  unfolding probe_jsonrpc_result probe_modern_discovery probe_legacy_initialize
  probe_rounds readiness deadline zero now = none
  probe_rounds readiness deadline (suc fuel) now =
      probe_round readiness deadline (probe_rounds readiness deadline fuel) now

  abbrev pub after_port : ManagedReadinessConfig → ℕ → ℕ → Option Verdict → Option Verdict
  after_port readiness deadline fuel none = none
  after_port readiness deadline fuel (some (false, now)) = some (false, now)
  after_port readiness deadline fuel (some (true, now)) = probe_rounds readiness deadline fuel now

  abbrev pub wait_at : ManagedReadinessConfig → Option String → Option ℕ → ℕ → ℕ → Option Verdict
  wait_at readiness (some host) (some port) fuel now =
      if leb readiness.timeout 0
      then some (false, now)
      else after_port readiness (now + readiness.timeout) fuel
          (wait_for_port w host port readiness.timeout readiness.interval fuel now)
  wait_at readiness _ _ fuel now = some (false, now)

  -- `_wait_for_readiness`
  unfoldable pub wait_for_readiness : ManagedFields → ℕ → ℕ → Option Verdict
  unfolding wait_for_port probe_rounds
  wait_for_readiness m fuel now = wait_at m.readiness m.readiness.host m.readiness.port fuel now
