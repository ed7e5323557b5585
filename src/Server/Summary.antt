-- ===== src/Server/Summary.antt =====
-- mcp_router/server.py: what the routes /summary and /metrics report of each endpoint.
use mcp_mux_2_0_dev.Base.{
  ℕ, String, Option, none, some, List, [], ◌∷◌, map, Bool, is_some, ◌≡◌, refl,
}
use mcp_mux_2_0_dev.Base.Int.{ℤ}
use mcp_mux_2_0_dev.Bridge.{Bridge, Counts, fresh_metrics, metrics_snapshot}
use mcp_mux_2_0_dev.Config.{
  Endpoint, remote_endpoint, managed_endpoint, base, LegacySseBridgeConfig,
}
use mcp_mux_2_0_dev.Observability.{GatewayMetrics, Snapshot, snapshot}
use mcp_mux_2_0_dev.Runtime.{EndpointRuntime, RuntimeState}

pub record BridgeSummary : Type 0 where
  pub enabled : Bool
  pub config : Option LegacySseBridgeConfig
  pub counts : Counts

abbrev pub counts_of : String → Option Bridge → Counts
counts_of path none = record { active_sessions = 0; totals = fresh_metrics }
counts_of path (some bridge) = metrics_snapshot path bridge

-- `_legacy_bridge_summary`; the four settings are those of the configuration, or all `None`
unfoldable pub legacy_bridge_summary : Option Bridge → EndpointRuntime → BridgeSummary
unfolding metrics_snapshot
legacy_bridge_summary bridge runtime = record {
  enabled = is_some (base runtime.config).legacy_sse_bridge;
  config = (base runtime.config).legacy_sse_bridge;
  counts = counts_of (base runtime.config).path bridge;
}

abbrev pub mode_of : Endpoint → String
mode_of (remote_endpoint b) = "remote"
mode_of (managed_endpoint b m) = "managed_cli"

pub record EndpointMetrics : Type 0 where
  pub path : String
  pub runtime_state : RuntimeState
  pub active_upstream_leases : ℕ
  pub process_restarts_total : ℕ
  pub gateway : Snapshot
  pub legacy_sse_bridge : BridgeSummary

pub record EndpointSummary : Type 0 where
  pub path : String
  pub mode : String
  pub summary : String
  pub runtime_state : RuntimeState
  pub active_upstream_leases : ℕ
  pub last_exit_code : Option ℤ
  pub restart_attempts : ℕ
  pub process_restarts_total : ℕ
  pub gateway : Snapshot
  pub legacy_sse_bridge : BridgeSummary

module _ (metrics : GatewayMetrics) (bridge : Option Bridge) where
  -- `get_summary`
  unfoldable pub get_summary : List EndpointRuntime → List EndpointSummary
  unfolding snapshot legacy_bridge_summary
  get_summary [] = []
  get_summary (runtime ∷ runtimes) =
      (record {
        path = (base runtime.config).path;
        mode = mode_of runtime.config;
        summary = (base runtime.config).summary;
        runtime_state = runtime.state;
        active_upstream_leases = runtime.active_leases;
        last_exit_code = runtime.last_exit_code;
        restart_attempts = runtime.restart_attempts;
        process_restarts_total = runtime.process_restarts_total;
        gateway = snapshot (base runtime.config).path metrics;
        legacy_sse_bridge = legacy_bridge_summary bridge runtime;
      })
      ∷ get_summary runtimes

  -- `get_metrics`
  unfoldable pub get_metrics : List EndpointRuntime → List EndpointMetrics
  unfolding snapshot legacy_bridge_summary
  get_metrics [] = []
  get_metrics (runtime ∷ runtimes) =
      (record {
        path = (base runtime.config).path;
        runtime_state = runtime.state;
        active_upstream_leases = runtime.active_leases;
        process_restarts_total = runtime.process_restarts_total;
        gateway = snapshot (base runtime.config).path metrics;
        legacy_sse_bridge = legacy_bridge_summary bridge runtime;
      })
      ∷ get_metrics runtimes

  -- the fields of a summary that /metrics reports too
  abbrev shared : EndpointSummary → EndpointMetrics
  shared s = record {
    path = s.path;
    runtime_state = s.runtime_state;
    active_upstream_leases = s.active_upstream_leases;
    process_restarts_total = s.process_restarts_total;
    gateway = s.gateway;
    legacy_sse_bridge = s.legacy_sse_bridge;
  }

  -- The two routes report the same values under the names that they share.
  get_metrics-get_summary :
      (runtimes : List EndpointRuntime) → map shared (get_summary runtimes) ≡ get_metrics runtimes
  unfolding get_summary get_metrics
  get_metrics-get_summary [] = refl
  get_metrics-get_summary (runtime ∷ runtimes) = rw (get_metrics-get_summary runtimes) refl
