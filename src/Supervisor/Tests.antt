-- ===== src/Supervisor/Tests.antt =====
-- Runs of the supervisor of process_manager.py on a concrete managed endpoint.
use mcp_mux_2_0_dev.Base.{ℕ, String, refl, none, arith}
use mcp_mux_2_0_dev.Base.Int.{pos}
use mcp_mux_2_0_dev.Samples.{managed_tools, restart_policy}
use mcp_mux_2_0_dev.Runtime.{EndpointRuntime, Process, from_config, failed}
use mcp_mux_2_0_dev.Supervisor.Start.{NewTasks, Launch, ready, spawn_error, start_managed_server}
use mcp_mux_2_0_dev.Supervisor.Loop.{monitor_exit, restart_loop}
use mcp_mux_2_0_dev.Supervisor.States.{start}
use mcp_mux_2_0_dev.Supervisor.Drain.{Works, idle, and_then, StillDrains, Works-StillDrains}
use mcp_mux_2_0_dev.Supervisor.{begin_drain}
use mcp_mux_2_0_dev.Supervisor.Restart.{Returns, InBudget, restart_loop-Returns}

abbrev unchanged : String → String
unchanged s = s

abbrev tasks : NewTasks
tasks = record { stdout = 1; stderr = 2; exit = 3; restart = 4 }

abbrev server : Process
server = record { handle = 7; pid = 4000; returncode = none }

abbrev fresh : EndpointRuntime
fresh = from_config managed_tools 10

abbrev started : EndpointRuntime
started = (start_managed_server unchanged tasks (ready server 20) fresh).1

abbrev exited : EndpointRuntime
exited = monitor_exit 5 server (pos 1) "exited" started

abbrev down : EndpointRuntime
down = record fresh { state = failed }

abbrev launches : ℕ → Launch
launches attempt = spawn_error "no such file"

restart_loop-Returns_example :
    Returns (InBudget restart_policy down) (restart_loop unchanged 4 tasks launches 3 down)
unfolding from_config
restart_loop-Returns_example =
    restart_loop-Returns unchanged 4 tasks launches restart_policy 2 down refl (omega arith)

abbrev retiring : EndpointRuntime
retiring = begin_drain started

drain_then_start :
    Works unchanged retiring (start_managed_server unchanged tasks (ready server 30) retiring).1
drain_then_start = and_then idle (start tasks (ready server 30) refl)

Works-StillDrains_example :
    StillDrains retiring (start_managed_server unchanged tasks (ready server 30) retiring).1
unfolding begin_drain
Works-StillDrains_example = Works-StillDrains unchanged drain_then_start refl
