-- ===== src/Supervisor/ReadinessTests.antt =====
-- Runs of the readiness wait of process_manager.py: a service that opens its port after one refusal
-- and then answers the probe with an event stream.

use mcp_mux_2_0_dev.Base.{
  ℕ, String, Option, none, some, [], ◌∷◌, true, false, refl, ◌≡◌, arith, ◌==◌, ltb, if◌then◌else◌,
}
use mcp_mux_2_0_dev.Base.Text.{contains, casefold, join, lstrip, str_drop}
use mcp_mux_2_0_dev.Config.{ManagedFields}
use mcp_mux_2_0_dev.Json.{Json, str, obj, field, end}
use mcp_mux_2_0_dev.Samples.{tools_base, restart_policy}
use mcp_mux_2_0_dev.Supervisor.Probe.{
  TimedReply, answered, readiness_request_id, merge_probe_headers,
}
use mcp_mux_2_0_dev.Supervisor.Readiness.{World, Connect, refused, connected, wait_for_readiness}
use mcp_mux_2_0_dev.Supervisor.Readiness.Verdict.{Judged, wait_for_readiness-Judged}

abbrev service_fields : ManagedFields
service_fields = record {
  argv = some ("serve" ∷ []);
  env = [];
  cwd = none;
  readiness = record {
    host = some "127.0.0.1";
    port = some 9000;
    timeout = 30;
    interval = 5;
    legacy_initialize_fallback = true;
  };
  restart = restart_policy;
  unsafe_shell_command = none;
  allow_non_loopback_target = false;
}

abbrev decoded : String → Option Json
decoded text =
    if text == "ready"
    then some (
        obj (
          field "jsonrpc" (str "2.0")
            (field "id" (str readiness_request_id) (field "result" (obj end) end))))
    else none

abbrev port_at : ℕ → Connect
port_at now = if ltb now 3 then refused 1 else connected 1 1

abbrev reply_at : ℕ → TimedReply
reply_at now = record {
  elapsed = 2;
  reply = answered (record {
    status = 200;
    content_type = some "Text/Event-Stream";
    text = "";
    lines = "" ∷ "data: starting" ∷ "" ∷ "event: message" ∷ "data: ready" ∷ "" ∷ [];
    cut_off = true;
  });
}

abbrev service : World
service = record {
  process = λ now. some (record { handle = 7; pid = 4000; returncode = none });
  connect = λ host port now. port_at now;
  send = λ request now. reply_at now;
}

-- refused at 0, asked again at 6, open at 7 and closed at 8, and answered at 10
answers_at_ten : wait_for_readiness decoded service tools_base service_fields 31 0 ≡ some (true, 10)
unfolding wait_for_readiness contains casefold join lstrip str_drop
answers_at_ten = refl

-- the probe's own headers replace the configured ones whatever their case
replaces_accept :
    merge_probe_headers
      (record tools_base { headers = some (("ACCEPT", "text/plain") ∷ []) })
      (("accept", "application/json") ∷ [])
    ≡ ("accept", "application/json") ∷ []
unfolding merge_probe_headers casefold
replaces_accept = refl

wait_for_readiness-Judged_example :
    Judged decoded service tools_base service_fields.readiness 0 30
      (wait_for_readiness decoded service tools_base service_fields 31 0)
wait_for_readiness-Judged_example =
    wait_for_readiness-Judged decoded service tools_base service_fields 31 0 (omega arith)
      (omega arith)
