-- ===== src/Samples.antt =====
-- Concrete configurations and headers that the tests of several parts share.
use mcp_mux_2_0_dev.Base.{none, some, [], ◌∷◌, true, false}
use mcp_mux_2_0_dev.Config.{
  EndpointBase, Endpoint, remote_endpoint, managed_endpoint, streamable_http, ManagedRestartConfig,
  SecurityConfig, SecurityMode,
}

-- an endpoint with a limit of each kind, a deny list and a configured credential
abbrev pub tools_base : EndpointBase
tools_base = record {
  path = "tools";
  url = "http://127.0.0.1:9000/mcp";
  summary = "";
  timeout = 300_000_000_000;
  upstream_timeout = 60_000_000_000;
  transport = some streamable_http;
  legacy_sse_bridge = none;
  allow_headerless_legacy = false;
  allowed_methods = none;
  denied_methods = none;
  allowed_tools = none;
  denied_tools = some ("drop" ∷ []);
  allowed_resources = none;
  denied_resources = none;
  allowed_prompts = none;
  denied_prompts = none;
  inbound_headers = "X-Team" ∷ "Cookie" ∷ [];
  headers = some (("Authorization", "Bearer upstream") ∷ []);
  limits = record { max_concurrent = some 2; requests_per_minute = some 3 };
  tool_limits = ("search", record { max_concurrent = some 1; requests_per_minute = none }) ∷ [];
}

abbrev pub remote_tools : Endpoint
remote_tools = remote_endpoint tools_base

abbrev pub restart_policy : ManagedRestartConfig
restart_policy = record {
  enabled = true;
  max_attempts = 2;
  initial_backoff = 1_000_000_000;
  max_backoff = 30_000_000_000;
}

abbrev pub managed_tools : Endpoint
managed_tools = managed_endpoint tools_base (record {
  argv = some ("serve" ∷ []);
  env = [];
  cwd = none;
  readiness = record {
    host = some "127.0.0.1";
    port = some 9000;
    timeout = 30_000_000_000;
    interval = 100_000_000;
    legacy_initialize_fallback = false;
  };
  restart = restart_policy;
  unsafe_shell_command = none;
  allow_non_loopback_target = false;
})

abbrev pub security_in : SecurityMode → SecurityConfig
security_in mode = record {
  mode = mode;
  allowed_hosts = "localhost" ∷ "127.0.0.1" ∷ [];
  allowed_origins = "http://localhost:3000" ∷ [];
  api_key = some "secret";
  trusted_proxies = [];
  trusted_proxy_identity_header = "X-Forwarded-User";
}
