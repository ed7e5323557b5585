-- ===== src/Config/Models.antt =====
-- config_loader.py: the validators of whole models, over the values that the file gives with the
-- defaults filled in. `none` is ValueError.

use mcp_mux_2_0_dev.Base.{
  ℕ, String, Option, none, some, List, [], ◌∷◌, Bool, true, false, ◌&&◌, ◌||◌, not, ◌==◌, leb, ltb,
  nat_beq, elem, any, is_some, if◌then◌else◌,
}
use mcp_mux_2_0_dev.Base.Dict.{Dict, lookup, insert}
use mcp_mux_2_0_dev.Base.Text.{contains, ends_with, is_empty, strip}
use mcp_mux_2_0_dev.Config.{
  Endpoint, EndpointBase, LegacySseBridgeConfig, ManagedFields, ManagedReadinessConfig,
  ManagedRestartConfig, RequestLimitConfig, RouterConfig, SecurityConfig, SecurityMode, Transport,
  authenticated, managed_endpoint, remote_endpoint, sse, streamable_http,
}
use mcp_mux_2_0_dev.Config.Fields.{
  ConfigLib, Url, ◌>>=◌, accept, is_loopback_target, map_some, validate_header_name,
  validate_http_url, validate_optional_text, validate_path, validate_summary,
}
use mcp_mux_2_0_dev.Config.Names.{
  distinct_names, validate_allowed_hosts, validate_allowed_origins, validate_name_list,
  validate_trusted_proxies,
}
use mcp_mux_2_0_dev.Config.HeaderFields.{
  normalize_headers, normalize_inbound_headers, validate_argv, validate_env,
}

-- one second, in nanoseconds
abbrev second : ℕ
second = 1_000_000_000

abbrev pub is_at_least_one : Option ℕ → Bool
is_at_least_one none = true
is_at_least_one (some n) = leb 1 n

abbrev pub validate_limits : RequestLimitConfig → Option RequestLimitConfig
validate_limits limits =
    accept (is_at_least_one limits.max_concurrent && is_at_least_one limits.requests_per_minute)
      limits

abbrev pub in_range : LegacySseBridgeConfig → Bool
in_range config =
    leb 1 config.queue_capacity
    && leb config.queue_capacity 4096
    && ltb 0 config.backpressure_timeout
    && leb config.backpressure_timeout 60_000_000_000
    && ltb 0 config.session_ttl
    && leb config.session_ttl 86400_000_000_000
    && leb 1 config.max_sessions
    && leb config.max_sessions 4096

abbrev pub validate_bridge : Option LegacySseBridgeConfig → Option (Option LegacySseBridgeConfig)
validate_bridge none = some none
validate_bridge (some config) = accept (in_range config) (some config)

-- the loop of `EndpointBase.validate_tool_limits`
unfoldable pub clean_tool_limits :
    Dict RequestLimitConfig → Dict RequestLimitConfig → Option (Dict RequestLimitConfig)
unfolding strip is_empty lookup insert
clean_tool_limits cleaned [] = some cleaned
clean_tool_limits cleaned ((raw, limits) ∷ entries) =
    let name = strip raw in
    let rest = clean_tool_limits (insert name limits cleaned) entries in
    if is_empty name || is_some (lookup name cleaned) || not (is_some (validate_limits limits))
    then none
    else rest

abbrev pub is_exclusive : Option (List String) → Option (List String) → Bool
is_exclusive allowed denied = not (is_some allowed && is_some denied)

abbrev pub transport_of : String → Transport
transport_of path = if ends_with path "/mcp" || contains path "/mcp/" then streamable_http else sse

abbrev pub final_transport : ConfigLib → String → Option Transport → Option Transport
final_transport lib url (some transport) = some transport
final_transport lib url none = map_some (λ (u : Url). transport_of u.path) (lib.urlsplit url)

abbrev pub is_streamable_transport : Transport → Bool
is_streamable_transport sse = false
is_streamable_transport streamable_http = true

-- `EndpointBase.finalize_common_fields`
unfoldable pub finalize_common_fields : ConfigLib → EndpointBase → Option EndpointBase
unfolding ends_with contains
finalize_common_fields lib b =
    accept
      (is_exclusive b.allowed_methods b.denied_methods
        && is_exclusive b.allowed_tools b.denied_tools
        && is_exclusive b.allowed_resources b.denied_resources
        && is_exclusive b.allowed_prompts b.denied_prompts)
      b
    >>= λ c. final_transport lib b.url b.transport >>= λ transport.
        accept
          ((not (is_some b.legacy_sse_bridge) || is_streamable_transport transport)
            && (not b.allow_headerless_legacy || is_streamable_transport transport))
          (record b { transport = some transport })

-- the field validators of `EndpointBase`
unfoldable pub validate_fields : ConfigLib → EndpointBase → Option EndpointBase
unfolding validate_path validate_http_url validate_summary distinct_names normalize_inbound_headers
    normalize_headers clean_tool_limits
validate_fields lib b = do
  path ← validate_path b.path
  url ← validate_http_url lib b.url
  summary ← validate_summary b.summary
  bridge ← validate_bridge b.legacy_sse_bridge
  allowed_methods ← validate_name_list b.allowed_methods
  denied_methods ← validate_name_list b.denied_methods
  allowed_tools ← validate_name_list b.allowed_tools
  denied_tools ← validate_name_list b.denied_tools
  allowed_resources ← validate_name_list b.allowed_resources
  denied_resources ← validate_name_list b.denied_resources
  allowed_prompts ← validate_name_list b.allowed_prompts
  denied_prompts ← validate_name_list b.denied_prompts
  inbound_headers ← normalize_inbound_headers b.inbound_headers
  headers ← normalize_headers b.headers
  limits ← validate_limits b.limits
  tool_limits ← clean_tool_limits [] b.tool_limits
  accept (ltb 0 b.timeout && ltb 0 b.upstream_timeout) (record b {
    path = path;
    url = url;
    summary = summary;
    legacy_sse_bridge = bridge;
    allowed_methods = allowed_methods;
    denied_methods = denied_methods;
    allowed_tools = allowed_tools;
    denied_tools = denied_tools;
    allowed_resources = allowed_resources;
    denied_resources = denied_resources;
    allowed_prompts = allowed_prompts;
    denied_prompts = denied_prompts;
    inbound_headers = inbound_headers;
    headers = headers;
    limits = limits;
    tool_limits = tool_limits;
  })

unfoldable pub validate_base : ConfigLib → EndpointBase → Option EndpointBase
unfolding validate_fields finalize_common_fields
validate_base lib b = validate_fields lib b >>= finalize_common_fields lib

-- `ManagedRestartConfig`, with `validate_backoff_bounds`
abbrev pub validate_restart : ManagedRestartConfig → Option ManagedRestartConfig
validate_restart restart =
    accept
      (leb 1 restart.max_attempts
        && leb restart.max_attempts 100
        && ltb 0 restart.initial_backoff
        && leb restart.initial_backoff restart.max_backoff)
      restart

abbrev pub is_port : Option ℕ → Bool
is_port none = true
is_port (some port) = leb 1 port && leb port 65535

unfoldable pub validate_readiness : ManagedReadinessConfig → Option ManagedReadinessConfig
unfolding validate_optional_text
validate_readiness r = validate_optional_text r.host >>= λ host.
    accept (is_port r.port && ltb 0 r.timeout && ltb 0 r.interval) (record r { host = host })

abbrev pub or_host : Option String → String → Option String
or_host none target = some target
or_host (some host) target = some host

-- `parsed.port or (443 if parsed.scheme == "https" else 80)`
abbrev pub port_of : String → Option ℕ → ℕ
port_of scheme none = if scheme == "https" then 443 else 80
port_of scheme (some port) =
    if nat_beq port 0 then (if scheme == "https" then 443 else 80) else port

-- the port of the URL is read only where none is configured
abbrev pub or_port : Option ℕ → Url → Option (Option ℕ)
or_port (some port) parsed = some (some port)
or_port none parsed = map_some (λ port. some (port_of parsed.scheme port)) parsed.port

-- `ManagedEndpointConfig.finalize_managed_fields`
unfoldable pub finalize_managed_fields :
    ConfigLib → EndpointBase → ManagedFields → Option ManagedFields
unfolding is_loopback_target
finalize_managed_fields lib b m = do
  one ←
      accept
        ((is_some m.argv && not (is_some m.unsafe_shell_command))
          || (not (is_some m.argv) && is_some m.unsafe_shell_command))
        m
  parsed ← lib.urlsplit b.url
  host ← parsed.hostname
  near ← accept (m.allow_non_loopback_target || is_loopback_target lib host) m
  port ← or_port m.readiness.port parsed
  some (record m {
    readiness = record m.readiness { host = or_host m.readiness.host host; port = port };
  })

unfoldable pub validate_managed : ConfigLib → EndpointBase → ManagedFields → Option ManagedFields
unfolding validate_argv validate_env validate_optional_text validate_readiness
    finalize_managed_fields
validate_managed lib b m = do
  argv ← validate_argv m.argv
  env ← validate_env m.env
  cwd ← validate_optional_text m.cwd
  readiness ← validate_readiness m.readiness
  restart ← validate_restart m.restart
  command ← validate_optional_text m.unsafe_shell_command
  finalize_managed_fields lib b (record m {
    argv = argv;
    env = env;
    cwd = cwd;
    readiness = readiness;
    restart = restart;
    unsafe_shell_command = command;
  })

unfoldable pub validate_endpoint : ConfigLib → Endpoint → Option Endpoint
unfolding validate_base validate_managed
validate_endpoint lib (remote_endpoint b) = map_some remote_endpoint (validate_base lib b)
validate_endpoint lib (managed_endpoint b m) =
    validate_base lib b >>= λ c. map_some (managed_endpoint c) (validate_managed lib c m)

abbrev pub has_port : ℕ → List ℕ → Bool
has_port port ports = any (nat_beq port) ports

abbrev pub next_port : Option ℕ → List ℕ → (List ℕ → Bool) → Bool
next_port none ports next = false
next_port (some port) ports next = if has_port port ports then false else next (port ∷ ports)

-- the loop of `RouterConfig.validate_ports_and_paths`: whether it raises nothing
unfoldable pub distinct_endpoints : List ℕ → List String → List Endpoint → Bool
unfolding elem any
distinct_endpoints ports paths [] = true
distinct_endpoints ports paths (remote_endpoint b ∷ endpoints) =
    let rest = distinct_endpoints ports (b.path ∷ paths) endpoints in
    if elem b.path paths then false else rest
distinct_endpoints ports paths (managed_endpoint b m ∷ endpoints) =
    let rest = λ (used : List ℕ). distinct_endpoints used (b.path ∷ paths) endpoints in
    if elem b.path paths then false else next_port m.readiness.port ports rest

abbrev pub validate_key : Option String → Option (Option String)
validate_key none = some none
validate_key (some key) = accept (not (is_empty (strip key))) (some (strip key))

abbrev pub has_provider : SecurityMode → Option String → List String → Bool
has_provider authenticated none [] = false
has_provider _ api_key proxies = true

-- `SecurityConfig`, with `validate_authentication_provider`
unfoldable pub validate_security : ConfigLib → SecurityConfig → Option SecurityConfig
unfolding validate_allowed_hosts validate_allowed_origins validate_trusted_proxies
    validate_header_name strip is_empty
validate_security lib s = do
  hosts ← validate_allowed_hosts s.allowed_hosts
  origins ← validate_allowed_origins lib s.allowed_origins
  api_key ← validate_key s.api_key
  proxies ← validate_trusted_proxies lib s.trusted_proxies
  header ← validate_header_name s.trusted_proxy_identity_header
  accept (has_provider s.mode api_key proxies) (record s {
    allowed_hosts = hosts;
    allowed_origins = origins;
    api_key = api_key;
    trusted_proxies = proxies;
    trusted_proxy_identity_header = header;
  })

unfoldable pub validate_endpoints : ConfigLib → List Endpoint → Option (List Endpoint)
unfolding validate_endpoint
validate_endpoints lib [] = some []
validate_endpoints lib (e ∷ es) =
    let rest = validate_endpoints lib es in
    validate_endpoint lib e >>= λ c. map_some (λ l. c ∷ l) rest

-- `RouterConfig.model_validate`
unfoldable pub validate_config : ConfigLib → RouterConfig → Option RouterConfig
unfolding validate_endpoints validate_security distinct_endpoints
validate_config lib config = do
  endpoints ← validate_endpoints lib config.endpoints
  security ← validate_security lib config.security
  accept
      (leb 1024 config.max_request_body_bytes
        && leb config.max_request_body_bytes 67_108_864
        && distinct_endpoints [] [] endpoints)
      (record config { endpoints = endpoints; security = security })
