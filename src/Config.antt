-- ===== src/Config.antt =====
-- mcp_router/core/config_loader.py: the validated configuration that the rest of the gateway
-- reads. Durations are counted in nanoseconds, the resolution of Python's monotonic clock.
pub mod Fields
pub mod Names
pub mod HeaderFields
pub mod Models
pub mod Rules
pub mod Distinct
pub mod Headers
pub mod Sound
pub mod Watcher
pub mod Environment
mod Tests
mod EnvironmentTests
use mcp_mux_2_0_dev.Base.{ℕ, String, Option, List, Bool, true, false}
use mcp_mux_2_0_dev.Base.Dict.{Dict}

pub data SecurityMode : Type 0 where
  local_only remote authenticated : SecurityMode

pub record SecurityConfig : Type 0 where
  pub mode : SecurityMode
  pub allowed_hosts : List String
  pub allowed_origins : List String
  pub api_key : Option String
  pub trusted_proxies : List String
  pub trusted_proxy_identity_header : String

pub record RequestLimitConfig : Type 0 where
  pub max_concurrent : Option ℕ
  pub requests_per_minute : Option ℕ

pub record LegacySseBridgeConfig : Type 0 where
  pub queue_capacity : ℕ
  pub backpressure_timeout : ℕ
  pub session_ttl : ℕ
  pub max_sessions : ℕ

pub data Transport : Type 0 where
  sse streamable_http : Transport

pub record EndpointBase : Type 0 where
  pub path : String
  pub url : String
  pub summary : String
  pub timeout : ℕ
  pub upstream_timeout : ℕ
  pub transport : Option Transport
  pub legacy_sse_bridge : Option LegacySseBridgeConfig
  pub allow_headerless_legacy : Bool
  pub allowed_methods : Option (List String)
  pub denied_methods : Option (List String)
  pub allowed_tools : Option (List String)
  pub denied_tools : Option (List String)
  pub allowed_resources : Option (List String)
  pub denied_resources : Option (List String)
  pub allowed_prompts : Option (List String)
  pub denied_prompts : Option (List String)
  pub inbound_headers : List String
  pub headers : Option (Dict String)
  pub limits : RequestLimitConfig
  pub tool_limits : Dict RequestLimitConfig

pub record ManagedRestartConfig : Type 0 where
  pub enabled : Bool
  pub max_attempts : ℕ
  pub initial_backoff : ℕ
  pub max_backoff : ℕ

pub record ManagedReadinessConfig : Type 0 where
  pub host : Option String
  pub port : Option ℕ
  pub timeout : ℕ
  pub interval : ℕ
  pub legacy_initialize_fallback : Bool

pub record ManagedFields : Type 0 where
  pub argv : Option (List String)
  pub env : Dict String
  pub cwd : Option String
  pub readiness : ManagedReadinessConfig
  pub restart : ManagedRestartConfig
  pub unsafe_shell_command : Option String
  pub allow_non_loopback_target : Bool

-- The two classes of the discriminated union.
pub data Endpoint : Type 0 where
  remote_endpoint : EndpointBase → Endpoint
  managed_endpoint : EndpointBase → ManagedFields → Endpoint

-- the fields that both classes inherit
abbrev pub base : Endpoint → EndpointBase
base (remote_endpoint b) = b
base (managed_endpoint b m) = b

-- `isinstance(endpoint, ManagedEndpointConfig)`
abbrev pub is_managed : Endpoint → Bool
is_managed (remote_endpoint b) = false
is_managed (managed_endpoint b m) = true

pub record RouterConfig : Type 0 where
  pub endpoints : List Endpoint
  pub max_request_body_bytes : ℕ
  pub security : SecurityConfig
