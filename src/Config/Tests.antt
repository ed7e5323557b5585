-- ===== src/Config/Tests.antt =====
-- config_loader.py: a configuration that validation lets through, and one that it refuses.
use mcp_mux_2_0_dev.Base.{◌≡◌, refl, none, some, [], ◌∷◌, map, All, true, false}
use mcp_mux_2_0_dev.Config.{
  EndpointBase, ManagedFields, RouterConfig, base, local_only, remote_endpoint,
}
use mcp_mux_2_0_dev.Config.Fields.{ConfigLib, validate_path}
use mcp_mux_2_0_dev.Config.HeaderFields.{normalize_headers, normalize_inbound_headers}
use mcp_mux_2_0_dev.Config.Models.{finalize_managed_fields, validate_base, validate_config}
use mcp_mux_2_0_dev.Config.Distinct.{AreDistinct}
use mcp_mux_2_0_dev.Config.Sound.{
  IsRunnable, IsSound, finalize_managed_fields-IsRunnable, validate_base-IsSound,
  validate_config-IsSound,
}
use mcp_mux_2_0_dev.Config.Watcher.{poll_loop, present, start, start-misses}
use mcp_mux_2_0_dev.Samples.{restart_policy, security_in, tools_base}

-- a library for which every text is the same URL
abbrev lib : ConfigLib
lib = record {
  urlsplit = λ url. some (record {
    scheme = "http";
    netloc = "127.0.0.1:9000";
    hostname = some "127.0.0.1";
    port = some (some 9000);
    path = "/mcp";
    query = "";
    fragment = "";
  });
  ip_is_loopback = λ host. some true;
  ip_network = λ network. some network;
}

abbrev plain_base : EndpointBase
plain_base = record tools_base { summary = "Tools"; inbound_headers = "X-Team" ∷ [] }

validate_base-IsSound_example : IsSound plain_base
unfolding validate_base
validate_base-IsSound_example = validate_base-IsSound lib plain_base refl

abbrev config : RouterConfig
config = record {
  endpoints = remote_endpoint plain_base ∷ [];
  max_request_body_bytes = 1_048_576;
  security = record (security_in local_only) { allowed_origins = [] };
}

validate_config-IsSound_example :
    All (λ e. IsSound (base e)) config.endpoints × AreDistinct config.endpoints
unfolding validate_config
validate_config-IsSound_example = validate_config-IsSound lib config refl

abbrev fields : ManagedFields
fields = record {
  argv = some ("serve" ∷ []);
  env = [];
  cwd = none;
  readiness = record {
    host = none;
    port = none;
    timeout = 15_000_000_000;
    interval = 200_000_000;
    legacy_initialize_fallback = false;
  };
  restart = restart_policy;
  unsafe_shell_command = none;
  allow_non_loopback_target = false;
}

finalize_managed_fields-IsRunnable_example : IsRunnable lib (record fields {
  readiness = record fields.readiness { host = some "127.0.0.1"; port = some 9000 };
})
unfolding finalize_managed_fields
finalize_managed_fields-IsRunnable_example =
    finalize_managed_fields-IsRunnable lib plain_base fields refl

start-misses_example : poll_loop lib (some 5) (map (present 5) (none ∷ some config ∷ [])) ≡ []
unfolding start
start-misses_example =
    start-misses lib 4 5 (some config) (none ∷ some config ∷ []) {first = some config} refl

reserved : validate_path " Summary " ≡ none
unfolding validate_path
reserved = refl

forbidden : normalize_inbound_headers ("X-Forwarded-Port" ∷ []) ≡ none
unfolding normalize_inbound_headers
forbidden = refl

doubled :
    normalize_headers (some (("Authorization", "Bearer Bearer token") ∷ []))
    ≡ some (some (("Authorization", "Bearer token") ∷ []))
unfolding normalize_headers
doubled = refl
