-- ===== src/Server/ReloadTests.antt =====
-- A concrete reload and a concrete idle runtime, for the registry of server.py.
use mcp_mux_2_0_dev.Base.{none, some, [], ◌∷◌}
use mcp_mux_2_0_dev.Base.Dict.{Dict, lookup}
use mcp_mux_2_0_dev.Config.{RouterConfig, local_only}
use mcp_mux_2_0_dev.Runtime.{EndpointRuntime, from_config, running}
use mcp_mux_2_0_dev.Samples.{remote_tools, managed_tools, security_in}
use mcp_mux_2_0_dev.Server.Registry.{apply_configuration, last_endpoint}
use mcp_mux_2_0_dev.Server.Reload.{Published, apply_configuration-Published}

abbrev config : RouterConfig
config = record {
  endpoints = managed_tools ∷ [];
  max_request_body_bytes = 1_048_576;
  security = security_in local_only;
}

abbrev registry : Dict EndpointRuntime
registry = ("tools", from_config remote_tools 4) ∷ ("old", from_config remote_tools 4) ∷ []

apply_configuration-Published_example :
    Published 9 70
      (lookup "tools" registry)
      (last_endpoint "tools" config.endpoints none)
      (lookup "tools" (apply_configuration (λ path. 9) 70 config registry))
apply_configuration-Published_example =
    apply_configuration-Published (λ path. 9) 70 config registry "tools"

abbrev rested : EndpointRuntime
rested = record (from_config managed_tools 0) {
  state = running;
  process = some (record { handle = 7; pid = 4000; returncode = none });
}
