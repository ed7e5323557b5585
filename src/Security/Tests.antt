-- ===== src/Security/Tests.antt =====
-- Requests through the header rules and the middleware of security.py.
use mcp_mux_2_0_dev.Base.{ap, String, ◌≡◌, ◌↔◌, refl, none, List, [], ◌∷◌, true, false}
use mcp_mux_2_0_dev.Base.Dict.{Dict, lookup}
use mcp_mux_2_0_dev.Base.Text.{casefold}
use mcp_mux_2_0_dev.Samples.{remote_tools, security_in}
use mcp_mux_2_0_dev.Config.{authenticated}
use mcp_mux_2_0_dev.Security.{NetLib, build_upstream_headers, is_never_forwarded}
use mcp_mux_2_0_dev.Security.Forwarded.{
  last_value, configured_headers, build_upstream_headers-never,
}
use mcp_mux_2_0_dev.Security.Gateway.{
  Scope, call, admitted, authenticated_principal, type_error, proxy_identity,
}
use mcp_mux_2_0_dev.Security.Admitted.{
  Handed, hands_on, call-Handed, Incomparable, authenticated_principal-type_error_iff,
}

abbrev inbound : List (String × String)
inbound = ("Cookie", "session") ∷ ("Authorization", "Bearer caller") ∷ ("x-team", "red") ∷ []

build_upstream_headers-never_example :
    lookup "Authorization" (build_upstream_headers inbound remote_tools)
    ≡ last_value "Authorization" (configured_headers remote_tools) none
unfolding is_never_forwarded casefold
build_upstream_headers-never_example =
    build_upstream_headers-never inbound remote_tools "Authorization" refl

abbrev no_addresses : NetLib
no_addresses = record {
  ip_is_loopback = λ s. none;
  urlsplit = λ s. none;
  ip_in_network = λ address network. false;
}

abbrev keyed : Scope
keyed = record {
  is_http = true;
  headers = ("Host", "localhost:8012") ∷ ("Authorization", "Bearer secret") ∷ [];
  client = [];
  method = "POST";
}

keyed_is_admitted : call no_addresses (security_in authenticated) keyed ≡ admitted "api-key" none
unfolding call
keyed_is_admitted = refl

call-Handed_example :
    Handed no_addresses
      (security_in authenticated)
      keyed
      (call no_addresses (security_in authenticated) keyed)
call-Handed_example =
    call-Handed no_addresses (security_in authenticated) keyed (ap hands_on keyed_is_admitted)

abbrev accented : Dict String
accented = ("authorization", "Bearer é") ∷ []

authenticated_principal-type_error_iff_example :
    (authenticated_principal no_addresses accented none (security_in authenticated) ≡ type_error)
    ↔ ((proxy_identity no_addresses accented none (security_in authenticated) ≡ none)
        × Incomparable no_addresses (security_in authenticated) accented none)
authenticated_principal-type_error_iff_example =
    authenticated_principal-type_error_iff no_addresses (security_in authenticated) accented none
