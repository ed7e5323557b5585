-- ===== src/Redaction/Tests.antt =====
-- A text with a known secret through the redactor of redaction.py.
use mcp_mux_2_0_dev.Base.{ℕ, ◌≤◌, String, ◌≡◌, refl, some, List, [], ◌∷◌, arith}
use mcp_mux_2_0_dev.Redaction.{known_values, redact_known_secrets, settle}
use mcp_mux_2_0_dev.Base.{inr, true, elem}
use mcp_mux_2_0_dev.Base.Text.{is_empty, casefold, contains}
use mcp_mux_2_0_dev.Config.{RouterConfig, local_only}
use mcp_mux_2_0_dev.Samples.{remote_tools, security_in}
use mcp_mux_2_0_dev.Redaction.Names.{is_secret_name}
use mcp_mux_2_0_dev.Redaction.Sources.{
  from_router_config, from_router_config-Configured, first, injected,
}
use mcp_mux_2_0_dev.Redaction.Cutoff.{Whole, settle-Whole}

abbrev secrets : List String
secrets = known_values ("Bearer abc" ∷ "" ∷ [])

knows_token : secrets ≡ "Bearer abc" ∷ "abc" ∷ []
unfolding known_values
knows_token = refl

redacts_both : redact_known_secrets secrets "abcabx Bearer abc" ≡ "[REDACTED]abx [REDACTED]"
unfolding redact_known_secrets known_values
redacts_both = refl

settle-Whole_example :
    (c : ℕ) × (settle 7 "xx Bearer abc" secrets 6 ≡ some c)
    × (c ≤ 6)
    × Whole c "xx Bearer abc" secrets
settle-Whole_example = settle-Whole "xx Bearer abc" secrets 7 6 (omega arith)

abbrev gateway : RouterConfig
gateway = record {
  endpoints = remote_tools ∷ [];
  max_request_body_bytes = 1_048_576;
  security = security_in local_only;
}

knows_all : from_router_config gateway ≡ "Bearer upstream" ∷ "upstream" ∷ "secret" ∷ []
unfolding from_router_config is_secret_name
knows_all = refl

from_router_config-Configured_example : elem "Bearer upstream" (from_router_config gateway) ≡ true
unfolding is_secret_name is_empty casefold contains
from_router_config-Configured_example =
    from_router_config-Configured gateway "Bearer upstream"
      (inr (injected _ refl (first refl refl))) refl
