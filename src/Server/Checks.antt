-- ===== src/Server/Checks.antt =====
-- mcp_router/server.py: what catch_all_proxy checks before it takes a limiter slot: the route, the
-- body, the protocol and the policy.
use mcp_mux_2_0_dev.Base.{
  String, Option, none, some, List, [], ◌∷◌, Bool, true, false, ◌&&◌, not, any, is_some, ◌==◌,
  if◌then◌else◌,
}
use mcp_mux_2_0_dev.Base.Text.{casefold, contains}
use mcp_mux_2_0_dev.Config.{Endpoint, base, Transport, sse, streamable_http}
use mcp_mux_2_0_dev.Policy.{from_endpoint, authorize}
use mcp_mux_2_0_dev.Protocol.{
  find_folded, ParsedRequest, ProtocolEra, modern, legacy, ProtocolRequestError, Result, ok, err,
  is_value, modern_protocol_version,
}
use mcp_mux_2_0_dev.Protocol.Validate.{extract_policy_request_names}
use mcp_mux_2_0_dev.Security.Gateway.{is_given, or_blank}
use mcp_mux_2_0_dev.Server.{PostBody, refused, accepted, read_post_body}
use mcp_mux_2_0_dev.Server.Leases.{
  Reply, Request, Surroundings, needs_streamable, no_subpaths, post_only, refused_body, stateless,
}

-- What the checks before admission leave: a refusal, or the parsed body, if any, and its era.
pub data Checked : Type 0 where
  refuse : Reply → Checked
  proceed : Option ParsedRequest → ProtocolEra → Checked

abbrev pub is_streamable : Option Transport → Bool
is_streamable (some streamable_http) = true
is_streamable _ = false

abbrev pub is_sse : Option Transport → Bool
is_sse (some sse) = true
is_sse _ = false

abbrev pub is_modern : ProtocolEra → Bool
is_modern modern = true
is_modern legacy = false

abbrev pub check_era : Endpoint → Request → PostBody → Checked
check_era endpoint request (refused why) = refuse (refused_body why)
check_era endpoint request (accepted body parsed era) =
    if is_modern era && not (is_streamable (base endpoint).transport)
    then refuse needs_streamable
    else if is_modern era && is_given request.session_id
    then refuse stateless
    else proceed (some parsed) era

unfoldable pub check_request : Surroundings → Endpoint → Request → Checked
unfolding read_post_body find_folded
check_request env endpoint request =
    if is_some request.subpath && not (is_sse (base endpoint).transport)
    then refuse no_subpaths
    else if request.method == "POST"
    then check_era endpoint request (
        read_post_body env.codec env.max_request_body_bytes request.headers
          (base endpoint).allow_headerless_legacy request.chunks)
    else if is_streamable (base endpoint).transport
        && is_value (find_folded "mcp-protocol-version" request.headers) modern_protocol_version
    then refuse post_only
    else proceed none legacy

-- `policy_names or (None,)`
abbrev pub names_or_none : List (Option String) → List (Option String)
names_or_none [] = none ∷ []
names_or_none (name ∷ names) = name ∷ names

-- `policy_names[0] if len(policy_names) == 1 else None`
abbrev pub single_name : List (Option String) → Option String
single_name (name ∷ []) = name
single_name _ = none

-- the loop of `policy.authorize` meets a refusal
unfoldable pub is_denied : Endpoint → Request → ParsedRequest → List (Option String) → Bool
unfolding any authorize from_endpoint
is_denied endpoint request parsed names =
    any
      (λ (name : Option String).
        not
          (authorize (from_endpoint endpoint) request.principal (base endpoint).path parsed.method
            name).allowed)
      (names_or_none names)

pub data Authorized : Type 0 where
  -- the name that a tool's own limits are kept under
  allows : Option String → Authorized
  denies : Authorized
  cannot_name : ProtocolRequestError → Authorized

abbrev pub authorize_names :
    Endpoint → Request → ParsedRequest → Result (List (Option String)) → Authorized
authorize_names endpoint request parsed (err e) = cannot_name e
authorize_names endpoint request parsed (ok names) =
    if is_denied endpoint request parsed names
    then denies
    else allows (if parsed.method == "tools/call" then single_name names else none)

unfoldable pub authorize_request : Endpoint → Request → Option ParsedRequest → Authorized
unfolding is_denied extract_policy_request_names
authorize_request endpoint request none = allows none
authorize_request endpoint request (some parsed) =
    authorize_names endpoint request parsed (extract_policy_request_names parsed)

-- `is_get and "text/event-stream" in request.headers.get("accept", "").casefold()`
unfoldable pub is_sse_init : Request → Bool
unfolding contains casefold find_folded
is_sse_init request =
    request.method == "GET"
    && contains (casefold (or_blank (find_folded "accept" request.headers))) "text/event-stream"
