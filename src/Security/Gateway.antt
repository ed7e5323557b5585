-- ===== src/Security/Gateway.antt =====
-- security.py: GatewaySecurityMiddleware, which sees every request before it is routed. What the
-- middleware does with a request is a value; `raised` is an exception that leaves it.
use mcp_mux_2_0_dev.Base.{
  ℕ, String, Option, none, some, List, [], ◌∷◌, ◌++◌, Bool, true, false, ◌&&◌, ◌||◌, not, is_some,
  any, elem, map, ◌==◌, if◌then◌else◌,
}
use Prim.Native.String
use mcp_mux_2_0_dev.Base.Dict.{Dict, lookup, insert}
use mcp_mux_2_0_dev.Base.Text.{
  is_empty, strip, casefold, starts_with, partition, rpartition, str_drop, is_digits, is_ascii,
  upper,
}
use mcp_mux_2_0_dev.Config.{SecurityMode, local_only, remote, authenticated, SecurityConfig}
use mcp_mux_2_0_dev.Security.{NetLib, is_loopback_host, origin_allowed, is_mode, update}

-- An ASGI scope, its header bytes decoded as Latin-1. A first value of `client` that is not a text
-- is `none`.
pub record Scope : Type 0 where
  pub is_http : Bool
  pub headers : List (String × String)
  pub client : List (Option String)
  pub method : String

-- `_scope_headers`
unfoldable pub scope_headers : List (String × String) → Dict String
unfolding update casefold
scope_headers headers = update [] (map (λ (h : String × String). (casefold h.0, h.1)) headers)

abbrev pub without_port : String → Option (String × String) → String
without_port candidate none = candidate
without_port candidate (some (host, port)) =
    if not (is_empty host) && is_digits port then host else candidate

abbrev pub bracketed : String → String × Option String → String
bracketed candidate (before, none) = casefold (without_port candidate (rpartition 58 candidate))
bracketed candidate (before, some after) = casefold (str_drop 1 before)

-- `_host_name`
unfoldable pub host_name : String → String
unfolding strip starts_with partition rpartition casefold str_drop is_digits is_empty
host_name value =
    let candidate = strip value in
    if starts_with candidate "["
    then bracketed candidate (partition 93 candidate)
    else casefold (without_port candidate (rpartition 58 candidate))

-- `_client_ip`
abbrev pub client_ip : List (Option String) → Option String
client_ip [] = none
client_ip (value ∷ rest) = value

-- `_peer_is_trusted`
unfoldable pub peer_is_trusted : NetLib → Option String → SecurityConfig → Bool
unfolding any
peer_is_trusted net none security = false
peer_is_trusted net (some peer) security =
    is_some (net.ip_is_loopback peer)
    && any (λ (network : String). net.ip_in_network peer network) security.trusted_proxies

abbrev pub non_empty : String → Option String
non_empty text = if is_empty text then none else some text

abbrev pub bearer_credentials : String × Option String → Option String
bearer_credentials (scheme, none) = none
bearer_credentials (scheme, some token) =
    if not (casefold scheme == "bearer") then none else non_empty (strip token)

-- `_bearer_token`
unfoldable pub bearer_token : Option String → Option String
unfolding partition casefold strip is_empty
bearer_token none = none
bearer_token (some value) = bearer_credentials (partition 32 value)

pub data Authentication : Type 0 where
  anonymous : Authentication
  principal : String → Authentication
  -- `hmac.compare_digest` raises TypeError for a text that is not ASCII
  type_error : Authentication

-- The identity that a trusted proxy passes on, where it has one.
unfoldable pub proxy_identity :
    NetLib → Dict String → Option String → SecurityConfig → Option String
unfolding peer_is_trusted lookup strip casefold is_empty
proxy_identity net headers peer security =
    if not (peer_is_trusted net peer security)
    then none
    else elim (lookup (casefold security.trusted_proxy_identity_header) headers) [
      | none ↦ none
      | some identity ↦ non_empty (strip identity)
    ]

-- the comparison with the configured key
unfoldable pub check_key : Option String → Option String → Authentication
unfolding is_ascii
check_key none supplied = anonymous
check_key (some key) none = anonymous
check_key (some key) (some supplied) =
    if not (is_ascii supplied && is_ascii key)
    then type_error
    else if supplied == key
    then principal "api-key"
    else anonymous

abbrev pub or_key : Option String → Authentication → Authentication
or_key none by_key = by_key
or_key (some identity) by_key = principal (String.◌++◌ "proxy:" identity)

-- `_authenticated_principal`
unfoldable pub authenticated_principal :
    NetLib → Dict String → Option String → SecurityConfig → Authentication
unfolding proxy_identity check_key bearer_token lookup
authenticated_principal net headers peer security =
    or_key (proxy_identity net headers peer security)
      (check_key security.api_key (bearer_token (lookup "authorization" headers)))

-- `_cors_headers`
unfoldable pub cors_headers : String → Dict String
cors_headers origin =
    ("Access-Control-Allow-Origin", origin)
    ∷ ("Access-Control-Allow-Credentials", "true")
    ∷ ("Vary", "Origin")
    ∷ []

pub data Outcome : Type 0 where
  -- the scope is not HTTP: handed on unchanged
  not_http : Outcome
  -- `_reject`: the status, the message and further headers
  rejected : ℕ → String → Dict String → Outcome
  -- the answer to a CORS preflight request, status 204
  preflight : Dict String → Outcome
  -- handed on for the principal, with CORS headers on the response for the origin
  admitted : String → Option String → Outcome
  raised : Outcome

abbrev pub is_local_peer : NetLib → Option String → Bool
is_local_peer net none = false
is_local_peer net (some peer) = is_loopback_host net peer

abbrev pub origin_is_valid : NetLib → SecurityConfig → Option String → Bool
origin_is_valid net security none = true
origin_is_valid net security (some origin) = origin_allowed net origin security

abbrev pub is_given : Option String → Bool
is_given none = false
is_given (some text) = not (is_empty text)

abbrev pub is_preflight : String → Option String → Dict String → Bool
is_preflight method origin headers =
    upper method == "OPTIONS"
    && is_some origin
    && is_given (lookup "access-control-request-method" headers)

abbrev pub with_requested : Option String → Dict String → Dict String
with_requested none headers = headers
with_requested (some requested) headers =
    if is_empty requested then headers else insert "Access-Control-Allow-Headers" requested headers

abbrev pub preflight_headers : Option String → Dict String → Dict String
preflight_headers none headers = []
preflight_headers (some origin) headers =
    insert "Access-Control-Allow-Methods" "GET, POST, PUT, DELETE, OPTIONS"
      (with_requested (lookup "access-control-request-headers" headers) (cors_headers origin))

abbrev pub by_authentication : Option String → Authentication → Outcome
by_authentication origin anonymous =
    rejected 401 "Caller authentication required" (("WWW-Authenticate", "Bearer") ∷ [])
by_authentication origin (principal name) = admitted name origin
by_authentication origin type_error = raised

abbrev pub by_mode : SecurityMode → Option String → Authentication → Outcome
by_mode local_only origin authentication = admitted "local" origin
by_mode remote origin authentication = admitted "remote" origin
by_mode authenticated origin authentication = by_authentication origin authentication

-- `headers.get(name, "")`
abbrev pub or_blank : Option String → String
or_blank none = ""
or_blank (some value) = value

-- `__call__`, after the host, the peer and the origin are known
abbrev pub guard : NetLib → SecurityConfig → Scope → Dict String → Outcome
guard net security scope headers =
    let host = host_name (or_blank (lookup "host" headers)) in
    let peer = client_ip scope.client in
    let origin = lookup "origin" headers in
    if is_empty host || not (elem host security.allowed_hosts)
    then rejected 403 "Invalid Host" []
    else if is_mode security.mode local_only && not (is_local_peer net peer)
    then rejected 403 "Local-only gateway access required" []
    else if not (origin_is_valid net security origin)
    then rejected 403 "Invalid Origin" []
    else if is_preflight scope.method origin headers
    then preflight (preflight_headers origin headers)
    else by_mode security.mode origin (authenticated_principal net headers peer security)

-- `GatewaySecurityMiddleware.__call__`
unfoldable pub call : NetLib → SecurityConfig → Scope → Outcome
unfolding scope_headers host_name lookup insert elem is_mode is_empty is_loopback_host
    origin_allowed upper cors_headers authenticated_principal
call net security scope =
    if not scope.is_http then not_http else guard net security scope (scope_headers scope.headers)

-- A message that the application sends.
pub data Message : Type 0 where
  response_start : List (String × String) → Message
  other_message : Message

-- `cors_send`
unfoldable pub cors_send : String → Message → Message
unfolding cors_headers casefold
cors_send origin (response_start raw_headers) =
    response_start
      (raw_headers ++ map (λ (h : String × String). (casefold h.0, h.1)) (cors_headers origin))
cors_send origin other_message = other_message
