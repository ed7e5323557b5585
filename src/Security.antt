-- ===== src/Security.antt =====
-- mcp_router/core/security.py: what the gateway reads from request headers, which headers it
-- passes on, and the names it trusts. The parsers of addresses and URLs are an argument.
pub mod Forwarded
pub mod Gateway
pub mod Admitted
mod Tests
use Prim.Native.Char.{Char, code}
use Prim.Native.String.{char_at}
use mcp_mux_2_0_dev.Base.{
  ℕ, ◌-◌, String, Option, none, some, List, [], ◌∷◌, Bool, true, false, ◌&&◌, ◌||◌, not, leb, ltb,
  nat_beq, is_some, any, elem, map, ◌==◌, if◌then◌else◌,
}
use mcp_mux_2_0_dev.Base.Dict.{Dict, lookup, insert}
use mcp_mux_2_0_dev.Base.Text.{
  str_len, is_empty, strip, casefold, starts_with, partition, split, all_chars,
}
use mcp_mux_2_0_dev.Config.{
  SecurityMode, local_only, remote, authenticated, SecurityConfig, Endpoint, base,
}

-- `urlsplit(value)`, its `port` readable
pub record SplitUrl : Type 0 where
  pub scheme : String
  pub hostname : Option String
  pub username : Option String
  pub password : Option String
  pub path : String
  pub query : String
  pub fragment : String

-- The standard library's `ipaddress` and `urllib.parse`; `none` is ValueError.
pub record NetLib : Type 0 where
  pub ip_is_loopback : String → Option Bool
  pub urlsplit : String → Option SplitUrl
  -- the address, which has to be one, is in the network
  pub ip_in_network : String → String → Bool

-- `d.update(entries)`, and a dict made of its entries in order
unfoldable pub update {ℓ} : {V : Type ℓ} → Dict V → List (String × V) → Dict V
update d [] = d
update d ((k, v) ∷ entries) = update (insert k v d) entries

abbrev pub is_hop_by_hop : String → Bool
is_hop_by_hop name = elem name (
    "host" ∷ "content-length" ∷ "connection" ∷ "transfer-encoding" ∷ "keep-alive" ∷ "te" ∷ "trailer"
    ∷ "upgrade" ∷ [])

abbrev pub is_caller_credential : String → Bool
is_caller_credential name = elem name ("authorization" ∷ "cookie" ∷ "proxy-authorization" ∷ [])

abbrev pub is_forwarded_identity : String → Bool
is_forwarded_identity name = elem name (
    "forwarded" ∷ "x-forwarded-for" ∷ "x-forwarded-host" ∷ "x-forwarded-proto" ∷ "x-forwarded-user"
    ∷ "x-real-ip" ∷ [])

abbrev pub is_default_upstream : String → Bool
is_default_upstream name = elem name (
    "accept" ∷ "content-type" ∷ "mcp-protocol-version" ∷ "mcp-method" ∷ "mcp-name"
    ∷ "mcp-session-id" ∷ "last-event-id" ∷ "traceparent" ∷ "tracestate" ∷ [])

abbrev pub is_sensitive_response : String → Bool
is_sensitive_response name = elem name ("authorization" ∷ "proxy-authorization" ∷ "set-cookie" ∷ [])

-- `[0-9a-f]`
abbrev pub is_lower_hex : Char → Bool
is_lower_hex ch = let c = code ch in (leb 48 c && leb c 57) || (leb 97 c && leb c 102)

abbrev pub is_hex_of : ℕ → String → Bool
is_hex_of n s = nat_beq (str_len s) n && all_chars is_lower_hex s

-- the groups of the pattern, which holds no other dash
abbrev pub valid_fields : List String → Bool
valid_fields (version ∷ trace_id ∷ parent_id ∷ flags ∷ []) =
    version == "00"
    && is_hex_of 32 trace_id
    && is_hex_of 16 parent_id
    && is_hex_of 2 flags
    && not (trace_id == "00000000000000000000000000000000")
    && not (parent_id == "0000000000000000")
valid_fields _ = false

-- `_valid_traceparent`
unfoldable pub valid_traceparent : Option String → Bool
unfolding split str_len all_chars
valid_traceparent none = false
valid_traceparent (some value) = valid_fields (split 45 value)

-- `is_loopback_host`
unfoldable pub is_loopback_host : NetLib → String → Bool
unfolding strip casefold
is_loopback_host net host =
    let candidate = casefold (strip host) in
    if candidate == "localhost"
    then true
    else elim (net.ip_is_loopback candidate) [ none ↦ false | some b ↦ b ]

unfoldable pub is_mode : SecurityMode → SecurityMode → Bool
is_mode local_only local_only = true
is_mode remote remote = true
is_mode authenticated authenticated = true
is_mode _ _ = false

-- a URL that names a page of this computer and nothing more
abbrev pub is_local_url : NetLib → SplitUrl → Bool
is_local_url net parsed =
    (parsed.scheme == "http" || parsed.scheme == "https")
    && not (is_some parsed.username)
    && not (is_some parsed.password)
    && (parsed.path == "" || parsed.path == "/")
    && is_empty parsed.query
    && is_empty parsed.fragment
    && elim parsed.hostname [ none ↦ false | some hostname ↦ is_loopback_host net hostname ]

-- `_origin_allowed`
unfoldable pub origin_allowed : NetLib → String → SecurityConfig → Bool
unfolding elem is_mode is_empty is_loopback_host
origin_allowed net value security =
    if elem value security.allowed_origins
    then true
    else if not (is_mode security.mode local_only)
    then false
    else elim (net.urlsplit value) [ none ↦ false | some parsed ↦ is_local_url net parsed ]

-- `validate_bind_security`: whether it returns, and does not raise ValueError
unfoldable pub validate_bind_security : NetLib → String → SecurityConfig → Bool
unfolding is_loopback_host is_mode
validate_bind_security net host security =
    is_loopback_host net host || is_mode security.mode remote || is_mode security.mode authenticated

-- the value of the first header of that name, in any case
unfoldable pub first_header : String → List (String × String) → Option String
unfolding casefold
first_header name [] = none
first_header name ((key, value) ∷ rest) =
    if casefold key == name then some value else first_header name rest

-- the header, with its name in lower case, is one that the loop drops before it reads what is allowed
unfoldable pub is_never_forwarded : String → Bool
unfolding elem starts_with
is_never_forwarded lower =
    is_hop_by_hop lower
    || is_caller_credential lower
    || is_forwarded_identity lower
    || starts_with lower "x-forwarded-"

abbrev pub is_allowed_upstream : List String → String → Bool
is_allowed_upstream extra lower =
    is_default_upstream lower || starts_with lower "mcp-param-" || elem lower extra

-- `continue` or not, for one inbound header
unfoldable pub forwards : Bool → List String → String × String → Bool
unfolding casefold elem starts_with str_len is_never_forwarded
forwards valid_trace_context extra (key, value) =
    let lower = casefold key in
    if is_never_forwarded lower
    then false
    else if (lower == "traceparent" || lower == "tracestate") && not valid_trace_context
    then false
    else if lower == "tracestate" && ltb 512 (str_len value)
    then false
    else is_allowed_upstream extra lower

-- the loop over the inbound headers
unfoldable pub forward_all : Bool → List String → List (String × String) → Dict String → Dict String
unfolding forwards
forward_all valid extra [] headers = headers
forward_all valid extra ((key, value) ∷ inbound) headers =
    forward_all valid extra inbound
      (if forwards valid extra (key, value) then insert key value headers else headers)

-- `if endpoint.headers: headers.update(endpoint.headers)`
abbrev pub with_configured : Option (Dict String) → Dict String → Dict String
with_configured none headers = headers
with_configured (some configured) headers = update headers configured

unfoldable pub build_upstream_headers : List (String × String) → Endpoint → Dict String
unfolding forward_all update valid_traceparent first_header casefold
build_upstream_headers inbound endpoint =
    let b = base endpoint in
    let extra = map casefold b.inbound_headers in
    let valid_trace_context = valid_traceparent (first_header "traceparent" inbound) in
    let headers = forward_all valid_trace_context extra inbound [] in
    with_configured b.headers headers

-- the names that `sanitize_response_headers` drops
unfoldable pub is_skipped : Bool → Bool → String → Bool
unfolding elem
is_skipped body_was_decoded body_was_transformed name =
    is_hop_by_hop name
    || is_sensitive_response name
    || (body_was_decoded && elem name ("content-encoding" ∷ "content-length" ∷ []))
    || (body_was_transformed
        && elem name (
            "content-encoding" ∷ "content-length" ∷ "etag" ∷ "digest" ∷ "content-digest"
            ∷ "repr-digest" ∷ "content-md5" ∷ "last-modified" ∷ "expires" ∷ "age" ∷ []))

unfoldable pub keep_response : Bool → Bool → List (String × String) → Dict String → Dict String
unfolding casefold is_skipped
keep_response decoded transformed [] kept = kept
keep_response decoded transformed ((key, value) ∷ headers) kept =
    keep_response decoded transformed headers
      (if is_skipped decoded transformed (casefold key) then kept else insert key value kept)

unfoldable pub sanitize_response_headers : List (String × String) → Bool → Bool → Dict String
unfolding keep_response
sanitize_response_headers headers body_was_decoded body_was_transformed =
    keep_response body_was_decoded body_was_transformed headers []
