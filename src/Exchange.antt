-- ===== src/Exchange.antt =====
-- mcp_router/server.py: the exchange of one request with the upstream service, `_proxy_request` and
-- `sse_proxy_generator`, and the addresses of both. What the HTTP client returns is an argument.
pub mod Streams
pub mod Laws
mod Tests
use Prim.Native.String
use mcp_mux_2_0_dev.Base.{
  ℕ, ◌+◌, String, Option, none, some, List, [], ◌∷◌, Bool, true, false, ◌&&◌, ◌||◌, not, ◌==◌, leb,
  ltb, nat_beq, length, if◌then◌else◌,
}
use mcp_mux_2_0_dev.Base.Dict.{Dict, insert}
use mcp_mux_2_0_dev.Base.Text.{casefold, contains, is_empty, remove_prefix, starts_with}
use mcp_mux_2_0_dev.Json.{Codec, Json}
use mcp_mux_2_0_dev.Observability.{GatewayMetrics, record_upstream_error}
use mcp_mux_2_0_dev.Policy.{CapabilityPolicy, project_json_text}
use mcp_mux_2_0_dev.Protocol.{Headers, find_folded}
use mcp_mux_2_0_dev.Redaction.{redact_known_secrets}
use mcp_mux_2_0_dev.Server.{is_stale_json_body}
use mcp_mux_2_0_dev.Server.Transit.{safe_response_headers}

-- `urllib.parse.ParseResult`
pub record ParsedUrl : Type 0 where
  pub scheme : String
  pub netloc : String
  pub path : String
  pub params : String
  pub query : String
  pub fragment : String

pub record UrlLib : Type 0 where
  pub urlparse : String → ParsedUrl
  pub urlunparse : ParsedUrl → String

-- `s.removeprefix(p)`
abbrev pub without_prefix : String → Option String → String
without_prefix s none = s
without_prefix s (some rest) = rest

-- `s.rstrip("/")`
abbrev pub strip_slash : String → String → String
strip_slash slash rest = if is_empty rest && (slash == "/") then "" else String.◌++◌ slash rest

unfoldable pub rstrip_slashes : String → String
unfolding is_empty
rstrip_slashes String.[] = ""
rstrip_slashes (String.◌∷◌ c s) = strip_slash (String.◌∷◌ c "") (rstrip_slashes s)

unfoldable pub get_target_url : UrlLib → String → String → String → String
unfolding rstrip_slashes remove_prefix starts_with is_empty
get_target_url lib config_url request_path path_prefix =
    let parsed_cfg = lib.urlparse config_url in
    let prefix = String.◌++◌ "/" path_prefix in
    let suffix = without_prefix request_path (remove_prefix request_path prefix) in
    let joined = String.◌++◌ (rstrip_slashes parsed_cfg.path) suffix in
    let joined_path = if starts_with joined "/" then joined else String.◌++◌ "/" joined in
    lib.urlunparse (record parsed_cfg { path = joined_path; query = "" })

unfoldable pub rewrite_legacy_endpoint_data : UrlLib → String → String → String
unfolding starts_with is_empty
rewrite_legacy_endpoint_data lib text path_prefix =
    let parsed = lib.urlparse text in
    let prefix = String.◌++◌ "/" path_prefix in
    let new_path = String.◌++◌ prefix parsed.path in
    if not (starts_with text "/" || starts_with text "http://" || starts_with text "https://")
    then text
    else if not (is_empty parsed.netloc)
    then (if is_empty parsed.query
        then new_path
        else String.◌++◌ new_path (String.◌++◌ "?" parsed.query))
    else String.◌++◌ prefix text

-- How the reading of a whole body ends.
pub data BodyRead : Type 0 where
  arrived : List ℕ → BodyRead
  timed_out broken : BodyRead

-- What the client gives after it has entered the response's context.
pub record UpstreamResponse : Type 0 where
  pub status_code : ℕ
  pub headers : Headers
  pub body : BodyRead

-- The exchange: an exception that is caught, or a response.
pub data Fetched : Type 0 where
  unavailable : Fetched
  connected : UpstreamResponse → Fetched

-- What the router has for one exchange. `retry` is the second response, its status and its text, or
-- none if one of the exceptions that are caught is raised.
pub record Proxy : Type 0 where
  pub codec : Codec
  pub secrets : List String
  pub policy : CapabilityPolicy
  pub principal : String
  pub path_prefix : String
  pub retry : Option (ℕ × String)

pub data Reply : Type 0 where
  -- a body with an error, and the status
  error_reply : ℕ → String → Reply
  -- a whole body
  body_reply : ℕ → Dict String → String → Reply
  -- events, texts and bytes that are still to be read
  event_reply : ℕ → Dict String → Reply
  stream_reply : ℕ → Dict String → Bool → Reply

-- The reply, the counters, and whether the response's context was exited.
pub record Exchanged : Type 0 where
  pub reply : Reply
  pub metrics : GatewayMetrics
  pub exited : Bool

-- `if response.status_code < 500: record_upstream_error`
abbrev pub count_below_500 : ℕ → String → GatewayMetrics → GatewayMetrics
count_below_500 status path m = if ltb status 500 then record_upstream_error path m else m

abbrev pub is_some_json : Option Json → Bool
is_some_json none = false
is_some_json (some j) = true

-- `_retry_upstream_once`
unfoldable pub retry_upstream_once : Codec → Option (ℕ × String) → Option String
retry_upstream_once codec none = none
retry_upstream_once codec (some (status, text)) =
    if leb 400 status
    then none
    else if is_some_json (codec.loads_strict text)
    then some text
    else none

abbrev pub done : Reply → GatewayMetrics → Exchanged
done reply metrics = record { reply = reply; metrics = metrics; exited = true }

abbrev pub with_no_store : Bool → Dict String → Dict String
with_no_store transformed headers =
    if transformed then insert "Cache-Control" "private, no-store" headers else headers

module _ (p : Proxy) (r : UpstreamResponse) where
  -- a JSON text, redacted and projected
  abbrev pub project_reply : String → Reply
  project_reply decoded =
      let redacted = redact_known_secrets p.secrets decoded in
      let (projected, changed) =
        project_json_text p.codec p.policy p.principal p.path_prefix redacted in
      let transformed = changed || not (redacted == decoded) in
      body_reply r.status_code
        (with_no_store transformed (safe_response_headers p.secrets r.headers true transformed))
        projected

  abbrev pub after_retry : Option String → GatewayMetrics → Exchanged
  after_retry none m = done (error_reply 502 "Upstream response read failed") m
  after_retry (some text) m = done (project_reply text) m

  -- a body that is no UTF-8 or no JSON
  abbrev pub malformed : List ℕ → GatewayMetrics → Exchanged
  malformed body m =
      let m' = count_below_500 r.status_code p.path_prefix m in
      if is_stale_json_body (length body) r.headers
      then after_retry (retry_upstream_once p.codec p.retry) m'
      else done (error_reply 502 "Upstream returned malformed JSON") m'

  abbrev pub parsed : List ℕ → String → Option Json → GatewayMetrics → Exchanged
  parsed body text none m = malformed body m
  parsed body text (some j) m = done (project_reply text) m

  abbrev pub is_blank : List ℕ → Bool
  is_blank [] = true
  is_blank (x ∷ xs) = false

  abbrev pub decoded : List ℕ → Option String → GatewayMetrics → Exchanged
  decoded body none m = malformed body m
  decoded body (some text) m =
      if is_blank body && (nat_beq r.status_code 202 || nat_beq r.status_code 204)
      then done (body_reply r.status_code (safe_response_headers p.secrets r.headers true false) "")
          m
      else parsed body text (p.codec.loads_strict text) m

  -- a response that says it is JSON
  abbrev pub json_exchange : BodyRead → GatewayMetrics → Exchanged
  json_exchange timed_out m =
      done (error_reply 504 "Upstream response timed out")
        (count_below_500 r.status_code p.path_prefix m)
  json_exchange broken m =
      done (error_reply 502 "Upstream response read failed")
        (count_below_500 r.status_code p.path_prefix m)
  json_exchange (arrived body) m = decoded body (p.codec.decode_utf8 body) m

-- `response.headers.get("content-type", "")`
abbrev pub or_empty : Option String → String
or_empty none = ""
or_empty (some s) = s

-- `redactor.active`
abbrev pub is_active : List String → Bool
is_active [] = false
is_active (x ∷ xs) = true

-- the headers of a stream of events
unfoldable pub event_headers : List String → Headers → Dict String
unfolding insert safe_response_headers
event_headers secrets headers = insert "X-Accel-Buffering" "no" (
    insert "Connection" "keep-alive"
      (insert "Cache-Control" "no-cache" (safe_response_headers secrets headers false true)))

unfoldable pub respond : Proxy → UpstreamResponse → GatewayMetrics → Exchanged
unfolding insert find_folded casefold contains starts_with redact_known_secrets project_json_text
    safe_response_headers record_upstream_error is_stale_json_body retry_upstream_once event_headers
respond p r m =
    let m' = if leb 500 r.status_code then record_upstream_error p.path_prefix m else m in
    let content_type = casefold (or_empty (find_folded "content-type" r.headers)) in
    let redacts = starts_with content_type "text/" && is_active p.secrets in
    if contains content_type "application/json"
    then json_exchange p r r.body m'
    else if contains content_type "event-stream"
    then record {
      reply = event_reply r.status_code (event_headers p.secrets r.headers);
      metrics = m';
      exited = false;
    }
    else record {
      reply =
          stream_reply r.status_code
            (with_no_store redacts (safe_response_headers p.secrets r.headers false redacts))
            redacts;
      metrics = m';
      exited = false;
    }

-- `_proxy_request`, up to the reading of a stream
unfoldable pub proxy_request : Proxy → Fetched → GatewayMetrics → Exchanged
unfolding respond record_upstream_error
proxy_request p unavailable m =
    done (error_reply 502 "Upstream proxy request failed") (record_upstream_error p.path_prefix m)
proxy_request p (connected r) m = respond p r m
