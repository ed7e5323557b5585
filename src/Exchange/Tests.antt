-- ===== src/Exchange/Tests.antt =====
-- server.py: exchanges with an upstream service that fail, are retried, and are cut off.
use mcp_mux_2_0_dev.Base.{◌≡◌, refl, none, some, [], ◌∷◌}
use mcp_mux_2_0_dev.Json.{Codec, Json}
use mcp_mux_2_0_dev.Observability.{GatewayMetrics, record_upstream_error}
use mcp_mux_2_0_dev.Policy.{from_endpoint}
use mcp_mux_2_0_dev.Samples.{remote_tools}
use mcp_mux_2_0_dev.Exchange.{
  Proxy, UpstreamResponse, UrlLib, arrived, connected, get_target_url, json_exchange, proxy_request,
  rewrite_legacy_endpoint_data, rstrip_slashes,
}
use mcp_mux_2_0_dev.Exchange.Streams.{counted, sse_content}
use mcp_mux_2_0_dev.Exchange.Laws.{
  Accounts, is_error, IsScreened, json_exchange-IsScreened, proxy_request-Accounts,
  sse_content-once,
}

-- a codec for which every text is the JSON text `null`, and no body is UTF-8
abbrev codec : Codec
codec = record {
  decode_utf8 = λ body. none;
  loads_strict = λ text. some Json.null;
  loads = λ text. none;
  dumps = λ json. "null";
  decode_base64 = λ text. none;
}

abbrev proxy : Proxy
proxy = record {
  codec = codec;
  secrets = "hunter2" ∷ [];
  policy = from_endpoint remote_tools;
  principal = "local";
  path_prefix = "tools";
  retry = some (200, "null");
}

abbrev no_errors : GatewayMetrics
no_errors = record { denied_calls = []; upstream_errors = []; stream_cancellations = [] }

-- a body that is shorter than it is declared to be
abbrev cut_short : UpstreamResponse
cut_short = record {
  status_code = 200;
  headers = ("content-type", "application/json") ∷ ("content-length", "9") ∷ [];
  body = arrived (255 ∷ []);
}

abbrev events : UpstreamResponse
events = record {
  status_code = 200;
  headers = ("content-type", "text/event-stream") ∷ [];
  body = arrived [];
}

proxy_request-Accounts_example :
    Accounts "tools" no_errors
      (is_error proxy (connected cut_short))
      (proxy_request proxy (connected cut_short) no_errors)
proxy_request-Accounts_example = proxy_request-Accounts proxy (connected cut_short) no_errors

json_exchange-IsScreened_example :
    IsScreened proxy (json_exchange proxy cut_short cut_short.body no_errors).reply
json_exchange-IsScreened_example = json_exchange-IsScreened proxy cut_short cut_short.body no_errors

sse_content-once_example :
    (sse_content codec
      ("hunter2" ∷ [])
      "local"
      "tools"
      (λ i. remote_tools)
      200
      ("data: x" ∷ [])
      (some (counted "reset"))
      (proxy_request proxy (connected events) no_errors).metrics).metrics
    ≡ record_upstream_error "tools" no_errors
unfolding proxy_request
sse_content-once_example =
    sse_content-once proxy events no_errors (λ i. remote_tools) ("data: x" ∷ [])
      (some (counted "reset")) refl

-- an event that a fault cuts off is not sent
no_cut_off_event :
    (sse_content codec [] "local" "tools"
      (λ i. remote_tools)
      200
      ("data: x" ∷ [])
      (some (counted ""))
      no_errors).yielded
    ≡ []
unfolding sse_content
no_cut_off_event = refl

slashes : rstrip_slashes "/api//" ≡ "/api"
unfolding rstrip_slashes
slashes = refl

-- a library that reads every text as a path, and writes the path
abbrev path_lib : UrlLib
path_lib = record {
  urlparse = λ text. record {
    scheme = "";
    netloc = "";
    path = text;
    params = "";
    query = "";
    fragment = "";
  };
  urlunparse = λ url. url.path;
}

target : get_target_url path_lib "/mcp/" "/tools/call" "tools" ≡ "/mcp/call"
unfolding get_target_url
target = refl

rewritten : rewrite_legacy_endpoint_data path_lib "/messages?id=1" "tools" ≡ "/tools/messages?id=1"
unfolding rewrite_legacy_endpoint_data
rewritten = refl
