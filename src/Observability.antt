-- ===== src/Observability.antt =====
-- mcp_router/core/observability.py: the counters, and what the outermost middleware notes of one
-- response while its messages pass.
pub mod Record
mod Tests
use Prim.Native.Char.{code}
use mcp_mux_2_0_dev.Base.{
  ℕ, ◌+◌, String, Option, none, some, List, [], ◌∷◌, ◌++◌, Bool, true, false, ◌&&◌, ◌||◌, not, leb,
  nat_beq, any, ◌==◌, if◌then◌else◌,
}
use mcp_mux_2_0_dev.Base.Dict.{Dict, lookup, insert}
use mcp_mux_2_0_dev.Base.Text.{str_len, all_chars, casefold}
use mcp_mux_2_0_dev.Protocol.{find_folded}

-- A `Counter`: a key that is missing counts 0.
abbrev pub count_of : Option ℕ → ℕ
count_of none = 0
count_of (some n) = n

unfoldable pub count_at : String → Dict ℕ → ℕ
unfolding lookup
count_at endpoint counts = count_of (lookup endpoint counts)

-- `counts[endpoint] += 1`
unfoldable pub count_up : String → Dict ℕ → Dict ℕ
unfolding insert count_at
count_up endpoint counts = insert endpoint (count_at endpoint counts + 1) counts

pub record GatewayMetrics : Type 0 where
  pub denied_calls : Dict ℕ
  pub upstream_errors : Dict ℕ
  pub stream_cancellations : Dict ℕ

unfoldable pub record_denied_call : String → GatewayMetrics → GatewayMetrics
unfolding count_up
record_denied_call endpoint m = record m { denied_calls = count_up endpoint m.denied_calls }

unfoldable pub record_upstream_error : String → GatewayMetrics → GatewayMetrics
unfolding count_up
record_upstream_error endpoint m = record m {
  upstream_errors = count_up endpoint m.upstream_errors;
}

unfoldable pub record_stream_cancellation : String → GatewayMetrics → GatewayMetrics
unfolding count_up
record_stream_cancellation endpoint m = record m {
  stream_cancellations = count_up endpoint m.stream_cancellations;
}

pub record Snapshot : Type 0 where
  pub denied_calls_total : ℕ
  pub upstream_errors_total : ℕ
  pub stream_cancellations_total : ℕ

unfoldable pub snapshot : String → GatewayMetrics → Snapshot
unfolding count_at
snapshot endpoint m = record {
  denied_calls_total = count_at endpoint m.denied_calls;
  upstream_errors_total = count_at endpoint m.upstream_errors;
  stream_cancellations_total = count_at endpoint m.stream_cancellations;
}

-- `[A-Za-z0-9._:-]{1,128}`
abbrev pub is_request_id : String → Bool
is_request_id s =
    leb 1 (str_len s)
    && leb (str_len s) 128
    && all_chars
        (λ ch.
          let c = code ch in
          (leb 65 c && leb c 90)
          || (leb 97 c && leb c 122)
          || (leb 45 c && leb c 46)
          || (leb 48 c && leb c 58)
          || nat_beq c 95)
        s

abbrev pub or_generated : Option String → String → String
or_generated none generated = generated
or_generated (some supplied) generated = if is_request_id supplied then supplied else generated

-- `_request_id`; `generated` is a fresh UUID in hexadecimal
unfoldable pub request_id : List (String × String) → String → String
unfolding find_folded str_len all_chars
request_id headers generated = or_generated (find_folded "x-request-id" headers) generated

-- The local variables of `__call__`.
pub record Observed : Type 0 where
  pub status_code : ℕ
  pub bytes_streamed : ℕ
  pub response_started : Bool
  pub response_complete : Bool
  pub cancelled : Bool
  pub downstream_disconnected : Bool

abbrev pub unobserved : Observed
unobserved = record {
  status_code = 500;
  bytes_streamed = 0;
  response_started = false;
  response_complete = false;
  cancelled = false;
  downstream_disconnected = false;
}

unfoldable pub mark_downstream_disconnect : Observed → Observed
mark_downstream_disconnect o = if o.response_complete then o else record o {
  cancelled = true;
  downstream_disconnected = o.response_started;
  status_code = 499;
}

-- What passes the middleware. A send carries whether it goes through, or raises ClientDisconnect
-- or OSError; the application ends by returning, or by an exception.
pub data Event : Type 0 where
  receives_disconnect receives_other : Event
  sends_start : ℕ → Bool → Event
  sends_body : ℕ → Bool → Bool → Event
  raises_disconnect raises_cancelled : Event

-- `observed_receive`, `observed_send` and the handlers of `__call__`
unfoldable pub observe : Event → Observed → Observed
unfolding mark_downstream_disconnect
observe receives_disconnect o = mark_downstream_disconnect o
observe receives_other o = o
observe (sends_start status true) o = record o { status_code = status; response_started = true }
observe (sends_start status false) o =
    mark_downstream_disconnect (record o { status_code = status })
observe (sends_body size more true) o = record o {
  bytes_streamed = o.bytes_streamed + size;
  response_complete = if more then o.response_complete else true;
}
observe (sends_body size more false) o = mark_downstream_disconnect o
observe raises_disconnect o = mark_downstream_disconnect o
observe raises_cancelled o = record o { cancelled = true; status_code = 499 }

unfoldable pub observe_all : List Event → Observed → Observed
unfolding observe
observe_all [] o = o
observe_all (e ∷ es) o = observe_all es (observe e o)

-- the `finally` block; the endpoint is the one that the router noted in the scope
unfoldable pub conclude : Option String → Observed → GatewayMetrics → GatewayMetrics
unfolding record_stream_cancellation
conclude none o m = m
conclude (some endpoint) o m =
    if o.downstream_disconnected && not (endpoint == "")
    then record_stream_cancellation endpoint m
    else m

-- The headers of a response start: the request's id is added if there is none.
unfoldable pub with_request_id : String → List (String × String) → List (String × String)
unfolding any casefold
with_request_id id raw_headers =
    if any (λ (h : String × String). casefold h.0 == "x-request-id") raw_headers
    then raw_headers
    else raw_headers ++ ("x-request-id", id) ∷ []
