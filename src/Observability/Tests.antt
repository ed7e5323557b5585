-- ===== src/Observability/Tests.antt =====
-- A concrete response through the middleware of observability.py.
use mcp_mux_2_0_dev.Base.{◌≡◌, List, [], ◌∷◌, true, false}
use mcp_mux_2_0_dev.Observability.{
  GatewayMetrics, unobserved, Observed, Event, sends_start, sends_body, receives_disconnect,
  observe_all,
}
use mcp_mux_2_0_dev.Observability.Record.{sent_bytes, IsConsistent, observe_all-record}

abbrev events : List Event
events =
    sends_start 200 true
    ∷ sends_body 40 true true
    ∷ receives_disconnect
    ∷ sends_body 9 true false
    ∷ []

observe_all-record_example :
    ((observe_all events unobserved).bytes_streamed ≡ sent_bytes events)
    × IsConsistent (observe_all events unobserved)
observe_all-record_example = observe_all-record events

abbrev metrics : GatewayMetrics
metrics = record {
  denied_calls = ("tools", 2) ∷ [];
  upstream_errors = [];
  stream_cancellations = ("tools", 1) ∷ [];
}

abbrev disconnected : Observed
disconnected = record unobserved {
  cancelled = true;
  response_started = true;
  downstream_disconnected = true;
}
