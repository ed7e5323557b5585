-- ===== src/Exchange/Streams.antt =====
-- server.py: the generators of streamed responses, in `_proxy_request` and `sse_proxy_generator`. A
-- stream is what is read of it, and the exception that ends the reading, if there is one.

use mcp_mux_2_0_dev.Base.{
  ℕ, zero, suc, String, Option, none, some, List, [], ◌∷◌, Bool, true, false, leb, if◌then◌else◌,
}
use mcp_mux_2_0_dev.Base.Text.{is_empty}
use mcp_mux_2_0_dev.Config.{Endpoint}
use mcp_mux_2_0_dev.Json.{Codec}
use mcp_mux_2_0_dev.Observability.{GatewayMetrics, record_upstream_error}
use mcp_mux_2_0_dev.Policy.{from_endpoint, project_json_text}
use mcp_mux_2_0_dev.Redaction.{feed, finish, redact_known_secrets}
use mcp_mux_2_0_dev.Sse.{
  iter_sse_events, render_sse_event, transform_sse_event, up_to_blank, whole_lines,
}
use mcp_mux_2_0_dev.Exchange.{UrlLib, count_below_500, rewrite_legacy_endpoint_data}

-- An exception, with its text: one of those that the generator counts, or another.
pub data Fault : Type 0 where
  counted uncounted : String → Fault

abbrev pub fault_text : Option Fault → Option String
fault_text none = none
fault_text (some (counted text)) = some text
fault_text (some (uncounted text)) = some text

-- What a generator yielded, the counters after it, and whether it raised. It has exited the
-- response's context, in its `finally` block.
pub record Sent : Type 0 where
  pub yielded : List String
  pub metrics : GatewayMetrics
  pub raised : Bool

abbrev pub after_fault : ℕ → String → Option Fault → GatewayMetrics → GatewayMetrics
after_fault status path none m = m
after_fault status path (some (counted text)) m = count_below_500 status path m
after_fault status path (some (uncounted text)) m = m

abbrev pub raises : Option Fault → Bool
raises none = false
raises (some f) = true

module _ (codec : Codec) (secrets : List String) (principal path_prefix : String) where
  -- the payload of an event, by the policy of the endpoint as it is configured at that moment
  unfoldable pub project_event : Endpoint → String → String
  unfolding redact_known_secrets project_json_text from_endpoint
  project_event endpoint text =
      (project_json_text codec (from_endpoint endpoint) principal path_prefix
        (redact_known_secrets secrets text)).0

  -- the events one by one; `endpoints i` is the endpoint when the event with index `i` is sent
  unfoldable pub transform_events : (ℕ → Endpoint) → ℕ → List (List String) → List String
  unfolding project_event render_sse_event transform_sse_event
  transform_events endpoints i [] = []
  transform_events endpoints i (event ∷ events) =
      render_sse_event (transform_sse_event event (project_event (endpoints i)))
      ∷ transform_events endpoints (suc i) events

  -- `sse_content_generator`
  unfoldable pub sse_content :
      (ℕ → Endpoint) → ℕ → List String → Option Fault → GatewayMetrics → Sent
  unfolding transform_events iter_sse_events up_to_blank record_upstream_error
  sse_content endpoints status lines fault m = record {
    yielded =
        transform_events endpoints zero (iter_sse_events (whole_lines (fault_text fault) lines));
    metrics = after_fault status path_prefix fault m;
    raised = raises fault;
  }

  -- the payload of an event for a client of the old transport; there may be no endpoint any more
  abbrev pub legacy_event : UrlLib → Option Endpoint → String → String
  legacy_event lib none text =
      redact_known_secrets secrets (rewrite_legacy_endpoint_data lib text path_prefix)
  legacy_event lib (some endpoint) text =
      project_event endpoint (rewrite_legacy_endpoint_data lib text path_prefix)

  unfoldable pub legacy_events :
      UrlLib → (ℕ → Option Endpoint) → ℕ → List (List String) → List String
  unfolding render_sse_event transform_sse_event
  legacy_events lib endpoints i [] = []
  legacy_events lib endpoints i (event ∷ events) =
      render_sse_event (transform_sse_event event (legacy_event lib (endpoints i)))
      ∷ legacy_events lib endpoints (suc i) events

  -- `sse_proxy_generator`: the exception of the connection, or the response's status and lines
  pub data Connection : Type 0 where
    refused : Fault → Connection
    responds : ℕ → List String → Option Fault → Connection

  abbrev pub refused_metrics : Fault → GatewayMetrics → GatewayMetrics
  refused_metrics (counted text) m = record_upstream_error path_prefix m
  refused_metrics (uncounted text) m = m

  unfoldable pub sse_proxy_generator :
      UrlLib → (ℕ → Option Endpoint) → Connection → GatewayMetrics → Sent
  unfolding legacy_events iter_sse_events up_to_blank record_upstream_error
  sse_proxy_generator lib endpoints (refused fault) m = record {
    yielded = [];
    metrics = refused_metrics fault m;
    raised = true;
  }
  sse_proxy_generator lib endpoints (responds status lines fault) m =
      let m' = if leb 500 status then record_upstream_error path_prefix m else m in
      record {
        yielded =
            legacy_events lib endpoints zero
              (iter_sse_events (whole_lines (fault_text fault) lines));
        metrics = after_fault status path_prefix fault m';
        raised = raises fault;
      }

-- the chunks that are not empty
abbrev pub non_empty : String → List String → List String
non_empty out outs = if is_empty out then outs else out ∷ outs

abbrev pub or_stuck : String → Option (List String) → Option (List String)
or_stuck out none = none
or_stuck out (some outs) = some (non_empty out outs)

-- The loop of `content_generator` over the texts of a response that is redacted. What is carried
-- over is sent at the end, but not after an exception. `none` is want of fuel in `feed`.
unfoldable pub redact_texts : List String → Bool → String → List String → Option (List String)
unfolding finish
redact_texts secrets complete carry [] =
    some (if complete then non_empty (finish secrets carry).0 [] else [])
redact_texts secrets complete carry (text ∷ texts) = elim (feed secrets carry text) [
  | none ↦ none
  | some (out, carry') ↦ or_stuck out (redact_texts secrets complete carry' texts)
]

abbrev pub ended : Option Fault → Bool
ended none = true
ended (some f) = false

abbrev pub sent_texts :
    ℕ → String → Option Fault → GatewayMetrics → Option (List String) → Option Sent
sent_texts status path_prefix fault m none = none
sent_texts status path_prefix fault m (some yielded) = some (record {
  yielded = yielded;
  metrics = after_fault status path_prefix fault m;
  raised = raises fault;
})

-- `content_generator`, for a text that is redacted
unfoldable pub text_content :
    List String → ℕ → String → List String → Option Fault → GatewayMetrics → Option Sent
unfolding redact_texts record_upstream_error
text_content secrets status path_prefix texts fault m =
    sent_texts status path_prefix fault m (redact_texts secrets (ended fault) "" texts)
