-- ===== src/Bridge/Response.antt =====
-- legacy_sse.py, `process_response` in `handle_post`: the task that turns the upstream's response
-- into events of the session's stream, and that closes the upstream and gives the leases back.
use mcp_mux_2_0_dev.Base.{
  ℕ, zero, suc, ◌+◌, ◌||◌, filter, nat_beq, String, Option, none, some, List, [], ◌∷◌, map, Bool,
  true, false, not, if◌then◌else◌,
}
use mcp_mux_2_0_dev.Base.Text.{casefold, contains, str_take}
use mcp_mux_2_0_dev.Json.{Codec, Json}
use mcp_mux_2_0_dev.Policy.{CapabilityPolicy, project_json_text}
use mcp_mux_2_0_dev.Sse.{
  iter_sse_events, render_sse_event, transform_sse_event, up_to_blank, whole_lines,
}
use mcp_mux_2_0_dev.Bridge.{
  Bridge, Terminal, mark_terminal, max_upstream_error_detail, message_event, metric, with_session,
  write,
}
use mcp_mux_2_0_dev.Bridge.Sessions.{enqueue_event, upstream_failed}
use mcp_mux_2_0_dev.Bridge.Post.{shut}
use Prim.Native.String

-- A response, as it is read: its body or its lines, and the exception that ends the reading, with
-- its text. `decode_error` and `syntax_error` are the texts of the exceptions for a body that is
-- no UTF-8 or no JSON.
pub record UpstreamResponse : Type 0 where
  pub content_type : String
  pub content : List ℕ
  pub lines : List String
  pub fault : Option String
  pub decode_error : String
  pub syntax_error : String

pub record Adapter : Type 0 where
  pub codec : Codec
  pub response_redactor : String → String
  pub log_redactor : String → String
  pub policy : CapabilityPolicy
  pub principal : String
  pub path_prefix : String

-- What other tasks do while the response task waits to put an event, whether it is cancelled
-- there, the time after the wait, and whether the queue had room in time.
pub record Wait : Type 0 where
  pub others : Bridge → Bridge
  pub cancelled : Bool
  pub now : ℕ
  pub in_time : Bool

unfoldable pub project : Adapter → String → String
unfolding project_json_text
project a text =
    (project_json_text a.codec a.policy a.principal a.path_prefix (a.response_redactor text)).0

abbrev pub checked_events :
    Adapter → UpstreamResponse → String → Option Json → List String × Option String
checked_events a r text none = ([], some r.syntax_error)
checked_events a r text (some j) = (message_event (project a text) ∷ [], none)

abbrev pub json_events : Adapter → UpstreamResponse → Option String → List String × Option String
json_events a r none = ([], some r.decode_error)
json_events a r (some text) = checked_events a r text (a.codec.loads_strict text)

abbrev pub body_events : Adapter → UpstreamResponse → Option String → List String × Option String
body_events a r (some fault) = ([], some fault)
body_events a r none = json_events a r (a.codec.decode_utf8 r.content)

abbrev pub stream_event : Adapter → List String → String
stream_event a event = render_sse_event (transform_sse_event event (project a))

-- The events that a response becomes, and the exception after them.
unfoldable pub response_events : Adapter → UpstreamResponse → List String × Option String
unfolding project message_event up_to_blank iter_sse_events render_sse_event transform_sse_event
    casefold contains
response_events a r =
    let content_type = casefold r.content_type in
    if contains content_type "application/json"
    then body_events a r r.fault
    else if contains content_type "event-stream"
    then (map (stream_event a) (iter_sse_events (whole_lines r.fault r.lines)), r.fault)
    else (map (λ line. message_event (a.response_redactor line)) r.lines, r.fault)

-- The events go into the queue one by one; the flag says that the task goes on after them.
unfoldable pub deliver :
    Adapter → Option ℕ → ℕ → (ℕ → Wait) → ℕ → List String → Bridge → Bool × Bridge
unfolding enqueue_event
deliver a current h wait i [] b = (not (wait i).cancelled, (wait i).others b)
deliver a current h wait i (event ∷ events) b =
    let w = wait i in
    let b' = w.others b in
    let (went_on, put) = enqueue_event a.codec current w.now w.in_time event h b' in
    let rest = deliver a current h wait (suc i) events put in
    if w.cancelled then (false, b') else if went_on then rest else (false, put)

abbrev pub response_failed : Adapter → String → Terminal
response_failed a text = record {
  status_code = 502;
  code = "upstream_response_failed";
  message =
      String.◌++◌ "Legacy bridge upstream response failed: "
        (str_take max_upstream_error_detail (a.log_redactor text));
}

abbrev pub after_events : Adapter → Option ℕ → ℕ → Option String → Bool × Bridge → Bridge
after_events a current h fault (false, b) = b
after_events a current h none (true, b) = b
after_events a current h (some text) (true, b) =
    mark_terminal a.codec current (response_failed a text) h
      (metric a.path_prefix upstream_failed b)

-- How the `finally` block goes: whether closing the context raises or is cancelled, and whether
-- there is an `on_complete`.
pub record Closing : Type 0 where
  pub close_raises : Bool
  pub completes : Bool

-- The bridge, whether closing the context has raised, and how often `on_complete` was called.
pub record Ending : Type 0 where
  pub bridge : Bridge
  pub close_raised : Bool
  pub completions : ℕ

-- `await tracked.close()`
abbrev pub close_tracked : ℕ → Closing → Ending → Ending
close_tracked u closing e = record e {
  bridge = shut u e.bridge;
  close_raised = e.close_raised || closing.close_raises;
}

-- `session.upstreams.discard(tracked)`
abbrev pub discard_upstream : ℕ → ℕ → Ending → Ending
discard_upstream u h e =
    let session = e.bridge.objects h in
    record e {
      bridge =
          with_session h
            (record session { upstreams = filter (λ k. not (nat_beq k u)) session.upstreams })
            e.bridge;
    }

-- `if on_complete is not None: await on_complete()`
abbrev pub call_on_complete : Closing → Ending → Ending
call_on_complete closing e =
    if closing.completes then record e { completions = e.completions + 1 } else e

-- The `finally` block: its inner one runs too if closing the context raises.
unfoldable pub release_upstream : ℕ → ℕ → Closing → Ending → Ending
unfolding shut write
release_upstream u h closing e =
    call_on_complete closing (discard_upstream u h (close_tracked u closing e))

-- The task, once it has entered its `try`. What its body raises, if it is cancelled, is under way
-- when the `finally` block begins and changes nothing in it.
unfoldable pub process_response :
    Adapter → Option ℕ → ℕ → ℕ → (ℕ → Wait) → Closing → UpstreamResponse → Bridge → Ending
unfolding response_events deliver mark_terminal metric release_upstream
process_response a current u h wait closing r b =
    let (events, fault) = response_events a r in
    let body = after_events a current h fault (deliver a current h wait zero events b) in
    release_upstream u h closing (record { bridge = body; close_raised = false; completions = 0 })
