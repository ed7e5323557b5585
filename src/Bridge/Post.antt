-- ===== src/Bridge/Post.antt =====
-- legacy_sse.py, `handle_post`: a message that a client posts into its session, up to the answer.
-- What other tasks do during a wait is an argument, a change of the bridge; so is how the wait ends.
use mcp_mux_2_0_dev.Base.{
  ℕ, String, Option, none, some, List, ◌∷◌, Bool, false, ◌&&◌, ◌||◌, not, ◌==◌, leb, ltb, nat_beq,
  filter, if◌then◌else◌,
}
use mcp_mux_2_0_dev.Base.Dict.{Dict, lookup, insert, delete}
use mcp_mux_2_0_dev.Base.Text.{is_empty, str_take}
use mcp_mux_2_0_dev.Json.{Codec}
use mcp_mux_2_0_dev.Runtime.{Task, draining, is_state, track_legacy_task}
use mcp_mux_2_0_dev.Bridge.{
  Bridge, BridgeSession, ClosedSession, close_upstream, max_upstream_error_detail, metric, touch,
  with_session, write,
}
use mcp_mux_2_0_dev.Bridge.Sessions.{expire, posted, upstream_failed}

pub data Reply : Type 0 where
  -- a body with an error, and the status
  refuses : ℕ → String → Reply
  -- the upstream cannot be reached: status 502, with the detail
  unreachable : String → Reply
  -- the upstream's status is no success: status 502, with that status and the detail
  rejected : ℕ → Option String → Reply
  -- status 202
  accepted : Reply

pub record PostRequest : Type 0 where
  pub session_id : String
  pub path_prefix : String
  pub runtime : ℕ
  pub query_params : Dict String
  pub forward_headers : Dict String

pub data Begin : Type 0 where
  answers : ℕ → String → Begin
  -- the session, and the parameters and headers of the upstream request
  sets_up : ℕ → Dict String → Dict String → Begin

abbrev pub session_headers : Option String → Dict String → Dict String
session_headers (some id) headers =
    if is_empty id
    then delete "mcp-session-id" (delete "Mcp-Session-Id" headers)
    else insert "Mcp-Session-Id" id headers
session_headers none headers = delete "mcp-session-id" (delete "Mcp-Session-Id" headers)

unfoldable pub post_headers : Option String → Dict String → Dict String
unfolding insert delete
post_headers remote_session_id headers =
    insert "accept" "application/json, text/event-stream"
      (session_headers remote_session_id headers)

-- the answer where no session has the id
unfoldable pub not_open : String → Option ClosedSession → Begin
not_open path_prefix none = answers 404 "Session not found"
not_open path_prefix (some closed) =
    if not (closed.path_prefix == path_prefix)
    then answers 409 "Session belongs to a different endpoint"
    else answers closed.status_code closed.message

abbrev pub in_session : Codec → Option ℕ → ℕ → PostRequest → Option ℕ → Bridge → Begin × Bridge
in_session codec current now request none b =
    (not_open request.path_prefix (lookup request.session_id b.closed_sessions), b)
in_session codec current now request (some h) b =
    let session = b.objects h in
    if not (session.path_prefix == request.path_prefix)
      || not (nat_beq session.runtime request.runtime)
    then (answers 409 "Session belongs to a different endpoint", b)
    else if leb session.expires_at now
    then (answers 410 "Legacy SSE session expired", expire codec current none h b)
    else (
      sets_up h (delete "session_id" request.query_params)
          (post_headers session.remote_session_id request.forward_headers),
      metric request.path_prefix posted (with_session h (touch now session) b),
    )

-- up to the upstream request
unfoldable pub begin_post : Codec → Option ℕ → ℕ → PostRequest → Bridge → Begin × Bridge
unfolding lookup delete write not_open post_headers touch metric
begin_post codec current now request b =
    in_session codec current now request (lookup request.session_id b.sessions) b

-- `post_setup_rejection`
abbrev pub closed_reply : String → Option ClosedSession → Reply
closed_reply path_prefix none = refuses 410 "Legacy SSE session closed during upstream setup"
closed_reply path_prefix (some closed) =
    if closed.path_prefix == path_prefix
    then refuses closed.status_code closed.message
    else refuses 410 "Legacy SSE session closed during upstream setup"

abbrev pub is_session : Option ℕ → ℕ → Bool
is_session none h = false
is_session (some k) h = nat_beq k h

unfoldable pub post_setup_rejection : PostRequest → ℕ → Bridge → Option Reply
unfolding lookup is_state
post_setup_rejection request h b =
    if (b.objects h).closed || not (is_session (lookup request.session_id b.sessions) h)
    then some (closed_reply request.path_prefix (lookup request.session_id b.closed_sessions))
    else if is_state (b.runtimes request.runtime).state draining
    then some (refuses 503 "Endpoint runtime is draining")
    else none

-- `_TrackedUpstream(stream_context)`
unfoldable pub track : ℕ → Bridge → Bridge
unfolding write
track u b = record b { contexts = write u (record { closed = false; exits = 0 }) b.contexts }

-- `await tracked.close()`
unfoldable pub shut : ℕ → Bridge → Bridge
unfolding write close_upstream
shut u b = record b { contexts = write u (close_upstream (b.contexts u)) b.contexts }

-- and `session.upstreams.discard(tracked)`
unfoldable pub shut_and_discard : ℕ → ℕ → Bridge → Bridge
unfolding write shut
shut_and_discard u h b =
    let session = b.objects h in
    with_session h
      (record session { upstreams = filter (λ k. not (nat_beq k u)) session.upstreams }) (shut u b)

abbrev pub add_upstream : ℕ → BridgeSession → BridgeSession
add_upstream u session = record session { upstreams = u ∷ session.upstreams }

abbrev pub with_remote : Option String → BridgeSession → BridgeSession
with_remote none session = session
with_remote (some id) session =
    if is_empty id then session else record session { remote_session_id = some id }

abbrev pub add_response : Task → BridgeSession → BridgeSession
add_response task session = record session { response_tasks = task ∷ session.response_tasks }

abbrev pub without_task : ℕ → List Task → List Task
without_task handle tasks = filter (λ (task : Task). not (nat_beq task.handle handle)) tasks

abbrev pub tracked_by : ℕ → Task → Bridge → Bridge
tracked_by runtime task b = record b {
  runtimes = write runtime (track_legacy_task task (b.runtimes runtime)) b.runtimes;
}

-- the setup task is published
unfoldable pub start_setup : Task → PostRequest → ℕ → Bridge → Bridge
unfolding write track_legacy_task
start_setup task request h b =
    let session = b.objects h in
    tracked_by request.runtime task
      (with_session h (record session { setup_tasks = task ∷ session.setup_tasks }) b)

-- its done callback
unfoldable pub end_setup : Task → ℕ → Bridge → Bridge
unfolding write
end_setup task h b =
    let session = b.objects h in
    with_session h (record session { setup_tasks = without_task task.handle session.setup_tasks }) b

-- What the upstream request leads to.
pub data Setup : Type 0 where
  -- one of the exceptions that are caught, with its text
  fails : String → Setup
  -- the setup task or the request was cancelled
  cancels : Setup
  -- a context that is entered, with the response's status and its session id
  connects : ℕ → ℕ → Option String → Setup

-- How the wait for the response task's start ends.
pub data Handshake : Type 0 where
  -- the response task runs inside its `try`
  enters : Handshake
  -- it was cancelled before its first step
  never_runs : Handshake
  -- the request was cancelled, after the response task had begun to run or before
  interrupted : Bool → Handshake

pub record Surroundings : Type 0 where
  pub codec : Codec
  pub log_redactor : String → String
  pub response_redactor : String → String
  pub current : Option ℕ
  pub now : ℕ
  pub setup_task : Task
  pub during_setup : Bridge → Bridge
  pub setup : Setup
  -- the wait for the session's lock
  pub during_lock : Bridge → Bridge
  -- whether the request is cancelled in this wait
  pub lock_cancelled : Bool
  pub during_read : Bridge → Bridge
  pub read_cancelled : Bool
  -- the body of a response that is no success, as text; none if it cannot be read
  pub error_body : Option String
  pub response_task : Task
  pub during_start : Bridge → Bridge
  pub handshake : Handshake
  pub during_relock : Bridge → Bridge
  pub relock_cancelled : Bool

-- How a post ends: its reply, or none if it raises; how often `handle_post` itself called
-- `on_complete`; and the upstream that a response task was left with.
pub record Posted : Type 0 where
  pub reply : Option Reply
  pub completions : ℕ
  pub left_with : Option ℕ

-- `return await finish(...)`
abbrev pub finish : Reply → Posted
finish reply = record { reply = some reply; completions = 1; left_with = none }

abbrev pub raises : Posted
raises = record { reply = none; completions = 0; left_with = none }

abbrev pub is_success : ℕ → Bool
is_success status = leb 200 status && ltb status 300

abbrev pub detail_of : (String → String) → Option String → Option String
detail_of redact none = none
detail_of redact (some text) =
    let detail = str_take max_upstream_error_detail (redact text) in
    if is_empty detail then none else some detail

module _ (env : Surroundings) (request : PostRequest) where
  -- the response of an upstream that is no success
  abbrev pub with_failure : ℕ → ℕ → ℕ → Option Reply → Bridge → Posted × Bridge
  with_failure h u status (some rejection) b = (finish rejection, shut u b)
  with_failure h u status none b =
      let reading =
        metric request.path_prefix upstream_failed
          (with_session h (add_upstream u (b.objects h)) b) in
      let answer = finish (rejected status (detail_of env.response_redactor env.error_body)) in
      (
        if env.read_cancelled then raises else answer,
        shut_and_discard u h (env.during_read reading),
      )

  abbrev pub unless_rejected : Option Reply → Reply → Reply
  unless_rejected none reply = reply
  unless_rejected (some rejection) reply = rejection

  abbrev pub count_unless : Option Reply → Bridge → Bridge
  count_unless none b = metric request.path_prefix upstream_failed b
  count_unless (some rejection) b = b

  -- from the wait for `response_started` on
  abbrev pub hand_over : ℕ → ℕ → Handshake → Bridge → Posted × Bridge
  hand_over h u enters b =
      (record { reply = some accepted; completions = 0; left_with = some u }, b)
  hand_over h u (interrupted entered) b =
      (record raises { left_with = if entered then some u else none }, shut_and_discard u h b)
  hand_over h u never_runs b =
      let b' = env.during_relock (shut_and_discard u h b) in
      let rejection = post_setup_rejection request h b' in
      let answer = finish (
        unless_rejected rejection
          (refuses 502 "Legacy bridge response task ended before startup")) in
      if env.relock_cancelled then (raises, b') else (answer, count_unless rejection b')

  -- the response of an upstream that is a success
  abbrev pub with_success : ℕ → ℕ → Option String → Option Reply → Bridge → Posted × Bridge
  with_success h u remote (some rejection) b = (finish rejection, shut u b)
  with_success h u remote none b =
      let session =
        add_response env.response_task (with_remote remote (add_upstream u (b.objects h))) in
      hand_over h u env.handshake
        (env.during_start (tracked_by request.runtime env.response_task (with_session h session b)))

  abbrev pub after_setup : ℕ → Setup → Bridge → Posted × Bridge
  after_setup h (fails text) b = (
    finish (unreachable (str_take max_upstream_error_detail (env.log_redactor text))),
    metric request.path_prefix upstream_failed b,
  )
  after_setup h cancels b = (raises, b)
  after_setup h (connects u status remote) b =
      let b' = env.during_lock (track u b) in
      if env.lock_cancelled
      then (raises, b')
      else if not (is_success status)
      then with_failure h u status (post_setup_rejection request h b') b'
      else with_success h u remote (post_setup_rejection request h b') b'

  abbrev pub after_begin : Begin × Bridge → Posted × Bridge
  after_begin (answers status message, b) = (finish (refuses status message), b)
  after_begin (sets_up h params headers, b) =
      after_setup h env.setup
        (end_setup env.setup_task h (env.during_setup (start_setup env.setup_task request h b)))

  unfoldable pub handle_post : Bridge → Posted × Bridge
  unfolding begin_post start_setup end_setup post_setup_rejection track shut shut_and_discard write
      metric track_legacy_task
  handle_post b = after_begin (begin_post env.codec env.current env.now request b)
