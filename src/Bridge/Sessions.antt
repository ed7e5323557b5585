-- ===== src/Bridge/Sessions.antt =====
-- legacy_sse.py: opening a session, its expiry loop, its event stream, and the queue between the
-- upstream's responses and that stream. A loop is one step of a round and an outcome.
use Prim.Native.String
use mcp_mux_2_0_dev.Base.{
  ℕ, ◌+◌, String, Option, none, some, List, [], ◌∷◌, ◌++◌, Bool, true, false, ◌&&◌, not, leb,
  if◌then◌else◌,
}
use mcp_mux_2_0_dev.Base.Dict.{insert}
use mcp_mux_2_0_dev.Config.{Endpoint, LegacySseBridgeConfig, base}
use mcp_mux_2_0_dev.Json.{Codec}
use mcp_mux_2_0_dev.Runtime.{Task, track_legacy_task}
use mcp_mux_2_0_dev.Bridge.{
  Bridge, BridgeMetrics, BridgeSession, Terminal, close_session_object, count_active, mark_terminal,
  metric, touch, with_id, with_session, write,
}

-- the counters, one step further
abbrev pub opened : BridgeMetrics → BridgeMetrics
opened m = record m { sessions_opened_total = m.sessions_opened_total + 1 }

abbrev pub posted : BridgeMetrics → BridgeMetrics
posted m = record m { posts_total = m.posts_total + 1 }

abbrev pub disconnected : BridgeMetrics → BridgeMetrics
disconnected m = record m { downstream_disconnects_total = m.downstream_disconnects_total + 1 }

abbrev pub expired : BridgeMetrics → BridgeMetrics
expired m = record m { expired_sessions_total = m.expired_sessions_total + 1 }

abbrev pub limited : BridgeMetrics → BridgeMetrics
limited m = record m { session_limit_rejections_total = m.session_limit_rejections_total + 1 }

abbrev pub upstream_failed : BridgeMetrics → BridgeMetrics
upstream_failed m = record m { upstream_failures_total = m.upstream_failures_total + 1 }

abbrev pub blocked : BridgeMetrics → BridgeMetrics
blocked m = record m { backpressure_failures_total = m.backpressure_failures_total + 1 }

abbrev pub session_expired : Terminal
session_expired = record {
  status_code = 410;
  code = "session_expired";
  message = "Legacy SSE session expired";
}

abbrev pub backpressure_exceeded : Terminal
backpressure_exceeded = record {
  status_code = 503;
  code = "backpressure_exceeded";
  message = "Legacy SSE client is not consuming bridge responses";
}

pub data Opening : Type 0 where
  -- an error body, with its status
  refused : ℕ → String → Opening
  -- the event stream of a new session
  streams : ℕ → Opening

abbrev pub new_session : String → String → ℕ → ℕ → Task → LegacySseBridgeConfig → BridgeSession
new_session session_id path_prefix runtime now expiry_task config = record {
  session_id = session_id;
  path_prefix = path_prefix;
  config = config;
  runtime = runtime;
  queue = [];
  created_at = now;
  expires_at = now + config.session_ttl;
  remote_session_id = none;
  setup_tasks = [];
  response_tasks = [];
  upstreams = [];
  expiry_task = some expiry_task;
  closed = false;
  activity = false;
  terminal_event = none;
}

-- a session under the limit: the object is allocated, and known everywhere
unfoldable pub admit : String → String → ℕ → ℕ → Task → LegacySseBridgeConfig → Bridge → Bridge
unfolding write insert metric track_legacy_task
admit session_id path runtime now expiry_task config b = metric path opened (record b {
  objects = write b.next (new_session session_id path runtime now expiry_task config) b.objects;
  next = b.next + 1;
  sessions = insert session_id b.next b.sessions;
  owned_sessions = b.next ∷ b.owned_sessions;
  runtimes =
      write runtime (track_legacy_task expiry_task (with_id session_id (b.runtimes runtime)))
        b.runtimes;
})

abbrev pub open_with :
    String → String → ℕ → ℕ → Task → Option LegacySseBridgeConfig → Bridge → Opening × Bridge
open_with session_id path runtime now expiry_task none b =
    (refused 400 "Legacy SSE compatibility is disabled for this endpoint", b)
open_with session_id path runtime now expiry_task (some config) b =
    if leb config.max_sessions (count_active path b.objects b.sessions)
    then (refused 429 "Legacy SSE session limit reached for this endpoint", metric path limited b)
    else (streams b.next, admit session_id path runtime now expiry_task config b)

-- `session_id` is what `uuid4` gives, and `expiry_task` the new task of the expiry loop.
unfoldable pub open_session : String → Endpoint → ℕ → ℕ → Task → Bridge → Opening × Bridge
unfolding count_active metric admit
open_session session_id endpoint runtime now expiry_task b =
    open_with session_id (base endpoint).path runtime now expiry_task
      (base endpoint).legacy_sse_bridge b

-- by whether the session is closed, and whether the queue had room in time
abbrev pub enqueued : Codec → Option ℕ → ℕ → String → ℕ → Bridge → Bool → Bool → Bool × Bridge
enqueued codec current now event h b true in_time = (false, b)
enqueued codec current now event h b false true =
    let session = b.objects h in
    (true, with_session h (touch now (record session { queue = session.queue ++ event ∷ [] })) b)
enqueued codec current now event h b false false = (
  false,
  mark_terminal codec current backpressure_exceeded h (metric (b.objects h).path_prefix blocked b),
)

-- `_enqueue_event`: `in_time` says that the queue had room for the event before the timeout.
unfoldable pub enqueue_event : Codec → Option ℕ → ℕ → Bool → String → ℕ → Bridge → Bool × Bridge
unfolding write touch metric mark_terminal
enqueue_event codec current now in_time event h b =
    enqueued codec current now event h b (b.objects h).closed in_time

-- What ends the wait of a round of `_expiry_loop`: the flags of the tasks that are done.
pub record Woken : Type 0 where
  pub closed_done : Bool
  pub activity_done : Bool

pub data Round : Type 0 where
  again over : Round

abbrev pub expire : Codec → Option ℕ → Option ℕ → ℕ → Bridge → Bridge
expire codec current exclude_task h b =
    close_session_object current exclude_task h
      (mark_terminal codec current session_expired h (metric (b.objects h).path_prefix expired b))

-- One round of `_expiry_loop`. `now` is the time after the wait, `current` the loop's own task.
unfoldable pub expiry_round : Codec → Option ℕ → ℕ → Woken → ℕ → Bridge → Round × Bridge
unfolding write metric mark_terminal close_session_object
expiry_round codec current now woken h b =
    let session = b.objects h in
    if woken.closed_done && session.closed
    then (over, b)
    else if woken.activity_done && session.activity
    then (again, with_session h (record session { activity = false }) b)
    else if leb session.expires_at now
    then (over, expire codec current current h b)
    else (again, b)

-- `f"event: endpoint\ndata: {endpoint_uri}\n\n"`
unfoldable pub endpoint_event : BridgeSession → String
endpoint_event session = String.◌++◌ "event: endpoint\ndata: /" (
    String.◌++◌ session.path_prefix
      (String.◌++◌ "?session_id=" (String.◌++◌ session.session_id "\n\n")))

pub data Streamed : Type 0 where
  -- an event, and the loop goes on
  sends : String → Streamed
  -- the last event, if there is one
  ends : Option String → Streamed
  waits : Streamed

abbrev pub taken : ℕ → ℕ → List String → BridgeSession → Bridge → Streamed × Bridge
taken now h (event ∷ queue) session b =
    (sends event, with_session h (touch now (record session { queue = queue })) b)
taken now h [] session b = if session.closed then (ends session.terminal_event, b) else (waits, b)

-- One round of `_stream_session`: an event in the queue goes first, then the end of the session.
unfoldable pub stream_round : ℕ → ℕ → Bridge → Streamed × Bridge
unfolding write touch
stream_round now h b = taken now h (b.objects h).queue (b.objects h) b

-- The `finally` block of `_stream_session`; `cut` says that the client went away.
unfoldable pub finish_stream : Option ℕ → Bool → ℕ → Bridge → Bridge
unfolding metric close_session_object
finish_stream current cut h b =
    let session = b.objects h in
    close_session_object current none h (
      if not session.closed
      then metric session.path_prefix disconnected b
      else if cut
      then metric session.path_prefix disconnected b
      else b)
