-- ===== src/Bridge.antt =====
-- mcp_router/compat/legacy_sse.py: the adapter that lets clients of the deprecated SSE transport
-- use an endpoint. This file has its state, and the parts of it that its operations share. Session,
-- runtime and upstream objects stand in heaps and are named by a number, their identity.
pub mod Sessions
pub mod Post
pub mod Response
pub mod Tombstones
pub mod Framing
pub mod Ownership
pub mod Release
pub mod Registry
pub mod Retire
pub mod Admit
pub mod Refinement
pub mod Operations
pub mod Runs
pub mod Answers
pub mod Expiry
mod Tests
use Prim.Native.String
use mcp_mux_2_0_dev.Base.{
  ℕ, ◌+◌, String, Option, none, some, List, [], ◌∷◌, ◌++◌, map, Bool, true, false, ◌&&◌, ◌||◌, not,
  ◌==◌, ltb, nat_beq, length, filter, elem, if◌then◌else◌,
}
use mcp_mux_2_0_dev.Base.Dict.{Dict, lookup, insert, delete}
use mcp_mux_2_0_dev.Base.Int.{ℤ, pos}
use mcp_mux_2_0_dev.Base.Text.{splitlines}
use mcp_mux_2_0_dev.Config.{LegacySseBridgeConfig}
use mcp_mux_2_0_dev.Json.{Codec, Json, end, field, int, obj, str}
use mcp_mux_2_0_dev.Runtime.{EndpointRuntime, Task}
use mcp_mux_2_0_dev.Sse.{render_sse_event}

abbrev pub max_tombstones : ℕ
max_tombstones = 4096

abbrev pub max_upstream_error_detail : ℕ
max_upstream_error_detail = 512

pub record BridgeMetrics : Type 0 where
  pub sessions_opened_total : ℕ
  pub posts_total : ℕ
  pub downstream_disconnects_total : ℕ
  pub expired_sessions_total : ℕ
  pub session_limit_rejections_total : ℕ
  pub upstream_failures_total : ℕ
  pub backpressure_failures_total : ℕ

abbrev pub fresh_metrics : BridgeMetrics
fresh_metrics = record {
  sessions_opened_total = 0;
  posts_total = 0;
  downstream_disconnects_total = 0;
  expired_sessions_total = 0;
  session_limit_rejections_total = 0;
  upstream_failures_total = 0;
  backpressure_failures_total = 0;
}

pub record ClosedSession : Type 0 where
  pub path_prefix : String
  pub status_code : ℕ
  pub message : String

-- `exits` counts the calls of the context's `__aexit__`.
pub record TrackedUpstream : Type 0 where
  pub closed : Bool
  pub exits : ℕ

pub record BridgeSession : Type 0 where
  pub session_id : String
  pub path_prefix : String
  pub config : LegacySseBridgeConfig
  -- the identity of the runtime
  pub runtime : ℕ
  pub queue : List String
  pub created_at : ℕ
  pub expires_at : ℕ
  pub remote_session_id : Option String
  pub setup_tasks : List Task
  pub response_tasks : List Task
  pub upstreams : List ℕ
  pub expiry_task : Option Task
  pub closed : Bool
  pub activity : Bool
  pub terminal_event : Option String

-- The session objects that exist are those below `next`. `cancelled` lists the tasks that were
-- asked to stop.
pub record Bridge : Type 0 where
  pub objects : ℕ → BridgeSession
  pub next : ℕ
  pub runtimes : ℕ → EndpointRuntime
  pub contexts : ℕ → TrackedUpstream
  pub sessions : Dict ℕ
  pub owned_sessions : List ℕ
  pub closed_sessions : Dict ClosedSession
  pub metrics : Dict BridgeMetrics
  pub cancelled : List ℕ

-- a write to the heap
unfoldable pub write {ℓ} : {A : Type ℓ} → ℕ → A → (ℕ → A) → ℕ → A
write h new heap k = if nat_beq k h then new else heap k

abbrev pub with_session : ℕ → BridgeSession → Bridge → Bridge
with_session h session b = record b { objects = write h session b.objects }

-- `_TrackedUpstream.close`
unfoldable pub close_upstream : TrackedUpstream → TrackedUpstream
close_upstream u = if u.closed then u else record { closed = true; exits = u.exits + 1 }

unfoldable pub touch : ℕ → BridgeSession → BridgeSession
touch now session = record session {
  expires_at = now + session.config.session_ttl;
  activity = true;
}

abbrev pub or_fresh : Option BridgeMetrics → BridgeMetrics
or_fresh none = fresh_metrics
or_fresh (some m) = m

-- `self._metric(path_prefix)`, with a change of the object that it returns
unfoldable pub metric : String → (BridgeMetrics → BridgeMetrics) → Bridge → Bridge
unfolding lookup insert
metric path_prefix change b = record b {
  metrics = insert path_prefix (change (or_fresh (lookup path_prefix b.metrics))) b.metrics;
}

-- the session's test in the sums of `open_session` and `metrics_snapshot`
abbrev pub is_active : String → BridgeSession → Bool
is_active path_prefix session = (session.path_prefix == path_prefix) && not session.closed

unfoldable pub count_active : String → (ℕ → BridgeSession) → Dict ℕ → ℕ
count_active path_prefix objects [] = 0
count_active path_prefix objects ((id, h) ∷ sessions) =
    (if is_active path_prefix (objects h) then 1 else 0) + count_active path_prefix objects sessions

pub record Counts : Type 0 where
  pub active_sessions : ℕ
  pub totals : BridgeMetrics

unfoldable pub metrics_snapshot : String → Bridge → Counts
unfolding lookup count_active
metrics_snapshot path_prefix b = record {
  active_sessions = count_active path_prefix b.objects b.sessions;
  totals = or_fresh (lookup path_prefix b.metrics);
}

-- the loop of `_remember_closed`
unfoldable pub drop_oldest {ℓ} : {V : Type ℓ} → ℕ → Dict V → Dict V
drop_oldest limit [] = []
drop_oldest limit (e ∷ d) =
    let rest = drop_oldest limit d in if ltb limit (length (e ∷ d)) then rest else e ∷ d

unfoldable pub remember_closed : String → ClosedSession → Dict ClosedSession → Dict ClosedSession
unfolding insert drop_oldest
remember_closed session_id closed tombstones =
    drop_oldest max_tombstones (insert session_id closed tombstones)

-- `data.splitlines() or [""]`
abbrev pub or_blank : List String → List String
or_blank [] = "" ∷ []
or_blank (line ∷ lines) = line ∷ lines

abbrev pub in_data : String → String
in_data line = String.◌++◌ "data: " line

-- an event with the name `message`
unfoldable pub message_lines : String → List String
message_lines text = "event: message" ∷ map in_data (or_blank (splitlines text))

unfoldable pub message_event : String → String
unfolding message_lines render_sse_event
message_event text = render_sse_event (message_lines text)

unfoldable pub error_event : Codec → String → String → ℕ → String
error_event codec code message status_code =
    String.◌++◌ "event: error\ndata: " (String.◌++◌ (codec.dumps payload) "\n\n")
  where
    payload : Json
    payload = obj (
        field "error"
          (obj (
            field "code" (str code)
              (field "message" (str message) (field "status" (int (pos status_code)) end))))
          end)

-- `session.runtime.legacy_session_ids.discard(session.session_id)`
abbrev pub without_id : String → EndpointRuntime → EndpointRuntime
without_id session_id runtime = record runtime {
  legacy_session_ids = filter (λ id. not (id == session_id)) runtime.legacy_session_ids;
}

abbrev pub with_id : String → EndpointRuntime → EndpointRuntime
with_id session_id runtime = record runtime {
  legacy_session_ids =
      if elem session_id runtime.legacy_session_ids
      then runtime.legacy_session_ids
      else session_id ∷ runtime.legacy_session_ids;
}

abbrev pub tasks_of : Option Task → List Task
tasks_of none = []
tasks_of (some task) = task ∷ []

abbrev pub is_task : Option ℕ → Task → Bool
is_task none task = false
is_task (some handle) task = nat_beq task.handle handle

-- the tasks that are cancelled: all of the session that still run, but for those excluded
unfoldable pub to_cancel : Option ℕ → Option ℕ → BridgeSession → List ℕ
to_cancel current excluded session =
    map (λ (task : Task). task.handle)
      (filter
        (λ (task : Task).
          not (is_task current task) && not (is_task excluded task) && not task.done)
        (session.setup_tasks ++ (session.response_tasks ++ tasks_of session.expiry_task)))

-- The reason for which a session ends.
pub record Terminal : Type 0 where
  pub status_code : ℕ
  pub code : String
  pub message : String

-- `_mark_terminal`; `current` is the task that runs it
unfoldable pub mark_terminal : Codec → Option ℕ → Terminal → ℕ → Bridge → Bridge
unfolding write delete remember_closed error_event to_cancel
mark_terminal codec current reason h b =
    let session = b.objects h in
    if session.closed then b else record b {
      sessions = delete session.session_id b.sessions;
      runtimes =
          write session.runtime (without_id session.session_id (b.runtimes session.runtime))
            b.runtimes;
      closed_sessions =
          remember_closed session.session_id
            (record {
              path_prefix = session.path_prefix;
              status_code = reason.status_code;
              message = reason.message;
            })
            b.closed_sessions;
      objects =
          write h
            (record session {
              queue = [];
              terminal_event =
                  some (error_event codec reason.code reason.message reason.status_code);
              closed = true;
            })
            b.objects;
      cancelled = to_cancel current none session ++ b.cancelled;
    }

-- `_close_session_object` up to the wait for the cancelled tasks
unfoldable pub begin_close : Option ℕ → Option ℕ → ℕ → Bridge → Bridge
unfolding write delete to_cancel
begin_close current exclude_task h b =
    let session = b.objects h in
    record b {
      sessions = delete session.session_id b.sessions;
      runtimes =
          write session.runtime (without_id session.session_id (b.runtimes session.runtime))
            b.runtimes;
      objects = write h (record session { closed = true }) b.objects;
      cancelled = to_cancel current exclude_task session ++ b.cancelled;
    }

unfoldable pub close_contexts : List ℕ → (ℕ → TrackedUpstream) → ℕ → TrackedUpstream
unfolding write close_upstream
close_contexts [] contexts = contexts
close_contexts (u ∷ us) contexts =
    close_contexts us (write u (close_upstream (contexts u)) contexts)

-- and from there on, when those tasks have ended
unfoldable pub end_close : ℕ → Bridge → Bridge
unfolding write close_contexts
end_close h b =
    let session = b.objects h in
    record b {
      contexts = close_contexts session.upstreams b.contexts;
      objects = write h (record session { upstreams = []; queue = [] }) b.objects;
      owned_sessions = filter (λ k. not (nat_beq k h)) b.owned_sessions;
    }

unfoldable pub close_session_object : Option ℕ → Option ℕ → ℕ → Bridge → Bridge
unfolding begin_close end_close
close_session_object current exclude_task h b = end_close h (begin_close current exclude_task h b)

unfoldable pub close_sessions : Option ℕ → List ℕ → Bridge → Bridge
unfolding close_session_object
close_sessions current [] b = b
close_sessions current (h ∷ hs) b =
    close_sessions current hs (close_session_object current none h b)

unfoldable pub close_endpoint : Option ℕ → String → Bridge → Bridge
unfolding close_sessions
close_endpoint current path_prefix b =
    close_sessions current (filter (λ h. (b.objects h).path_prefix == path_prefix) b.owned_sessions)
      b

unfoldable pub close_all : Option ℕ → Bridge → Bridge
unfolding close_sessions
close_all current b = close_sessions current b.owned_sessions b
