-- ===== src/Bridge/Tests.antt =====
-- legacy_sse.py: a bridge with one session, and its theorems there.

use mcp_mux_2_0_dev.Base.{
  ℕ, ◌≡◌, refl, ◌⊎◌, none, some, [], ◌∷◌, ◌++◌, Bool, true, false, All, arith, any, nat_beq,
}
use mcp_mux_2_0_dev.Base.Dict.{lookup}
use mcp_mux_2_0_dev.Base.Text.{splitlines}
use mcp_mux_2_0_dev.Config.{Endpoint, LegacySseBridgeConfig, remote_endpoint}
use mcp_mux_2_0_dev.Json.{Codec}
use mcp_mux_2_0_dev.Policy.{from_endpoint}
use mcp_mux_2_0_dev.Runtime.{Task, from_config}
use mcp_mux_2_0_dev.Samples.{tools_base}
use mcp_mux_2_0_dev.Sse.{iter_sse_events}
use mcp_mux_2_0_dev.Sse.Shape.{values}
use mcp_mux_2_0_dev.Bridge.{Bridge, BridgeSession, mark_terminal, message_lines, metric, write}
use mcp_mux_2_0_dev.Bridge.Sessions.{
  admit, backpressure_exceeded, expiry_round, new_session, open_session,
}
use mcp_mux_2_0_dev.Bridge.Post.{
  PostRequest, Surroundings, answers, begin_post, connects, handle_post, interrupted, post_headers,
}
use mcp_mux_2_0_dev.Bridge.Response.{Adapter, Closing, UpstreamResponse, Wait, process_response}
use mcp_mux_2_0_dev.Bridge.Framing.{IsLine, message_lines-framed}
use mcp_mux_2_0_dev.Bridge.Ownership.{Exited, Respects, Concludes, handle_post-Concludes}
use mcp_mux_2_0_dev.Bridge.Release.{process_response-Exited}
use mcp_mux_2_0_dev.Bridge.Registry.{Valid, is_used, view, gone}
use mcp_mux_2_0_dev.Bridge.Refinement.{Refines}
use mcp_mux_2_0_dev.Bridge.Runs.{also, opens, Run-Refines, start}
use mcp_mux_2_0_dev.Bridge.Operations.{open_session-Refines}
use mcp_mux_2_0_dev.Bridge.Answers.{
  begin_post-mark_terminal, begin_post-spec_answer, Limited, open_session-Limited,
}
use mcp_mux_2_0_dev.Bridge.Expiry.{IsOver, Wake, expiry_loop, expiry_loop-closes}

abbrev plain_codec : Codec
plain_codec = record {
  decode_utf8 = λ body. none;
  loads_strict = λ text. none;
  loads = λ text. none;
  dumps = λ json. "{}";
  decode_base64 = λ text. none;
}

abbrev small : LegacySseBridgeConfig
small = record { queue_capacity = 2; backpressure_timeout = 1; session_ttl = 10; max_sessions = 1 }

abbrev bridged : Endpoint
bridged = remote_endpoint (record tools_base { legacy_sse_bridge = some small })

abbrev loop_task : Task
loop_task = record { handle = 1; done = false }

abbrev setup_task : Task
setup_task = record { handle = 2; done = false }

abbrev no_session : BridgeSession
no_session = new_session "" "" 0 0 loop_task small

abbrev empty : Bridge
empty = record {
  objects = λ h. no_session;
  next = 0;
  runtimes = λ r. from_config bridged 0;
  contexts = λ u. record { closed = false; exits = 0 };
  sessions = [];
  owned_sessions = [];
  closed_sessions = [];
  metrics = [];
  cancelled = [];
}

empty-IsValid : Valid empty
unfolding lookup is_used
empty-IsValid = record {
  live = λ id h e. cc;
  listed = λ h lt runs. absurd (omega arith);
  untold = λ h lt runs. refl;
  unique = λ h k lt lt' e. absurd (omega arith);
  told = λ id fresh. refl;
  queued = λ h lt. omega arith;
  below = tt;
  distinct = tt;
  bounded = omega arith;
}

-- the bridge after a first session was opened
abbrev one : Bridge
one = (open_session "a" bridged 0 5 loop_task empty).1

one-IsValid : Valid one
unfolding is_used
one-IsValid = (open_session-Refines "a" bridged 0 5 loop_task empty-IsValid refl).valid

Run-Refines_example : Refines empty one
unfolding is_used
Run-Refines_example =
    Run-Refines plain_codec empty-IsValid (also start (opens "a" bridged 0 5 loop_task refl))

abbrev post : PostRequest
post = record {
  session_id = "a";
  path_prefix = "tools";
  runtime = 0;
  query_params = ("session_id", "a") ∷ [];
  forward_headers = [];
}

begin_post-mark_terminal_example :
    let ended = mark_terminal plain_codec none backpressure_exceeded 0 one in
    let told = answers 503 "Legacy SSE client is not consuming bridge responses" in
    (begin_post plain_codec none 7 post ended ≡ (told, ended))
    × ((begin_post plain_codec none 7 post ended ≡ (told, ended))
        ⊎ ((view ended "a" ≡ gone)
            × (begin_post plain_codec none 7 post ended
                ≡ (answers 404 "Session not found", ended))))
unfolding open_session admit write
begin_post-mark_terminal_example =
    begin_post-mark_terminal plain_codec none backpressure_exceeded 0 one one-IsValid (omega arith)
      refl start 7 post refl refl

begin_post-spec_answer_example :
    begin_post plain_codec none 7 post empty ≡ (answers 404 "Session not found", empty)
unfolding lookup is_used
begin_post-spec_answer_example = begin_post-spec_answer plain_codec none 7 post empty refl

open_session-Limited_example :
    Limited one "tools" (some small) (open_session "b" bridged 0 6 setup_task one)
unfolding open_session admit write is_used
open_session-Limited_example = open_session-Limited "b" bridged 0 6 setup_task one one-IsValid refl

abbrev wake : Bool → ℕ → Wake
wake activity now = record {
  others = λ b. b;
  now = now;
  woken = record { closed_done = false; activity_done = activity };
}

-- the session has been used, and its flag is set
abbrev used : Bridge
used = record one { objects = write 0 (record (one.objects 0) { activity = true }) one.objects }

expiry_loop-closes_example :
    IsOver 0 (expiry_loop plain_codec (some 1) 0 (wake true 6 ∷ wake false 16 ∷ []) used)
unfolding open_session admit write expiry_round
expiry_loop-closes_example =
    expiry_loop-closes plain_codec (some 1) 0 (wake true 6) (wake false 16) [] used (λ b. refl)
      (λ b. refl) refl (record { flagged = λ e. refl; ended = λ e. cc; slept = λ e f. cc })
      (record { flagged = λ e. cc; ended = λ e. cc; slept = λ e f. omega arith })

abbrev quiet : (u : ℕ) → Respects u (λ b. b)
quiet u = record { sound = λ b s. s; exited = λ b x. x }

abbrev env : Surroundings
env = record {
  codec = plain_codec;
  log_redactor = λ s. s;
  response_redactor = λ s. s;
  current = none;
  now = 7;
  setup_task = setup_task;
  during_setup = λ b. b;
  setup = connects 4 200 (some "remote");
  during_lock = λ b. b;
  lock_cancelled = false;
  during_read = λ b. b;
  read_cancelled = false;
  error_body = none;
  response_task = record { handle = 3; done = false };
  during_start = λ b. b;
  handshake = interrupted false;
  during_relock = λ b. b;
  relock_cancelled = false;
}

handle_post-Concludes_example : Concludes 4 (handle_post env post one) false
unfolding begin_post open_session admit write
handle_post-Concludes_example =
    handle_post-Concludes env post 4
      (record { lock = quiet 4; read = quiet 4; start = quiet 4; relock = quiet 4 }) one
      {params = []} {headers = post_headers none []} refl refl

abbrev adapter : Adapter
adapter = record {
  codec = plain_codec;
  response_redactor = λ s. s;
  log_redactor = λ s. s;
  policy = from_endpoint bridged;
  principal = "local";
  path_prefix = "tools";
}

abbrev lines_then_fault : UpstreamResponse
lines_then_fault = record {
  content_type = "text/plain";
  content = [];
  lines = "one" ∷ "two" ∷ "three" ∷ [];
  fault = some "reset";
  decode_error = "";
  syntax_error = "";
}

abbrev prompt : ℕ → Wait
prompt i = record { others = λ b. b; cancelled = false; now = 8; in_time = true }

-- closing the context raises
abbrev fails_to_close : Closing
fails_to_close = record { close_raises = true; completes = true }

process_response-Exited_example :
    let ending = process_response adapter (some 3) 4 0 prompt fails_to_close lines_then_fault one in
    (ending.completions ≡ 1)
    × Exited (ending.bridge.contexts 4)
    × (any (λ k. nat_beq k 4) (ending.bridge.objects 0).upstreams ≡ false)
unfolding open_session admit metric
process_response-Exited_example =
    process_response-Exited adapter (some 3) 4 0 prompt fails_to_close lines_then_fault one
      (λ i. quiet 4) refl

message_lines-framed_example :
    All IsLine (message_lines "a\r\nb")
    × (iter_sse_events (message_lines "a\r\nb" ++ "" ∷ []) ≡ message_lines "a\r\nb" ∷ [])
    × (values (message_lines "a\r\nb") ≡ "a" ∷ "b" ∷ [])
unfolding splitlines
message_lines-framed_example = message_lines-framed "a\r\nb"
