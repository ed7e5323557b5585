-- ===== src/Bridge/Answers.antt =====
-- legacy_sse.py: what clients see of the registry: the answer to a post whose session has ended, and
-- the limit on open sessions.
use mcp_mux_2_0_dev.Base.{
  ℕ, ◌+◌, ◌<◌, ◌≤◌, String, ◌≡◌, refl, sym, subst, ap, ◌∙◌, ◌⊎◌, inl, inr, Option, none, some, [],
  ◌∷◌, Bool, true, false, ◌==◌, not, leb, arith, eq_iff, nat_beq_iff, Bool-cases, Option-cases,
  if◌then◌else◌,
}
use mcp_mux_2_0_dev.Base.Dict.{Dict, lookup, insert}
use mcp_mux_2_0_dev.Config.{Endpoint, LegacySseBridgeConfig, base}
use mcp_mux_2_0_dev.Json.{Codec}
use mcp_mux_2_0_dev.Runtime.{Task}
use mcp_mux_2_0_dev.Bridge.{
  Bridge, BridgeSession, ClosedSession, Terminal, count_active, error_event, remember_closed,
  mark_terminal, metric, write,
}
use mcp_mux_2_0_dev.Bridge.Sessions.{
  Opening, admit, new_session, open_session, open_with, refused, streams,
}
use mcp_mux_2_0_dev.Bridge.Post.{Begin, PostRequest, answers, begin_post, not_open}
use mcp_mux_2_0_dev.Bridge.Tombstones.{lookup-remember_closed}
use mcp_mux_2_0_dev.Bridge.Registry.{
  Becomes, Below, Status, Valid, active, ended, gone, is_used, is_used_of, status_of, unused, view,
}
use mcp_mux_2_0_dev.Bridge.Retire.{status-retire_self}
use mcp_mux_2_0_dev.Bridge.Refinement.{mark_terminal-Refines, remember-Remembers, tombstone}
use mcp_mux_2_0_dev.Bridge.Runs.{Run, Run-Refines}

-- The answer that the abstract registry gives to a post, where it does not depend on the time.
abbrev pub spec_answer : String → Status → Option Begin
spec_answer path unused = some (answers 404 "Session not found")
spec_answer path gone = some (answers 404 "Session not found")
spec_answer path (ended c) = some (
    if not (c.path_prefix == path)
    then answers 409 "Session belongs to a different endpoint"
    else answers c.status_code c.message)
spec_answer path (active p r) = none

spec_answer-not_open :
    (path : String) (objects : ℕ → BridgeSession) (c : Option ClosedSession) (used : Bool)
    → spec_answer path (status_of objects none c used) ≡ some (not_open path c)
unfolding not_open
spec_answer-not_open path objects none true = refl
spec_answer-not_open path objects none false = refl
spec_answer-not_open path objects (some c) used = refl

-- A post to a session that is not open is answered as the abstract registry says, and changes
-- nothing: 404 for an id that was never used or is forgotten, and for one that ended the status and
-- the message of its tombstone, or 409 at another endpoint.
pub begin_post-spec_answer :
    (codec : Codec) (current : Option ℕ) (now : ℕ) (request : PostRequest) (b : Bridge)
    {answer : Begin}
    → spec_answer request.path_prefix (view b request.session_id) ≡ some answer
    → begin_post codec current now request b ≡ (answer, b)
unfolding begin_post
begin_post-spec_answer codec current now request b e =
    elim (Option-cases (lookup request.session_id b.sessions)) [
      | inl absent ↦ ground (
        arith,
        spec_answer-not_open request.path_prefix b.objects
            (lookup request.session_id b.closed_sessions)
            (is_used request.session_id b.objects b.next),
      )
      | inr (h, found) ↦ ground arith
    ]

-- what an ended id is, or was before it was forgotten
after_end :
    (path : String) (c : ClosedSession) (s : Status)
    → Becomes (ended c) s
    → c.path_prefix ≡ path
    → (spec_answer path s ≡ some (answers c.status_code c.message))
      ⊎ ((s ≡ gone) × (spec_answer path s ≡ some (answers 404 "Session not found")))
after_end path c (ended d) h e = ground (arith, eq_iff d.path_prefix path)
after_end path c gone h e = inr (refl, refl)
after_end path c unused h e = absurd h
after_end path c (active p r) h e = absurd h

-- an open session that ends for a reason is known by its tombstone
pub view-mark_terminal :
    (codec : Codec) (current : Option ℕ) (reason : Terminal) (h : ℕ) (b : Bridge)
    → Valid b
    → h < b.next
    → (b.objects h).closed ≡ false
    → view (mark_terminal codec current reason h b) (b.objects h).session_id
      ≡ ended (tombstone (b.objects h) reason)
unfolding mark_terminal
view-mark_terminal codec current reason h b v below runs =
    let session = b.objects h in
    let sid = session.session_id in
    let c = tombstone session reason in
    let closed' = remember_closed sid c b.closed_sessions in
    rw runs (
      status-retire_self v h below
        (record session {
          queue = [];
          terminal_event = some (error_event codec reason.code reason.message reason.status_code);
          closed = true;
        })
        (record { same_id = refl; same_path = refl; same_runtime = refl; within = omega arith })
        closed' (remember-Remembers sid c b.closed_sessions v.distinct v.bounded)
      ∙ rw (lookup-remember_closed sid c b.closed_sessions v.bounded).0 refl)

-- an ended session is told its reason
begin_post-ended :
    (codec : Codec) (current : Option ℕ) (now : ℕ) (request : PostRequest) (b : Bridge)
    {c : ClosedSession}
    → view b request.session_id ≡ ended c
    → c.path_prefix ≡ request.path_prefix
    → begin_post codec current now request b ≡ (answers c.status_code c.message, b)
begin_post-ended codec current now request b {c} e same =
    begin_post-spec_answer codec current now request b
      (ap (spec_answer request.path_prefix) e ∙ own)
  where
    own : spec_answer request.path_prefix (ended c) ≡ some (answers c.status_code c.message)
    own = ground (arith, eq_iff c.path_prefix request.path_prefix)

-- When a session ends for a reason, a post to it is told that reason. So is every later one,
-- whatever happens in between, until the registry has forgotten the session: the id was used, and
-- no session and no tombstone is left of it; then the answer is 404. A session never opens again,
-- and no later reason replaces the first.
pub begin_post-mark_terminal :
    (codec : Codec) (current : Option ℕ) (reason : Terminal) (h : ℕ) (b : Bridge)
    → Valid b
    → h < b.next
    → (b.objects h).closed ≡ false
    → {c : Bridge} → Run codec (mark_terminal codec current reason h b) c
    → (now : ℕ) (request : PostRequest) → request.session_id ≡ (b.objects h).session_id
    → request.path_prefix ≡ (b.objects h).path_prefix
    → (begin_post codec current now request (mark_terminal codec current reason h b)
        ≡ (answers reason.status_code reason.message, mark_terminal codec current reason h b))
      × ((begin_post codec current now request c ≡ (answers reason.status_code reason.message, c))
          ⊎ ((view c request.session_id ≡ gone)
              × (begin_post codec current now request c ≡ (answers 404 "Session not found", c))))
begin_post-mark_terminal codec current reason h b v below runs {c} run now request same_id
      same_path =
    let reached = mark_terminal-Refines codec current reason h v below in
    let at_end = view-mark_terminal codec current reason h b v below runs in
    let told =
      after_end request.path_prefix (tombstone (b.objects h) reason) (view c request.session_id)
        (rw same_id (
          subst (λ s. Becomes s (view c (b.objects h).session_id)) at_end
            ((Run-Refines codec reached.valid run).moves (b.objects h).session_id)))
        (sym same_path) in
    (
      begin_post-ended codec current now request (mark_terminal codec current reason h b)
          (ap (view (mark_terminal codec current reason h b)) same_id ∙ at_end) (sym same_path),
      elim told [
        | inl e ↦ inl (begin_post-spec_answer codec current now request c e)
        | inr (forgotten, e) ↦ inr (forgotten, begin_post-spec_answer codec current now request c e)
      ],
    )

count_active-insert :
    (path sid : String) (next : ℕ) (new : BridgeSession) (objects : ℕ → BridgeSession) (d : Dict ℕ)
    → lookup sid d ≡ none
    → Below next d
    → count_active path (write next new objects) (insert sid next d)
      ≤ count_active path objects d + 1
unfolding count_active insert lookup write
count_active-insert path sid next new objects [] absent below =
    ground (arith, nat_beq_iff next next)
count_active-insert path sid next new objects ((id, k) ∷ d) absent below =
    ground
      (arith, eq_iff id sid, nat_beq_iff k next, count_active-insert path sid next new objects d)

-- How a GET for a new session ends.
pub data Limited (b : Bridge) (path : String)
    : Option LegacySseBridgeConfig → Opening × Bridge → Type 0 where
  disabled :
      Limited b path none (refused 400 "Legacy SSE compatibility is disabled for this endpoint", b)
  full :
      {config : LegacySseBridgeConfig} {after : Bridge}
      → config.max_sessions ≤ count_active path b.objects b.sessions
      → after.objects ≡ b.objects
      → after.sessions ≡ b.sessions
      → Limited b path
          (some config)
          (refused 429 "Legacy SSE session limit reached for this endpoint", after)
  opened :
      {config : LegacySseBridgeConfig} {after : Bridge}
      → count_active path after.objects after.sessions ≤ config.max_sessions
      → Limited b path (some config) (streams b.next, after)

open_with-Limited :
    (sid path : String) (runtime now : ℕ) (task : Task) (config : Option LegacySseBridgeConfig)
    (b : Bridge)
    → Valid b
    → is_used sid b.objects b.next ≡ false
    → Limited b path config (open_with sid path runtime now task config b)
unfolding admit metric
open_with-Limited sid path runtime now task none b v fresh = disabled
open_with-Limited sid path runtime now task (some config) b v fresh =
    elim (Bool-cases (leb config.max_sessions (count_active path b.objects b.sessions))) [
      | inl is_full ↦ rw is_full (full (ground arith) refl refl)
      | inr room ↦ rw room (
          opened (
            omega (
              arith,
              less room,
              count_active-insert path sid b.next (new_session sid path runtime now task config)
                  b.objects b.sessions (fresh_id (lookup sid b.sessions) refl) v.below,
            )))
    ]
  where
    less :
        leb config.max_sessions (count_active path b.objects b.sessions) ≡ false
        → count_active path b.objects b.sessions < config.max_sessions
    less room = ground arith

    fresh_id : (found : Option ℕ) → lookup sid b.sessions ≡ found → lookup sid b.sessions ≡ none
    fresh_id none e = e
    fresh_id (some k) e = ground (arith, v.live sid k, is_used_of sid b.objects b.next k)

-- An endpoint never gets more open sessions by a GET than its configuration allows: without a
-- bridge the answer is 400 and nothing changes, at the limit it is 429 and the sessions stay as they
-- are, and otherwise a session is opened and their number is within the limit.
pub open_session-Limited :
    (sid : String) (endpoint : Endpoint) (runtime now : ℕ) (task : Task) (b : Bridge)
    → Valid b
    → is_used sid b.objects b.next ≡ false
    → Limited b
        (base endpoint).path
        (base endpoint).legacy_sse_bridge
        (open_session sid endpoint runtime now task b)
unfolding open_session
open_session-Limited sid endpoint runtime now task b v fresh =
    open_with-Limited sid (base endpoint).path runtime now task (base endpoint).legacy_sse_bridge b
      v fresh
