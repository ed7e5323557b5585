-- ===== src/Bridge/Runs.antt =====
-- legacy_sse.py: the operations of the bridge in any order.
use mcp_mux_2_0_dev.Base.{
  ℕ, ◌<◌, String, ◌≡◌, refl, Option, none, some, Bool, true, false, length, Bool-cases, inl, inr,
}
use mcp_mux_2_0_dev.Base.Text.{is_empty}
use mcp_mux_2_0_dev.Config.{Endpoint}
use mcp_mux_2_0_dev.Json.{Codec}
use mcp_mux_2_0_dev.Runtime.{Task}
use mcp_mux_2_0_dev.Bridge.{Bridge, Terminal, begin_close, end_close, mark_terminal, with_session}
use mcp_mux_2_0_dev.Bridge.Sessions.{
  Woken, enqueue_event, expiry_round, finish_stream, open_session, stream_round,
}
use mcp_mux_2_0_dev.Bridge.Post.{
  PostRequest, add_response, add_upstream, begin_post, shut, shut_and_discard, start_setup,
  tracked_by, with_remote,
}
use mcp_mux_2_0_dev.Bridge.Registry.{Valid, is_used}
use mcp_mux_2_0_dev.Bridge.Refinement.{
  Refines, Refines-refl, Refines-trans, aside-Refines, begin_close-Refines, end_close-Refines,
  mark_terminal-Refines,
}
use mcp_mux_2_0_dev.Bridge.Operations.{
  plain-Refines, start_setup-Refines, begin_post-Refines, enqueue_event-Refines,
  expiry_round-Refines, finish_stream-Refines, open_session-Refines, stream_round-Refines,
}

shut_and_discard-Refines :
    (u h : ℕ) {b : Bridge} → Valid b → h < b.next → Refines b (shut_and_discard u h b)
unfolding shut_and_discard shut
shut_and_discard-Refines u h v below =
    let r = plain-Refines h _ v below refl refl refl refl refl refl in
    Refines-trans r (aside-Refines r.valid _ _ _ _ _)

-- the response task is published, with its upstream
abbrev publish : ℕ → ℕ → Option String → Task → ℕ → Bridge → Bridge
publish runtime u remote task h b =
    tracked_by runtime task
      (with_session h (add_response task (with_remote remote (add_upstream u (b.objects h)))) b)

publish-Refines :
    (runtime u : ℕ) (remote : Option String) (task : Task) (h : ℕ) {b : Bridge}
    → Valid b
    → h < b.next
    → Refines b (publish runtime u remote task h b)
publish-Refines runtime u none task h v below =
    let r = plain-Refines h _ v below refl refl refl refl refl refl in
    Refines-trans r (aside-Refines r.valid _ _ _ _ _)
publish-Refines runtime u (some id) task h v below = elim (Bool-cases (is_empty id)) [
  | inl blank ↦ rw blank (
      let r = plain-Refines h _ v below refl refl refl refl refl refl in
      Refines-trans r (aside-Refines r.valid _ _ _ _ _))
  | inr given ↦ rw given (
      let r = plain-Refines h _ v below refl refl refl refl refl refl in
      Refines-trans r (aside-Refines r.valid _ _ _ _ _))
]

-- One operation of the bridge, or a part of one between two waits.
pub data Step (codec : Codec) : Bridge → Bridge → Type 0 where
  opens :
      {b : Bridge} (sid : String) (endpoint : Endpoint) (runtime now : ℕ) (task : Task)
      → is_used sid b.objects b.next ≡ false
      → Step codec b (open_session sid endpoint runtime now task b).1
  posts :
      {b : Bridge} (current : Option ℕ) (now : ℕ) (request : PostRequest)
      → Step codec b (begin_post codec current now request b).1
  sets_up :
      {b : Bridge} (task : Task) (request : PostRequest) (h : ℕ)
      → h < b.next
      → Step codec b (start_setup task request h b)
  responds :
      {b : Bridge} (runtime u : ℕ) (remote : Option String) (task : Task) (h : ℕ)
      → h < b.next
      → Step codec b (publish runtime u remote task h b)
  enqueues :
      {b : Bridge} (current : Option ℕ) (now : ℕ) (in_time : Bool) (event : String) (h : ℕ)
      → h < b.next
      → (in_time ≡ true → length (b.objects h).queue < (b.objects h).config.queue_capacity)
      → Step codec b (enqueue_event codec current now in_time event h b).1
  fails :
      {b : Bridge} (current : Option ℕ) (reason : Terminal) (h : ℕ)
      → h < b.next
      → Step codec b (mark_terminal codec current reason h b)
  releases : {b : Bridge} (u h : ℕ) → h < b.next → Step codec b (shut_and_discard u h b)
  watches :
      {b : Bridge} (current : Option ℕ) (now : ℕ) (woken : Woken) (h : ℕ)
      → h < b.next
      → Step codec b (expiry_round codec current now woken h b).1
  streams : {b : Bridge} (now h : ℕ) → h < b.next → Step codec b (stream_round now h b).1
  disconnects :
      {b : Bridge} (current : Option ℕ) (cut : Bool) (h : ℕ)
      → h < b.next
      → Step codec b (finish_stream current cut h b)
  begins_close :
      {b : Bridge} (current exclude_task : Option ℕ) (h : ℕ)
      → h < b.next
      → Step codec b (begin_close current exclude_task h b)
  ends_close : {b : Bridge} (h : ℕ) → h < b.next → Step codec b (end_close h b)

pub data Run (codec : Codec) (b : Bridge) : Bridge → Type 0 where
  start : Run codec b b
  also : {c d : Bridge} → Run codec b c → Step codec c d → Run codec b d

Step-Refines : (codec : Codec) {b c : Bridge} → Step codec b c → Valid b → Refines b c
Step-Refines codec (opens sid endpoint runtime now task fresh) v =
    open_session-Refines sid endpoint runtime now task v fresh
Step-Refines codec (posts current now request) v = begin_post-Refines codec current now request v
Step-Refines codec (sets_up task request h below) v = start_setup-Refines task request h v below
Step-Refines codec (responds runtime u remote task h below) v =
    publish-Refines runtime u remote task h v below
Step-Refines codec (enqueues current now in_time event h below room) v =
    enqueue_event-Refines codec current now in_time event h v below room
Step-Refines codec (fails current reason h below) v =
    mark_terminal-Refines codec current reason h v below
Step-Refines codec (releases u h below) v = shut_and_discard-Refines u h v below
Step-Refines codec (watches current now woken h below) v =
    expiry_round-Refines codec current now woken h v below
Step-Refines codec (streams now h below) v = stream_round-Refines now h v below
Step-Refines codec (disconnects current cut h below) v = finish_stream-Refines current cut h v below
Step-Refines codec (begins_close current exclude_task h below) v =
    begin_close-Refines current exclude_task h v below
Step-Refines codec (ends_close h below) v = end_close-Refines h v below

-- Over any interleaving of the operations of posts, responses, streams, expiry and closing: the
-- tables stay consistent (an id leads to an open session with that id exactly while it is open, an
-- open session has no tombstone, no queue is over its capacity, no more than 4096 tombstones are
-- kept), and each id goes forward through its life in the abstract registry: unused, active, ended
-- with one tombstone, gone. Session ids are never given out twice, and the queue takes an event
-- only when it has room.
pub Run-Refines : (codec : Codec) {b c : Bridge} → Valid b → Run codec b c → Refines b c
Run-Refines codec v start = Refines-refl v
Run-Refines codec v (also r s) =
    let before = Run-Refines codec v r in Refines-trans before (Step-Refines codec s before.valid)
