-- ===== src/Bridge/Operations.antt =====
-- legacy_sse.py: the operations of the bridge, one by one and in any order, against the registry.
use mcp_mux_2_0_dev.Base.{
  ℕ, ◌<◌, ◌≤◌, String, ◌≡◌, refl, sym, subst, Option, none, some, List, [], ◌∷◌, Bool, true, false,
  ◌&&◌, ◌||◌, ◌==◌, not, length, length-append, nat_beq, leb, arith, eq_iff, Bool-cases,
  Option-cases, inl, inr,
}
use mcp_mux_2_0_dev.Base.Dict.{lookup}
use mcp_mux_2_0_dev.Config.{Endpoint, LegacySseBridgeConfig, base}
use mcp_mux_2_0_dev.Json.{Codec}
use mcp_mux_2_0_dev.Runtime.{Task}
use mcp_mux_2_0_dev.Bridge.{
  Bridge, BridgeSession, count_active, mark_terminal, metric, touch, with_session,
}
use mcp_mux_2_0_dev.Bridge.Sessions.{
  Woken, admit, backpressure_exceeded, blocked, disconnected, enqueue_event, enqueued, expire,
  expired, expiry_round, finish_stream, limited, new_session, open_session, open_with, posted,
  session_expired, stream_round, taken,
}
use mcp_mux_2_0_dev.Bridge.Post.{PostRequest, begin_post, in_session, start_setup}
use mcp_mux_2_0_dev.Bridge.Registry.{
  Becomes, Becomes-refl, Status, is_used_of, Valid, is_used, view,
}
use mcp_mux_2_0_dev.Bridge.Admit.{admit-IsValid, status-admit}
use mcp_mux_2_0_dev.Bridge.Refinement.{
  Refines, Refines-refl, Refines-trans, aside-Refines, change-Refines, close_session_object-Refines,
  mark_terminal-Refines, metric-Refines,
}

-- an id that no session has had was unused
unused-Becomes :
    (b : Bridge) (v : Valid b) (id : String)
    → is_used id b.objects b.next ≡ false
    → (s : Status) → Becomes (view b id) s
unused-Becomes b v id fresh s = elim (Option-cases (lookup id b.sessions)) [
  | inl absent ↦ rw (absent, v.told id fresh, fresh) tt
  | inr (k, found) ↦ ground (arith, v.live id k, is_used_of id b.objects b.next k)
]

module _ (sid path : String) (runtime now : ℕ) (task : Task) (config : LegacySseBridgeConfig) where
  admit-Refines :
      {b : Bridge}
      → Valid b
      → is_used sid b.objects b.next ≡ false
      → Refines b (admit sid path runtime now task config b)
  unfolding admit metric
  admit-Refines {b} v fresh =
      let new = new_session sid path runtime now task config in
      record {
        valid = admit-IsValid v new fresh refl refl;
        moves = λ id.
            subst (λ s. Becomes (view b id) s) (sym (status-admit v new fresh refl refl id))
              (elim (Bool-cases (sid == id)) [
                | inl same ↦ rw same (
                    unused-Becomes b v id
                      (subst (λ i. is_used i b.objects b.next ≡ false) ((eq_iff sid id).0 same)
                        fresh)
                      _)
                | inr other ↦ rw other (Becomes-refl (view b id))
              ]);
        grows = omega arith;
      }

pub open_session-Refines :
    (sid : String) (endpoint : Endpoint) (runtime now : ℕ) (task : Task) {b : Bridge}
    → Valid b
    → is_used sid b.objects b.next ≡ false
    → Refines b (open_session sid endpoint runtime now task b).1
unfolding open_session
open_session-Refines sid endpoint runtime now task {b} v fresh =
    opens (base endpoint).legacy_sse_bridge
  where
    opens :
        (bridge : Option LegacySseBridgeConfig)
        → Refines b (open_with sid (base endpoint).path runtime now task bridge b).1
    opens none = Refines-refl v
    opens (some config) =
        elim (Bool-cases
          (leb config.max_sessions (count_active (base endpoint).path b.objects b.sessions))) [
            | inl full ↦ rw full (metric-Refines v (base endpoint).path limited)
            | inr room ↦
                rw room (admit-Refines sid (base endpoint).path runtime now task config v fresh)
          ]

pub enqueue_event-Refines :
    (codec : Codec) (current : Option ℕ) (now : ℕ) (in_time : Bool) (event : String) (h : ℕ)
    {b : Bridge}
    → Valid b
    → h < b.next
    → (in_time ≡ true → length (b.objects h).queue < (b.objects h).config.queue_capacity)
    → Refines b (enqueue_event codec current now in_time event h b).1
unfolding enqueue_event touch
enqueue_event-Refines codec current now in_time event h {b} v below room =
    puts (b.objects h).closed refl in_time room
  where
    puts :
        (over : Bool)
        → (b.objects h).closed ≡ over
        → (in_time : Bool)
        → (in_time ≡ true → length (b.objects h).queue < (b.objects h).config.queue_capacity)
        → Refines b (enqueued codec current now event h b over in_time).1
    puts true e in_time room = Refines-refl v
    puts false e true room =
        change-Refines h _ v below
          (record {
            same_id = refl;
            same_path = refl;
            same_runtime = refl;
            within = omega (arith, length-append (b.objects h).queue (event ∷ []), room refl);
          })
          refl
    puts false e false room =
        let r = metric-Refines v (b.objects h).path_prefix blocked in
        Refines-trans r (
          mark_terminal-Refines codec current backpressure_exceeded h r.valid
            (omega (arith, r.grows)))

expire-Refines :
    (codec : Codec) (current exclude_task : Option ℕ) (h : ℕ) {b : Bridge}
    → Valid b
    → h < b.next
    → Refines b (expire codec current exclude_task h b)
expire-Refines codec current exclude_task h {b} v below =
    let r = metric-Refines v (b.objects h).path_prefix expired in
    let counted = metric (b.objects h).path_prefix expired b in
    let m : Refines b (mark_terminal codec current session_expired h counted) =
      Refines-trans r
        (mark_terminal-Refines codec current session_expired h r.valid (omega (arith, r.grows))) in
    Refines-trans m
      (close_session_object-Refines current exclude_task h m.valid (omega (arith, m.grows)))

-- a change of a session that keeps what it is known by, and its queue
pub plain-Refines :
    (h : ℕ) (new : BridgeSession) {b : Bridge}
    → Valid b
    → h < b.next
    → new.session_id ≡ (b.objects h).session_id
    → new.path_prefix ≡ (b.objects h).path_prefix
    → new.runtime ≡ (b.objects h).runtime
    → new.config ≡ (b.objects h).config
    → new.queue ≡ (b.objects h).queue
    → new.closed ≡ (b.objects h).closed
    → Refines b (with_session h new b)
plain-Refines h new {b} v below i p r c q e =
    change-Refines h new v below
      (record {
        same_id = i;
        same_path = p;
        same_runtime = r;
        within = rw (q, c) (v.queued h below);
      })
      e

pub expiry_round-Refines :
    (codec : Codec) (current : Option ℕ) (now : ℕ) (woken : Woken) (h : ℕ) {b : Bridge}
    → Valid b
    → h < b.next
    → Refines b (expiry_round codec current now woken h b).1
unfolding expiry_round
expiry_round-Refines codec current now woken h {b} v below =
    let session = b.objects h in
    elim (Bool-cases (woken.closed_done && session.closed)) [
      | inl over ↦ rw over (Refines-refl v)
      | inr runs ↦ rw runs (elim (Bool-cases (woken.activity_done && session.activity)) [
        | inl touched ↦ rw touched (plain-Refines h _ v below refl refl refl refl refl refl)
        | inr idle ↦ rw idle (elim (Bool-cases (leb session.expires_at now)) [
          | inl late ↦ rw late (expire-Refines codec current current h v below)
          | inr early ↦ rw early (Refines-refl v)
        ])
      ])
    ]

pub stream_round-Refines :
    (now h : ℕ) {b : Bridge} → Valid b → h < b.next → Refines b (stream_round now h b).1
unfolding stream_round touch
stream_round-Refines now h {b} v below = takes (b.objects h).queue (v.queued h below)
  where
    takes :
        (queue : List String)
        → length queue ≤ (b.objects h).config.queue_capacity
        → Refines b (taken now h queue (b.objects h) b).1
    takes [] fits = elim (Bool-cases (b.objects h).closed) [
      | inl over ↦ rw over (Refines-refl v)
      | inr runs ↦ rw runs (Refines-refl v)
    ]
    takes (event ∷ queue) fits =
        change-Refines h _ v below
          (record { same_id = refl; same_path = refl; same_runtime = refl; within = omega arith })
          refl

pub finish_stream-Refines :
    (current : Option ℕ) (cut : Bool) (h : ℕ) {b : Bridge}
    → Valid b
    → h < b.next
    → Refines b (finish_stream current cut h b)
unfolding finish_stream
finish_stream-Refines current cut h {b} v below =
    let counted = metric-Refines v (b.objects h).path_prefix disconnected in
    let closes = close_session_object-Refines current none h v below in
    let both =
      Refines-trans counted (
        close_session_object-Refines current none h counted.valid (omega (arith, counted.grows))) in
    elim (Bool-cases (b.objects h).closed) [
      | inl over ↦
          rw over (elim (Bool-cases cut) [ inl gone ↦ rw gone both | inr stays ↦ rw stays closes ])
      | inr runs ↦ rw runs both
    ]

pub start_setup-Refines :
    (task : Task) (request : PostRequest) (h : ℕ) {b : Bridge}
    → Valid b
    → h < b.next
    → Refines b (start_setup task request h b)
unfolding start_setup
start_setup-Refines task request h v below =
    let r = plain-Refines h _ v below refl refl refl refl refl refl in
    Refines-trans r (aside-Refines r.valid _ _ _ _ _)

pub begin_post-Refines :
    (codec : Codec) (current : Option ℕ) (now : ℕ) (request : PostRequest) {b : Bridge}
    → Valid b
    → Refines b (begin_post codec current now request b).1
unfolding begin_post touch
begin_post-Refines codec current now request {b} v =
    elim (Option-cases (lookup request.session_id b.sessions)) [
      | inl absent ↦ rw absent (Refines-refl v)
      | inr (h, found) ↦ rw found (known h (v.live request.session_id h found).0)
    ]
  where
    known : (h : ℕ) → h < b.next → Refines b (in_session codec current now request (some h) b).1
    known h below =
        let session = b.objects h in
        elim (Bool-cases (
          not (session.path_prefix == request.path_prefix)
          || not (nat_beq session.runtime request.runtime))) [
            | inl other ↦ rw other (Refines-refl v)
            | inr same ↦ rw same (elim (Bool-cases (leb session.expires_at now)) [
              | inl late ↦ rw late (expire-Refines codec current none h v below)
              | inr early ↦ rw early (
                  let r =
                    plain-Refines h (touch now session) v below refl refl refl refl refl refl in
                  Refines-trans r (metric-Refines r.valid request.path_prefix posted))
            ])
          ]
