-- ===== src/Bridge/Refinement.antt =====
-- legacy_sse.py: every operation of the bridge implements the abstract registry of `Registry`, and
-- keeps the invariant of the tables.
use native.Mathlib.Nat.{le_refl}
use mcp_mux_2_0_dev.Base.{
  ℕ, ◌<◌, ◌≤◌, String, ◌≡◌, refl, sym, subst, Option, none, List, [], true, false, ◌==◌, length,
  arith, eq_iff, Bool-cases, Option-cases, inl, inr,
}
use mcp_mux_2_0_dev.Base.Dict.{Dict, lookup, delete}
use mcp_mux_2_0_dev.Json.{Codec}
use mcp_mux_2_0_dev.Runtime.{EndpointRuntime}
use mcp_mux_2_0_dev.Bridge.{
  Bridge, TrackedUpstream, max_tombstones, BridgeMetrics, BridgeSession, ClosedSession, Terminal,
  begin_close, close_session_object, end_close, mark_terminal, metric, remember_closed,
  with_session, write,
}
use mcp_mux_2_0_dev.Bridge.Tombstones.{
  Distinct, lookup-remember_closed, lookup-remember_closed_ne, remember_closed-Distinct,
}
use mcp_mux_2_0_dev.Bridge.Registry.{
  Becomes, Becomes-refl, Becomes-trans, Kept, Valid, active, change-IsValid, is_used_of, status,
  status-change, status_of, view,
}
use mcp_mux_2_0_dev.Bridge.Retire.{retire-Becomes, retire-IsValid, status-retire_self}
use mcp_mux_2_0_dev.Bridge.Retire.{Remembers}

pub record Refines (b b' : Bridge) : Type 0 where
  pub valid : Valid b'
  pub moves : (id : String) → Becomes (view b id) (view b' id)
  pub grows : b.next ≤ b'.next

pub Refines-trans : {b c d : Bridge} → Refines b c → Refines c d → Refines b d
Refines-trans {b} {c} {d} p q = record {
  valid = q.valid;
  moves = λ id. Becomes-trans (view b id) (view c id) (view d id) (p.moves id) (q.moves id);
  grows = omega (arith, p.grows, q.grows);
}

pub Refines-refl : {b : Bridge} → Valid b → Refines b b
Refines-refl {b} v = record { valid = v; moves = λ id. Becomes-refl (view b id); grows = le_refl _ }

-- a change of what the tables do not hold
module _ {b : Bridge} (v : Valid b) where
  pub aside-Refines :
      (runtimes : ℕ → EndpointRuntime) (contexts : ℕ → TrackedUpstream) (owned : List ℕ)
      (metrics : Dict BridgeMetrics) (cancelled : List ℕ)
      → Refines b (record b {
        runtimes = runtimes;
        contexts = contexts;
        owned_sessions = owned;
        metrics = metrics;
        cancelled = cancelled;
      })
  aside-Refines runtimes contexts owned metrics cancelled = record {
    valid = v;
    moves = λ id. Becomes-refl (view b id);
    grows = le_refl _;
  }

  pub metric-Refines :
      (path : String) (change : BridgeMetrics → BridgeMetrics) → Refines b (metric path change b)
  unfolding metric
  metric-Refines path change = aside-Refines b.runtimes b.contexts b.owned_sessions _ b.cancelled

pub change-Refines :
    (h : ℕ) (new : BridgeSession) {b : Bridge}
    → Valid b
    → h < b.next
    → Kept (b.objects h) new
    → new.closed ≡ (b.objects h).closed
    → Refines b (with_session h new b)
change-Refines h new {b} v below kept same = record {
  valid = change-IsValid v h below new kept same;
  moves = λ id.
      subst (λ s. Becomes (view b id) s) (sym (status-change v h below new kept id))
        (Becomes-refl (view b id));
  grows = le_refl _;
}

-- what a session is remembered by
abbrev pub tombstone : BridgeSession → Terminal → ClosedSession
tombstone session reason = record {
  path_prefix = session.path_prefix;
  status_code = reason.status_code;
  message = reason.message;
}

pub remember-Remembers :
    (sid : String) (c : ClosedSession) (closed : Dict ClosedSession)
    → Distinct closed
    → length closed ≤ max_tombstones
    → Remembers sid closed (remember_closed sid c closed)
remember-Remembers sid c closed d n = record {
  others = λ j ne. lookup-remember_closed_ne sid j c closed d ne;
  distinct = remember_closed-Distinct sid c closed d;
  bounded = (lookup-remember_closed sid c closed n).1;
}

-- the status that an active session's id has
status_active :
    (b : Bridge) (v : Valid b) (h : ℕ)
    → h < b.next
    → (b.objects h).closed ≡ false
    → view b (b.objects h).session_id ≡ active (b.objects h).path_prefix (b.objects h).runtime
status_active b v h below runs = rw (v.listed h below runs) refl

-- and that of one that has ended
status_inactive :
    (b : Bridge) (v : Valid b) (h : ℕ)
    → h < b.next
    → (b.objects h).closed ≡ true
    → view b (b.objects h).session_id
      ≡ status_of b.objects none (lookup (b.objects h).session_id b.closed_sessions) true
status_inactive b v h below over =
    elim (Option-cases (lookup (b.objects h).session_id b.sessions)) [
      | inl absent ↦
          rw absent (rw (is_used_of (b.objects h).session_id b.objects b.next h below refl) refl)
      | inr (k, found) ↦ ground (arith, v.live (b.objects h).session_id k, v.unique k h)
    ]

module _ {b : Bridge} (v : Valid b) (h : ℕ) (below : h < b.next) (new : BridgeSession)
    (kept : Kept (b.objects h) new) (over : new.closed ≡ true) (closed' : Dict ClosedSession)
    (memory : Remembers new.session_id b.closed_sessions closed')
    (own : Becomes
      (view b new.session_id)
      (status_of b.objects none (lookup new.session_id closed') true)) where
  retire-Refines :
      (runtimes : ℕ → EndpointRuntime) (cancelled : List ℕ)
      → Refines b (record b {
        sessions = delete new.session_id b.sessions;
        runtimes = runtimes;
        closed_sessions = closed';
        objects = write h new b.objects;
        cancelled = cancelled;
      })
  retire-Refines runtimes cancelled = record {
    valid = retire-IsValid v h below new kept closed' memory over;
    moves = λ id. elim (Bool-cases (new.session_id == id)) [
      | inl same ↦
          subst
            (λ i.
              Becomes (view b i) (
                status (write h new b.objects) b.next (delete new.session_id b.sessions) closed' i))
            ((eq_iff new.session_id id).0 same)
            (subst (λ s. Becomes (view b new.session_id) s)
              (sym (status-retire_self v h below new kept closed' memory)) own)
      | inr other ↦ retire-Becomes v h below new kept closed' memory id other
    ];
    grows = le_refl _;
  }

-- The end of a session for a reason is one step of its id in the abstract registry: from active to
-- ended, with the tombstone. A session that has ended already is left as it is.
pub mark_terminal-Refines :
    (codec : Codec) (current : Option ℕ) (reason : Terminal) (h : ℕ) {b : Bridge}
    → Valid b
    → h < b.next
    → Refines b (mark_terminal codec current reason h b)
unfolding mark_terminal
mark_terminal-Refines codec current reason h {b} v below =
    let session = b.objects h in
    let sid = session.session_id in
    let c = tombstone session reason in
    let closed' = remember_closed sid c b.closed_sessions in
    elim (Bool-cases session.closed) [
      | inl over ↦ rw over (Refines-refl v)
      | inr runs ↦ rw runs (
          retire-Refines v h below _
            (record { same_id = refl; same_path = refl; same_runtime = refl; within = omega arith })
            refl closed' (remember-Remembers sid c b.closed_sessions v.distinct v.bounded)
            (rw
              (
                status_active b v h below runs,
                (lookup-remember_closed sid c b.closed_sessions v.bounded).0,
              )
              refl)
            _ _)
    ]

pub begin_close-Refines :
    (current exclude_task : Option ℕ) (h : ℕ) {b : Bridge}
    → Valid b
    → h < b.next
    → Refines b (begin_close current exclude_task h b)
unfolding begin_close
begin_close-Refines current exclude_task h {b} v below =
    retire-Refines v h below _
      (record { same_id = refl; same_path = refl; same_runtime = refl; within = v.queued h below })
      refl b.closed_sessions
      (record { others = λ j ne. inl refl; distinct = v.distinct; bounded = v.bounded })
      (elim (Bool-cases (b.objects h).closed) [
        | inl over ↦ rw (status_inactive b v h below over) (Becomes-refl _)
        | inr runs ↦ rw (status_active b v h below runs, v.untold h below runs) tt
      ])
      _ _

pub end_close-Refines : (h : ℕ) {b : Bridge} → Valid b → h < b.next → Refines b (end_close h b)
unfolding end_close
end_close-Refines h {b} v below =
    let r =
      change-Refines h (record (b.objects h) { upstreams = []; queue = [] }) v below
        (record { same_id = refl; same_path = refl; same_runtime = refl; within = omega arith })
        refl in
    Refines-trans r (aside-Refines r.valid _ _ _ _ _)

pub close_session_object-Refines :
    (current exclude_task : Option ℕ) (h : ℕ) {b : Bridge}
    → Valid b
    → h < b.next
    → Refines b (close_session_object current exclude_task h b)
unfolding close_session_object
close_session_object-Refines current exclude_task h v below =
    let r = begin_close-Refines current exclude_task h v below in
    Refines-trans r (end_close-Refines h r.valid (omega (arith, r.grows)))
