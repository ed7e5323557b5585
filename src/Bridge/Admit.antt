-- ===== src/Bridge/Admit.antt =====
-- legacy_sse.py: the registry of sessions when a session is added.
use mcp_mux_2_0_dev.Base.{
  ℕ, ◌+◌, ◌<◌, String, ◌≡◌, sym, ◌∙◌, inl, inr, [], true, false, ◌||◌, ◌==◌, arith, eq_iff,
  nat_beq_iff, Option-cases, if◌then◌else◌,
}
use mcp_mux_2_0_dev.Base.Dict.{Dict, lookup, insert, lookup-insert}
use mcp_mux_2_0_dev.Bridge.{BridgeSession, ClosedSession, write}
use mcp_mux_2_0_dev.Bridge.Registry.{
  IsValid, active, insert-Below, is_used, is_used-above, is_used_of, status,
}

-- a new session, under an id that no session has had
module _ {objects : ℕ → BridgeSession} {next : ℕ} {sessions : Dict ℕ} {closed : Dict ClosedSession}
    (v : IsValid objects next sessions closed) (new : BridgeSession)
    (fresh : is_used new.session_id objects next ≡ false) (runs : new.closed ≡ false)
    (quiet : new.queue ≡ []) where
  is_used-admit :
      (id : String)
      → is_used id (write next new objects) (next + 1)
        ≡ ((new.session_id == id) || is_used id objects next)
  unfolding is_used write
  is_used-admit id = ground (arith, is_used-above id next new objects next, nat_beq_iff next next)

  -- a session with the new id would have been seen
  not_fresh : (k : ℕ) → k < next → (objects k).session_id ≡ new.session_id → true ≡ false
  not_fresh k lt e = sym (is_used_of new.session_id objects next k lt e) ∙ fresh

  pub admit-IsValid :
      IsValid (write next new objects) (next + 1) (insert new.session_id next sessions) closed
  unfolding write
  admit-IsValid = record {
    live = λ id k e. ground (
      arith,
      lookup-insert new.session_id id next sessions,
      eq_iff new.session_id id,
      v.live id k,
      nat_beq_iff k next,
    );
    listed = λ k lt runs'. ground (
      arith,
      lookup-insert new.session_id (write next new objects k).session_id next sessions,
      eq_iff new.session_id (write next new objects k).session_id,
      v.listed k,
      nat_beq_iff k next,
      not_fresh k,
    );
    untold = λ k lt runs'. ground (arith, v.untold k, v.told new.session_id, nat_beq_iff k next);
    unique = λ j k lt lt' same_ids.
        ground
          (arith, v.unique j k, nat_beq_iff j next, nat_beq_iff k next, not_fresh j, not_fresh k);
    told = λ id unseen. ground (arith, v.told id, is_used-admit id);
    queued = λ k lt. ground (arith, v.queued k, nat_beq_iff k next);
    below = insert-Below next new.session_id sessions v.below;
    distinct = v.distinct;
    bounded = v.bounded;
  }

  pub status-admit :
      (id : String)
      → status (write next new objects) (next + 1) (insert new.session_id next sessions) closed id
        ≡ (if new.session_id == id
            then active new.path_prefix new.runtime
            else status objects next sessions closed id)
  unfolding write
  status-admit id = elim (Option-cases (lookup id sessions)) [
    | inl absent ↦ rw absent (
        ground (
          arith,
          lookup-insert new.session_id id next sessions,
          is_used-admit id,
          nat_beq_iff next next,
        ))
    | inr (k, found) ↦ rw found (
        ground (
          arith,
          lookup-insert new.session_id id next sessions,
          is_used-admit id,
          v.live id k,
          nat_beq_iff next next,
          nat_beq_iff k next,
        ))
  ]
