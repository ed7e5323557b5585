-- ===== src/Bridge/Retire.antt =====
-- legacy_sse.py: the registry of sessions when a session ends.
use mcp_mux_2_0_dev.Base.{
  ℕ, ◌<◌, ◌≤◌, String, ◌≡◌, refl, sym, subst, ◌⊎◌, inl, inr, Option, none, some, Bool, true, false,
  ◌==◌, length, arith, eq_iff, eq_refl, nat_beq_iff, Bool-cases, Option-cases,
}
use mcp_mux_2_0_dev.Base.Dict.{Dict, lookup, delete, lookup-delete}
use mcp_mux_2_0_dev.Bridge.{BridgeSession, ClosedSession, max_tombstones, write}
use mcp_mux_2_0_dev.Bridge.Tombstones.{Distinct}
use mcp_mux_2_0_dev.Bridge.Registry.{
  Becomes, IsValid, Kept, delete-Below, is_used, is_used-write, is_used_of, status, status_of,
}

forgets-Becomes :
    (objects : ℕ → BridgeSession) (found : Option ℕ) (c c' : Option ClosedSession) (used : Bool)
    → (c' ≡ c) ⊎ (c' ≡ none)
    → (c ≡ none) ⊎ (used ≡ true)
    → Becomes (status_of objects found c used) (status_of objects found c' used)
forgets-Becomes objects (some k) c c' used h u = (refl, refl)
forgets-Becomes objects none none none true h u = tt
forgets-Becomes objects none none none false h u = tt
forgets-Becomes objects none none (some d) used h u = ground arith
forgets-Becomes objects none (some c) (some d) used h u = ground arith
forgets-Becomes objects none (some c) none true h u = tt
forgets-Becomes objects none (some c) none false h u = ground arith

-- what a memory of ended sessions becomes when one id is added
pub record Remembers (sid : String) (closed closed' : Dict ClosedSession) : Type 0 where
  pub others :
      (j : String)
      → (sid == j) ≡ false
      → (lookup j closed' ≡ lookup j closed) ⊎ (lookup j closed' ≡ none)
  pub distinct : Distinct closed'
  pub bounded : length closed' ≤ max_tombstones

module _ {objects : ℕ → BridgeSession} {next : ℕ} {sessions : Dict ℕ} {closed : Dict ClosedSession}
    (v : IsValid objects next sessions closed) (h : ℕ) (below : h < next) (new : BridgeSession)
    (kept : Kept (objects h) new) (closed' : Dict ClosedSession)
    (memory : Remembers new.session_id closed closed') where
  -- the session ends
  pub retire-IsValid :
      new.closed ≡ true
      → IsValid (write h new objects) next (delete new.session_id sessions) closed'
  unfolding write
  retire-IsValid shut = record {
    live = λ id k e. ground (
      arith,
      lookup-delete new.session_id id sessions,
      eq_iff new.session_id id,
      v.live id k,
      nat_beq_iff k h,
      kept.same_id,
    );
    listed = λ k lt runs. ground (
      arith,
      lookup-delete new.session_id (objects k).session_id sessions,
      eq_iff new.session_id (objects k).session_id,
      v.listed k,
      v.unique k h,
      nat_beq_iff k h,
      kept.same_id,
    );
    untold = λ k lt runs. ground (
      arith,
      memory.others (objects k).session_id,
      eq_iff new.session_id (objects k).session_id,
      v.untold k,
      v.unique k h,
      nat_beq_iff k h,
      kept.same_id,
    );
    unique = λ j k lt lt' same_ids.
        ground (arith, v.unique j k, nat_beq_iff j h, nat_beq_iff k h, kept.same_id);
    told = λ id fresh. ground (
      arith,
      v.told id,
      is_used-write id h new objects next kept.same_id,
      memory.others id,
      eq_iff new.session_id id,
      is_used_of id objects next h,
      kept.same_id,
    );
    queued = λ k lt. ground (arith, v.queued k, nat_beq_iff k h, kept.within);
    below = delete-Below next new.session_id sessions v.below;
    distinct = memory.distinct;
    bounded = memory.bounded;
  }

  -- any other id stays in the table of sessions, or out of it
  status-retire :
      (id : String)
      → (new.session_id == id) ≡ false
      → status (write h new objects) next (delete new.session_id sessions) closed' id
        ≡ status_of objects (lookup id sessions) (lookup id closed') (is_used id objects next)
  unfolding write
  status-retire id ne = elim (Option-cases (lookup id sessions)) [
    | inl absent ↦ rw absent (
        ground (
          arith,
          lookup-delete new.session_id id sessions,
          is_used-write id h new objects next kept.same_id,
        ))
    | inr (k, found) ↦ rw found (
        ground (
          arith,
          lookup-delete new.session_id id sessions,
          v.live id k,
          eq_iff new.session_id id,
          nat_beq_iff k h,
          kept.same_id,
        ))
  ]

  -- and keeps its status, or is forgotten
  pub retire-Becomes :
      (id : String)
      → (new.session_id == id) ≡ false
      → Becomes
          (status objects next sessions closed id)
          (status (write h new objects) next (delete new.session_id sessions) closed' id)
  retire-Becomes id ne =
      subst (λ s. Becomes (status objects next sessions closed id) s) (sym (status-retire id ne))
        (forgets-Becomes objects (lookup id sessions) (lookup id closed) (lookup id closed')
          (is_used id objects next) (memory.others id ne)
          (elim (Bool-cases (is_used id objects next)) [
            | inl used ↦ inr used
            | inr fresh ↦ inl (v.told id fresh)
          ]))

  -- the session's own id has the status of its entry in the memory
  pub status-retire_self :
      status (write h new objects) next (delete new.session_id sessions) closed' new.session_id
      ≡ status_of objects none (lookup new.session_id closed') true
  unfolding write
  status-retire_self = ground (
    arith,
    lookup-delete new.session_id new.session_id sessions,
    eq_refl new.session_id,
    is_used-write new.session_id h new objects next kept.same_id,
    kept.same_id,
    is_used_of new.session_id objects next h below (sym kept.same_id),
  )
