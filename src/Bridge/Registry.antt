-- ===== src/Bridge/Registry.antt =====
-- legacy_sse.py: the sessions as the bridge's clients know them, by id: the abstract registry, the
-- invariant of the bridge's tables, and what each elementary change of the tables is in it.
use mcp_mux_2_0_dev.Base.{
  ℕ, zero, suc, ◌+◌, ◌<◌, ◌≤◌, String, ◌≡◌, refl, inl, inr, Option, none, some, [], ◌∷◌, Bool, true,
  false, ◌||◌, ◌==◌, length, arith, eq_iff, nat_beq_iff, Option-cases, if◌then◌else◌,
}
use mcp_mux_2_0_dev.Base.Dict.{Dict, lookup, insert, delete}
use mcp_mux_2_0_dev.Bridge.{Bridge, BridgeSession, ClosedSession, max_tombstones, write}
use mcp_mux_2_0_dev.Bridge.Tombstones.{Distinct}

pub data Status : Type 0 where
  -- no session has had the id
  unused : Status
  -- the endpoint, and the identity of the runtime
  active : String → ℕ → Status
  -- ended for a reason that is remembered
  ended : ClosedSession → Status
  -- ended, and nothing is known of it
  gone : Status

-- some session below a number has the id
unfoldable pub is_used : String → (ℕ → BridgeSession) → ℕ → Bool
is_used id objects zero = false
is_used id objects (suc n) = ((objects n).session_id == id) || is_used id objects n

abbrev pub status_of : (ℕ → BridgeSession) → Option ℕ → Option ClosedSession → Bool → Status
status_of objects (some h) tombstone used = active (objects h).path_prefix (objects h).runtime
status_of objects none (some c) used = ended c
status_of objects none none used = if used then gone else unused

abbrev pub status : (ℕ → BridgeSession) → ℕ → Dict ℕ → Dict ClosedSession → String → Status
status objects next sessions closed id =
    status_of objects (lookup id sessions) (lookup id closed) (is_used id objects next)

-- the abstract registry of a bridge
abbrev pub view : Bridge → String → Status
view b = status b.objects b.next b.sessions b.closed_sessions

-- The life of an id: it only goes forward, and keeps what is known of it until it is forgotten.
abbrev pub Becomes : Status → Status → Type 0
Becomes unused t = Unit
Becomes (active p r) (active q k) = (p ≡ q) × (r ≡ k)
Becomes (active p r) (ended c) = c.path_prefix ≡ p
Becomes (active p r) gone = Unit
Becomes (ended c) (ended d) = c ≡ d
Becomes (ended c) gone = Unit
Becomes gone gone = Unit
Becomes _ _ = ⊥

pub Becomes-refl : (s : Status) → Becomes s s
Becomes-refl unused = tt
Becomes-refl (active p r) = (refl, refl)
Becomes-refl (ended c) = refl
Becomes-refl gone = tt

pub Becomes-trans : (s t u : Status) → Becomes s t → Becomes t u → Becomes s u
Becomes-trans unused t u p q = tt
Becomes-trans (active a r) (active b k) u p q = active-trans u p q
  where
    active-trans :
        (u : Status) → (a ≡ b) × (r ≡ k) → Becomes (active b k) u → Becomes (active a r) u
    active-trans (active c l) p q = ground arith
    active-trans (ended c) p q = ground arith
    active-trans gone p q = tt
    active-trans unused p q = absurd q
Becomes-trans (active a r) (ended c) (ended d) p q = ground arith
Becomes-trans (active a r) _ gone p q = tt
Becomes-trans (ended c) (ended d) (ended e) p q = ground arith
Becomes-trans (ended c) _ gone p q = tt
Becomes-trans gone gone gone p q = tt
Becomes-trans _ _ _ p q = ground arith

-- every object in the table exists
abbrev pub Below : ℕ → Dict ℕ → Type 0
Below next [] = Unit
Below next ((id, h) ∷ sessions) = (h < next) × Below next sessions

pub delete-Below : (next : ℕ) (sid : String) (d : Dict ℕ) → Below next d → Below next (delete sid d)
unfolding delete
delete-Below next sid [] h = tt
delete-Below next sid ((id, k) ∷ d) h = ground (arith, delete-Below next sid d)

pub insert-Below :
    (next : ℕ) (sid : String) (d : Dict ℕ) → Below next d → Below (next + 1) (insert sid next d)
unfolding insert
insert-Below next sid [] h = (omega arith, tt)
insert-Below next sid ((id, k) ∷ d) h = ground (arith, insert-Below next sid d, Below_mono next d)
  where
    Below_mono : (next : ℕ) (d : Dict ℕ) → Below next d → Below (next + 1) d
    Below_mono next [] h = tt
    Below_mono next ((id, k) ∷ d) h = (omega arith, Below_mono next d h.1)

-- The invariant of the tables.
pub record IsValid (objects : ℕ → BridgeSession) (next : ℕ) (sessions : Dict ℕ)
    (closed : Dict ClosedSession) : Type 0 where
  pub live :
      (id : String) (h : ℕ)
      → lookup id sessions ≡ some h
      → (h < next) × ((objects h).closed ≡ false) × ((objects h).session_id ≡ id)
  pub listed :
      (h : ℕ)
      → h < next
      → (objects h).closed ≡ false
      → lookup (objects h).session_id sessions ≡ some h
  pub untold :
      (h : ℕ) → h < next → (objects h).closed ≡ false → lookup (objects h).session_id closed ≡ none
  pub unique :
      (h k : ℕ) → h < next → k < next → (objects h).session_id ≡ (objects k).session_id → h ≡ k
  pub told : (id : String) → is_used id objects next ≡ false → lookup id closed ≡ none
  pub queued : (h : ℕ) → h < next → length (objects h).queue ≤ (objects h).config.queue_capacity
  pub below : Below next sessions
  pub distinct : Distinct closed
  pub bounded : length closed ≤ max_tombstones

abbrev pub Valid : Bridge → Type 0
Valid b = IsValid b.objects b.next b.sessions b.closed_sessions

-- A change of one session that leaves what it is known by.
pub record Kept (old new : BridgeSession) : Type 0 where
  pub same_id : new.session_id ≡ old.session_id
  pub same_path : new.path_prefix ≡ old.path_prefix
  pub same_runtime : new.runtime ≡ old.runtime
  pub within : length new.queue ≤ new.config.queue_capacity

pub is_used-write :
    (id : String) (h : ℕ) (new : BridgeSession) (objects : ℕ → BridgeSession) (n : ℕ)
    → new.session_id ≡ (objects h).session_id
    → is_used id (write h new objects) n ≡ is_used id objects n
unfolding is_used write
is_used-write id h new objects zero e = refl
is_used-write id h new objects (suc n) e =
    ground (arith, is_used-write id h new objects n e, nat_beq_iff n h)

pub is_used-above :
    (id : String) (h : ℕ) (new : BridgeSession) (objects : ℕ → BridgeSession) (n : ℕ)
    → n ≤ h
    → is_used id (write h new objects) n ≡ is_used id objects n
unfolding is_used write
is_used-above id h new objects zero e = refl
is_used-above id h new objects (suc n) e =
    ground (arith, is_used-above id h new objects n, nat_beq_iff n h)

pub is_used_of :
    (id : String) (objects : ℕ → BridgeSession) (n h : ℕ)
    → h < n
    → (objects h).session_id ≡ id
    → is_used id objects n ≡ true
unfolding is_used
is_used_of id objects zero h lt e = ground arith
is_used_of id objects (suc n) h lt e =
    ground (arith, is_used_of id objects n h, eq_iff (objects n).session_id id, nat_beq_iff n h)

module _ {objects : ℕ → BridgeSession} {next : ℕ} {sessions : Dict ℕ} {closed : Dict ClosedSession}
    (v : IsValid objects next sessions closed) (h : ℕ) (below : h < next) (new : BridgeSession)
    (kept : Kept (objects h) new) where
  -- a change that leaves the session open, or closed
  pub change-IsValid :
      new.closed ≡ (objects h).closed → IsValid (write h new objects) next sessions closed
  unfolding write
  change-IsValid same = record {
    live = λ id k e. ground (arith, v.live id k e, nat_beq_iff k h);
    listed = λ k lt runs. ground (arith, v.listed k, nat_beq_iff k h);
    untold = λ k lt runs. ground (arith, v.untold k, nat_beq_iff k h);
    unique = λ j k lt lt' same_ids. ground (arith, v.unique j k, nat_beq_iff j h, nat_beq_iff k h);
    told = λ id fresh. ground (arith, v.told id, is_used-write id h new objects next kept.same_id);
    queued = λ k lt. ground (arith, v.queued k, nat_beq_iff k h);
    below = v.below;
    distinct = v.distinct;
    bounded = v.bounded;
  }

  pub status-change :
      (id : String)
      → status (write h new objects) next sessions closed id
        ≡ status objects next sessions closed id
  unfolding write
  status-change id = elim (Option-cases (lookup id sessions)) [
    | inl absent ↦ rw absent (ground (arith, is_used-write id h new objects next kept.same_id))
    | inr (k, found) ↦ rw found (ground (arith, nat_beq_iff k h, kept.same_path, kept.same_runtime))
  ]

-- forgetting what is known of an id
