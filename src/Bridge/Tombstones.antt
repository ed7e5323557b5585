-- ===== src/Bridge/Tombstones.antt =====
-- legacy_sse.py, `_remember_closed`: the bounded memory of sessions that ended.
use mcp_mux_2_0_dev.Base.{
  ℕ, ◌+◌, ◌≤◌, ◌<◌, String, ◌≡◌, refl, ◌⊎◌, inl, none, some, [], ◌∷◌, false, ◌==◌, length, arith,
  eq_iff, eq_refl,
}
use mcp_mux_2_0_dev.Base.Dict.{Dict, lookup, insert, lookup-insert}
use mcp_mux_2_0_dev.Bridge.{ClosedSession, drop_oldest, max_tombstones, remember_closed}

module _ {ℓ} {V : Type ℓ} where
  -- each key at most once
  abbrev pub Distinct : Dict V → Type ℓ
  Distinct [] = Unit
  Distinct ((k, v) ∷ d) = (lookup k d ≡ none) × Distinct d

  pub insert-Distinct : (k : String) (v : V) (d : Dict V) → Distinct d → Distinct (insert k v d)
  unfolding insert lookup
  insert-Distinct k v [] h = (refl, tt)
  insert-Distinct k v ((j, w) ∷ d) (fresh, rest) =
      ground (arith, eq_iff j k, eq_iff k j, lookup-insert k j v d, insert-Distinct k v d rest)

  pub length-insert-le : (k : String) (v : V) (d : Dict V) → length (insert k v d) ≤ length d + 1
  unfolding insert
  length-insert-le k v [] = omega arith
  length-insert-le k v ((j, w) ∷ d) = ground (arith, length-insert-le k v d)

  pub length-drop_oldest-le : (limit : ℕ) (d : Dict V) → length (drop_oldest limit d) ≤ limit
  unfolding drop_oldest
  length-drop_oldest-le limit [] = omega arith
  length-drop_oldest-le limit (e ∷ d) = ground (arith, length-drop_oldest-le limit d)

  pub drop_oldest_small : (limit : ℕ) (d : Dict V) → length d ≤ limit → drop_oldest limit d ≡ d
  unfolding drop_oldest
  drop_oldest_small limit [] h = refl
  drop_oldest_small limit (e ∷ d) h = ground arith

  -- what is forgotten is forgotten whole, and what stays is as it was
  pub lookup-drop_oldest :
      (limit : ℕ) (k : String) (d : Dict V)
      → Distinct d
      → (lookup k (drop_oldest limit d) ≡ lookup k d) ⊎ (lookup k (drop_oldest limit d) ≡ none)
  unfolding drop_oldest lookup
  lookup-drop_oldest limit k [] h = inl refl
  lookup-drop_oldest limit k ((j, w) ∷ d) (fresh, rest) =
      ground (arith, eq_iff j k, lookup-drop_oldest limit k d rest)

  pub drop_oldest-Distinct : (limit : ℕ) (d : Dict V) → Distinct d → Distinct (drop_oldest limit d)
  unfolding drop_oldest
  drop_oldest-Distinct limit [] h = tt
  drop_oldest-Distinct limit ((j, w) ∷ d) h = ground (arith, drop_oldest-Distinct limit d h.1)

  -- the newest entry survives the trimming
  pub lookup-drop_oldest-insert :
      (limit : ℕ) (k : String) (v : V) (d : Dict V)
      → 0 < limit
      → length d ≤ limit
      → lookup k (drop_oldest limit (insert k v d)) ≡ some v
  unfolding drop_oldest insert lookup
  lookup-drop_oldest-insert limit k v [] pos h = ground (arith, eq_iff k k)
  lookup-drop_oldest-insert limit k v ((j, w) ∷ d) pos h = ground (
    arith,
    eq_iff j k,
    eq_refl k,
    length-insert-le k v d,
    lookup-insert k k v d,
    drop_oldest_small limit (insert k v d),
  )

-- A session that has just ended is remembered, and no more sessions than the limit are.
pub lookup-remember_closed :
    (id : String) (closed : ClosedSession) (d : Dict ClosedSession)
    → length d ≤ max_tombstones
    → (lookup id (remember_closed id closed d) ≡ some closed)
      × (length (remember_closed id closed d) ≤ max_tombstones)
unfolding remember_closed
lookup-remember_closed id closed d h = (
  lookup-drop_oldest-insert max_tombstones id closed d (omega arith) h,
  length-drop_oldest-le max_tombstones (insert id closed d),
)

pub remember_closed-Distinct :
    (id : String) (closed : ClosedSession) (d : Dict ClosedSession)
    → Distinct d
    → Distinct (remember_closed id closed d)
unfolding remember_closed
remember_closed-Distinct id closed d h =
    drop_oldest-Distinct max_tombstones (insert id closed d) (insert-Distinct id closed d h)

-- Any other session's entry stays, or is forgotten.
pub lookup-remember_closed_ne :
    (id j : String) (closed : ClosedSession) (d : Dict ClosedSession)
    → Distinct d
    → (id == j) ≡ false
    → (lookup j (remember_closed id closed d) ≡ lookup j d)
      ⊎ (lookup j (remember_closed id closed d) ≡ none)
unfolding remember_closed
lookup-remember_closed_ne id j closed d h ne = ground (
  arith,
  lookup-drop_oldest max_tombstones j (insert id closed d) (insert-Distinct id closed d h),
  lookup-insert id j closed d,
)
