-- ===== src/Limits/Counts.antt =====
-- Active counts of limits.py: what the acquiring and releasing loops do to the count of each key.
use mcp_mux_2_0_dev.Base.{
  ℕ, ◌+◌, ◌-◌, String, ◌≡◌, refl, List, [], ◌∷◌, arith, eq_iff, ◌==◌, if◌then◌else◌, ◌++◌, inl, inr,
  Option-cases,
}
use mcp_mux_2_0_dev.Base.Dict.{lookup, insert, lookup-insert}
use mcp_mux_2_0_dev.Config.{RequestLimitConfig}
use mcp_mux_2_0_dev.Limits.{
  Bucket, Buckets, LimitSpec, bucket_at, check_specs, charge, charge_specs, release_keys,
  acquired_key, lowered, drop_stale,
}

-- the active count of a key
abbrev pub active_of : String → Buckets → ℕ
active_of k bs = (bucket_at k bs).active

-- how often a key stands in a list
pub tally : String → List String → ℕ
tally k [] = 0
tally k (j ∷ js) = (if k == j then 1 else 0) + tally k js

pub tally-append : (k : String) (xs ys : List String) → tally k (xs ++ ys) ≡ tally k xs + tally k ys
unfolding tally
tally-append k [] ys = omega arith
tally-append k (x ∷ xs) ys = omega (arith, tally-append k xs ys)

pub bucket_at-insert :
    (k j : String) (b : Bucket) (bs : Buckets)
    → bucket_at j (insert k b bs) ≡ (if k == j then b else bucket_at j bs)
unfolding bucket_at
bucket_at-insert k j b bs = ground (arith, lookup-insert k j b bs)

active_of-pruned :
    (key k : String) (ts : List ℕ) (bs : Buckets)
    → active_of k (insert key (record (bucket_at key bs) { timestamps = ts }) bs) ≡ active_of k bs
active_of-pruned key k ts bs =
    ground (
      arith,
      eq_iff key k,
      bucket_at-insert key k (record (bucket_at key bs) { timestamps = ts }) bs,
    )

-- The checks move no active count.
pub active_of-check_specs :
    (now : ℕ) (specs : List LimitSpec) (bs : Buckets) (k : String)
    → active_of k (check_specs now specs bs).1 ≡ active_of k bs
unfolding check_specs
active_of-check_specs now [] bs k = refl
active_of-check_specs now ((key, spec) ∷ rest) bs k =
    let ts = drop_stale now (bucket_at key bs).timestamps in
    let pruned = insert key (record (bucket_at key bs) { timestamps = ts }) bs in
    ground (arith, active_of-pruned key k ts bs, active_of-check_specs now rest pruned k)

active_of-charged :
    (now : ℕ) (key k : String) (spec : RequestLimitConfig) (bs : Buckets)
    → active_of k (insert key (charge now spec (bucket_at key bs)) bs)
      ≡ active_of k bs + tally k (acquired_key key spec)
unfolding charge tally
active_of-charged now key k spec bs = ground (
  arith,
  eq_iff key k,
  eq_iff k key,
  bucket_at-insert key k (charge now spec (bucket_at key bs)) bs,
)

-- Charging raises the count of a key by the times that it is acquired.
pub active_of-charge_specs :
    (now : ℕ) (specs : List LimitSpec) (bs : Buckets) (k : String)
    → active_of k (charge_specs now specs bs).1
      ≡ active_of k bs + tally k (charge_specs now specs bs).0
unfolding charge_specs tally
active_of-charge_specs now [] bs k = omega arith
active_of-charge_specs now ((key, spec) ∷ rest) bs k =
    let charged = insert key (charge now spec (bucket_at key bs)) bs in
    ground (
      arith,
      active_of-charged now key k spec bs,
      active_of-charge_specs now rest charged k,
      tally-append k (acquired_key key spec) (charge_specs now rest charged).0,
    )

active_of-lowered :
    (key k : String) (bs : Buckets)
    → active_of k (lowered key (lookup key bs) bs) ≡ active_of k bs - (if k == key then 1 else 0)
unfolding bucket_at
active_of-lowered key k bs = elim (Option-cases (lookup key bs)) [
  | inl missing ↦ ground (arith, eq_iff k key)
  | inr (b, found) ↦ ground (
    arith,
    eq_iff k key,
    eq_iff key k,
    lookup-insert key k (record b { active = b.active - 1 }) bs,
  )
]

-- Releasing lowers it by the times that it is listed.
pub active_of-release_keys :
    (keys : List String) (bs : Buckets) (k : String)
    → active_of k (release_keys keys bs) ≡ active_of k bs - tally k keys
unfolding release_keys tally
active_of-release_keys [] bs k = omega arith
active_of-release_keys (key ∷ keys) bs k = ground (
  arith,
  active_of-lowered key k bs,
  active_of-release_keys keys (lowered key (lookup key bs) bs) k,
)
