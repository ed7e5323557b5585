-- ===== src/Limits/Admission.antt =====
-- `RequestLimiter.acquire` of limits.py: what a granted, a refused and a released request leave in
-- the buckets.
use Prim.Native.String
use Prim.Native.Char.{code}
use text.Mathlib.TextLemmas.{cons-append, head-eq_of_cons-eq}
use mcp_mux_2_0_dev.Base.{
  ℕ, ◌≤◌, String, ◌≡◌, ◌≢◌, refl, sym, ap, ◌∙◌, Option, none, some, List, [], ◌∷◌, false, arith,
  eq_iff, All, eq_refl, length, length-append, filter, Option-cases, inl, inr,
}
use mcp_mux_2_0_dev.Base.Dict.{lookup, insert}
use mcp_mux_2_0_dev.Config.{Endpoint, base, RequestLimitConfig}
use mcp_mux_2_0_dev.Limits.{
  Bucket, Buckets, LimitSpec, LimitRejection, bucket_at, drop_stale, reached, is_limited,
  limit_specs, check_specs, charge, charge_specs, Acquired, leased, conclude, acquire_active,
  acquire,
}
use mcp_mux_2_0_dev.Limits.Counts.{bucket_at-insert}

-- an amount stays within an optional limit
abbrev pub Within : Option ℕ → ℕ → Type 0
Within none amount = Unit {0}
Within (some limit) amount = amount ≤ limit

-- a bucket obeys its limits
abbrev pub Obeys : Buckets → LimitSpec → Type 0
Obeys bs (key, spec) =
    Within spec.max_concurrent (bucket_at key bs).active
    × Within spec.requests_per_minute (length (bucket_at key bs).timestamps)

-- a bucket has room for one more request
abbrev HasRoom : Buckets → LimitSpec → Type 0
HasRoom bs (key, spec) =
    (reached spec.max_concurrent (bucket_at key bs).active ≡ false)
    × (reached spec.requests_per_minute (length (bucket_at key bs).timestamps) ≡ false)

abbrev Apart : String → List LimitSpec → Type 0
Apart k [] = Unit {0}
Apart k ((key, spec) ∷ rest) = (key ≢ k) × Apart k rest

abbrev Distinct : List LimitSpec → Type 0
Distinct [] = Unit {0}
Distinct ((key, spec) ∷ rest) = Apart key rest × Distinct rest

bucket_at-check_specs-Apart :
    (now : ℕ) (specs : List LimitSpec) (bs : Buckets) (k : String)
    → Apart k specs
    → bucket_at k (check_specs now specs bs).1 ≡ bucket_at k bs
unfolding check_specs
bucket_at-check_specs-Apart now [] bs k h = refl
bucket_at-check_specs-Apart now ((key, spec) ∷ rest) bs k h =
    let b : Bucket = record (bucket_at key bs) {
      timestamps = drop_stale now (bucket_at key bs).timestamps;
    } in
    ground (
      arith,
      eq_iff key k,
      bucket_at-insert key k b bs,
      bucket_at-check_specs-Apart now rest (insert key b bs) k,
    )

bucket_at-charge_specs-Apart :
    (now : ℕ) (specs : List LimitSpec) (bs : Buckets) (k : String)
    → Apart k specs
    → bucket_at k (charge_specs now specs bs).1 ≡ bucket_at k bs
unfolding charge_specs
bucket_at-charge_specs-Apart now [] bs k h = refl
bucket_at-charge_specs-Apart now ((key, spec) ∷ rest) bs k h =
    let b = charge now spec (bucket_at key bs) in
    ground (
      arith,
      eq_iff key k,
      bucket_at-insert key k b bs,
      bucket_at-charge_specs-Apart now rest (insert key b bs) k,
    )

-- Checks that pass leave room in every bucket.
check_specs-HasRoom :
    (now : ℕ) (specs : List LimitSpec) (bs : Buckets)
    → Distinct specs
    → (check_specs now specs bs).0 ≡ none
    → All (HasRoom (check_specs now specs bs).1) specs
unfolding check_specs
check_specs-HasRoom now [] bs d h = tt
check_specs-HasRoom now ((key, spec) ∷ rest) bs d h =
    let b : Bucket = record (bucket_at key bs) {
      timestamps = drop_stale now (bucket_at key bs).timestamps;
    } in
    ground (
      arith,
      eq_refl key,
      bucket_at-insert key key b bs,
      bucket_at-check_specs-Apart now rest (insert key b bs) key d.0,
      check_specs-HasRoom now rest (insert key b bs) d.1,
    )

HasRoom-insert :
    (key : String) (b : Bucket) (bs : Buckets) (specs : List LimitSpec)
    → Apart key specs
    → All (HasRoom bs) specs
    → All (HasRoom (insert key b bs)) specs
HasRoom-insert key b bs [] a h = tt
HasRoom-insert key b bs ((k, spec) ∷ rest) a h =
    ground (arith, eq_iff key k, bucket_at-insert key k b bs, HasRoom-insert key b bs rest a.1 h.1)

charge-Obeys :
    (now : ℕ) (key : String) (spec : RequestLimitConfig) (bs : Buckets)
    → HasRoom bs (key, spec)
    → Within spec.max_concurrent (charge now spec (bucket_at key bs)).active
      × Within spec.requests_per_minute (length (charge now spec (bucket_at key bs)).timestamps)
unfolding charge
charge-Obeys now key spec bs h =
    ground (arith, length-append (bucket_at key bs).timestamps (now ∷ []))

-- Charging a bucket with room keeps it within its limits.
charge_specs-Obeys :
    (now : ℕ) (specs : List LimitSpec) (bs : Buckets)
    → Distinct specs
    → All (HasRoom bs) specs
    → All (Obeys (charge_specs now specs bs).1) specs
unfolding charge_specs
charge_specs-Obeys now [] bs d h = tt
charge_specs-Obeys now ((key, spec) ∷ rest) bs d h =
    let b = charge now spec (bucket_at key bs) in
    ground (
      arith,
      eq_refl key,
      bucket_at-insert key key b bs,
      bucket_at-charge_specs-Apart now rest (insert key b bs) key d.0,
      charge-Obeys now key spec bs h.0,
      charge_specs-Obeys now rest (insert key b bs) d.1 (HasRoom-insert key b bs rest d.0 h.1),
    )

-- An endpoint's bucket is never a tool's.
endpoint_key-ne-tool_key : (p q : String) → String.◌++◌ "tool:" q ≢ String.◌++◌ "endpoint:" p
endpoint_key-ne-tool_key p q e =
    let same = sym (cons-append _ "ool:" q) ∙ e ∙ cons-append _ "ndpoint:" p in
    let heads : code "t" ≡ code "e" = ap code (head-eq_of_cons-eq same) in
    absurd (omega (arith, heads))

filter-limit_specs-Distinct :
    (e : Endpoint) (name : Option String) → Distinct (filter is_limited (limit_specs e name))
unfolding limit_specs filter
filter-limit_specs-Distinct e none = ground arith
filter-limit_specs-Distinct e (some name) = elim (Option-cases (lookup name (base e).tool_limits)) [
  | inl missing ↦ rw missing (ground arith)
  | inr (limits, found) ↦ rw found (
      ground (
        arith,
        endpoint_key-ne-tool_key (base e).path (String.◌++◌ (base e).path (String.◌++◌ ":" name)),
      ))
]

abbrev pub Granted : List LimitSpec → Acquired × Buckets → Type 0
Granted specs (leased lease, bs) = All (Obeys bs) specs
Granted specs (_, bs) = Unit {0}

conclude-Granted :
    (now : ℕ) (specs : List LimitSpec) (checked : Option LimitRejection × Buckets)
    → Distinct specs
    → (checked.0 ≡ none → All (HasRoom checked.1) specs)
    → Granted specs (conclude now specs checked)
conclude-Granted now specs (some rejection, bs) d h = tt
conclude-Granted now specs (none, bs) d h = charge_specs-Obeys now specs bs d (h refl)

acquire_active-Granted :
    (now : ℕ) (specs : List LimitSpec) (bs : Buckets)
    → Distinct specs
    → Granted specs (acquire_active now specs bs)
acquire_active-Granted now [] bs d = tt
acquire_active-Granted now (spec ∷ specs) bs d =
    conclude-Granted now (spec ∷ specs) (check_specs now (spec ∷ specs) bs) d
      (check_specs-HasRoom now (spec ∷ specs) bs d)

-- A request that is granted leaves every bucket it is charged to within its configured limits: the
-- requests in progress at most `max_concurrent`, the time stamps kept at most
-- `requests_per_minute`.
pub acquire-Granted :
    (now : ℕ) (e : Endpoint) (name : Option String) (bs : Buckets)
    → Granted (filter is_limited (limit_specs e name)) (acquire now e name bs)
unfolding acquire
acquire-Granted now e name bs = acquire_active-Granted now _ bs (filter-limit_specs-Distinct e name)
