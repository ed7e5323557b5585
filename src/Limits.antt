-- ===== src/Limits.antt =====
-- mcp_router/core/limits.py: the in-process concurrency and rate limiter. The limiter's lock makes
-- each method one atomic step. `now` is the reading of `time.monotonic()`, in nanoseconds.
pub mod Counts
pub mod Ledger
pub mod Admission
mod Tests
use mcp_mux_2_0_dev.Base.{
  ℕ, ◌+◌, ◌-◌, String, Option, none, some, List, [], ◌∷◌, ◌++◌, Bool, true, false, ◌||◌, leb, ltb,
  is_some, filter, length, if◌then◌else◌,
}
use mcp_mux_2_0_dev.Base.Text
use mcp_mux_2_0_dev.Base.Dict.{Dict, lookup, insert}
use mcp_mux_2_0_dev.Config.{Endpoint, base, RequestLimitConfig}
use Prim.Native.String

pub record Bucket : Type 0 where
  pub active : ℕ
  pub timestamps : List ℕ

-- `_Bucket()`
abbrev pub fresh_bucket : Bucket
fresh_bucket = record { active = 0; timestamps = [] }

pub record LimitRejection : Type 0 where
  pub scope : String
  pub reason : String

-- `self._buckets`
abbrev pub Buckets : Type 0
Buckets = Dict Bucket

-- A key with the limits that hold for it.
abbrev pub LimitSpec : Type 0
LimitSpec = String × RequestLimitConfig

-- `self._buckets.get(key)`, a missing one read as `_Bucket()`
abbrev pub or_fresh : Option Bucket → Bucket
or_fresh none = fresh_bucket
or_fresh (some b) = b

unfoldable pub bucket_at : String → Buckets → Bucket
bucket_at key bs = or_fresh (lookup key bs)

-- one minute
abbrev pub window : ℕ
window = 60_000_000_000

-- `while bucket.timestamps and bucket.timestamps[0] <= now - 60.0: popleft()`; the minute is added
-- on the other side, since subtraction of natural numbers stops at 0
unfoldable pub drop_stale : ℕ → List ℕ → List ℕ
drop_stale now [] = []
drop_stale now (t ∷ ts) =
    let rest = drop_stale now ts in if leb (t + window) now then rest else t ∷ ts

abbrev pub is_limited : LimitSpec → Bool
is_limited (key, spec) = is_some spec.max_concurrent || is_some spec.requests_per_minute

abbrev pub tool_spec : String → String → Option RequestLimitConfig → List LimitSpec
tool_spec path name none = []
tool_spec path name (some limits) =
    (String.◌++◌ "tool:" (String.◌++◌ path (String.◌++◌ ":" name)), limits) ∷ []

abbrev pub capability_specs : Endpoint → Option String → List LimitSpec
capability_specs e none = []
capability_specs e (some name) = tool_spec (base e).path name (lookup name (base e).tool_limits)

-- `specs`: the endpoint's own limits, then those of the capability
pub limit_specs : Endpoint → Option String → List LimitSpec
limit_specs e capability_name =
    (String.◌++◌ "endpoint:" (base e).path, (base e).limits) ∷ capability_specs e capability_name

-- `limit is not None and amount >= limit`
abbrev pub reached : Option ℕ → ℕ → Bool
reached none amount = false
reached (some limit) amount = leb limit amount

-- The checking loop: it prunes each bucket on the way, and stops at the first limit reached.
unfoldable pub check_specs : ℕ → List LimitSpec → Buckets → Option LimitRejection × Buckets
unfolding drop_stale
check_specs now [] bs = (none, bs)
check_specs now ((key, spec) ∷ rest) bs =
    let old = bucket_at key bs in
    let bucket : Bucket = record old { timestamps = drop_stale now old.timestamps } in
    let pruned = insert key bucket bs in
    let next = check_specs now rest pruned in
    if reached spec.max_concurrent bucket.active
    then (some (record { scope = key; reason = "concurrency limit exceeded" }), pruned)
    else if reached spec.requests_per_minute (length bucket.timestamps)
    then (some (record { scope = key; reason = "rate limit exceeded" }), pruned)
    else next

-- one round of the acquiring loop on its bucket
unfoldable pub charge : ℕ → RequestLimitConfig → Bucket → Bucket
charge now spec bucket = record {
  active = if is_some spec.max_concurrent then bucket.active + 1 else bucket.active;
  timestamps =
      if is_some spec.requests_per_minute then bucket.timestamps ++ now ∷ [] else bucket.timestamps;
}

abbrev pub acquired_key : String → RequestLimitConfig → List String
acquired_key key spec = if is_some spec.max_concurrent then key ∷ [] else []

-- The acquiring loop: the keys whose active count it raised, and the buckets.
unfoldable pub charge_specs : ℕ → List LimitSpec → Buckets → List String × Buckets
unfolding charge
charge_specs now [] bs = ([], bs)
charge_specs now ((key, spec) ∷ rest) bs =
    let (acquired, bs') =
      charge_specs now rest (insert key (charge now spec (bucket_at key bs)) bs) in
    (acquired_key key spec ++ acquired, bs')

pub record LimitLease : Type 0 where
  pub keys : List String
  pub released : Bool

pub data Acquired : Type 0 where
  unlimited : Acquired
  rejected : LimitRejection → Acquired
  leased : LimitLease → Acquired

abbrev pub conclude : ℕ → List LimitSpec → Option LimitRejection × Buckets → Acquired × Buckets
conclude now specs (some rejection, bs) = (rejected rejection, bs)
conclude now specs (none, bs) =
    let (keys, bs') = charge_specs now specs bs in
    (leased (record { keys = keys; released = false }), bs')

abbrev pub acquire_active : ℕ → List LimitSpec → Buckets → Acquired × Buckets
acquire_active now [] bs = (unlimited, bs)
acquire_active now (spec ∷ specs) bs =
    conclude now (spec ∷ specs) (check_specs now (spec ∷ specs) bs)

-- `RequestLimiter.acquire`
unfoldable pub acquire : ℕ → Endpoint → Option String → Buckets → Acquired × Buckets
unfolding limit_specs
acquire now e capability_name bs =
    acquire_active now (filter is_limited (limit_specs e capability_name)) bs

abbrev pub lowered : String → Option Bucket → Buckets → Buckets
lowered key none bs = bs
lowered key (some b) bs =
    if ltb 0 b.active then insert key (record b { active = b.active - 1 }) bs else bs

-- `RequestLimiter._release`
unfoldable pub release_keys : List String → Buckets → Buckets
release_keys [] bs = bs
release_keys (key ∷ keys) bs = release_keys keys (lowered key (lookup key bs) bs)

-- `LimitLease.release`
unfoldable pub release : LimitLease → Buckets → LimitLease × Buckets
unfolding release_keys
release lease bs =
    if lease.released
    then (lease, bs)
    else (record lease { released = true }, release_keys lease.keys bs)
