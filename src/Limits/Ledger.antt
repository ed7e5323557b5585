-- ===== src/Limits/Ledger.antt =====
-- limits.py as a whole: the limiter together with the leases that it has handed out, over any
-- sequence of requests and releases.
use mcp_mux_2_0_dev.Base.{
  ℕ, zero, suc, ◌+◌, ◌-◌, String, ◌≡◌, refl, ap, Option, none, some, List, [], ◌∷◌, arith,
  if◌then◌else◌,
}
use mcp_mux_2_0_dev.Config.{Endpoint}
use mcp_mux_2_0_dev.Limits.{
  Buckets, LimitSpec, LimitLease, LimitRejection, Acquired, unlimited, rejected, leased,
  check_specs, conclude, acquire_active, acquire, release, is_limited, limit_specs,
}
use mcp_mux_2_0_dev.Limits.Counts.{
  active_of, tally, active_of-check_specs, active_of-charge_specs, active_of-release_keys,
}
use mcp_mux_2_0_dev.Base.{filter}

-- how many active slots of a key a lease holds
pub held : String → LimitLease → ℕ
held k lease = if lease.released then 0 else tally k lease.keys

unfoldable pub held_all : String → List LimitLease → ℕ
held_all k [] = 0
held_all k (lease ∷ leases) = held k lease + held_all k leases

pub record System : Type 0 where
  pub buckets : Buckets
  pub leases : List LimitLease

pub data Call : Type 0 where
  request : ℕ → Endpoint → Option String → Call
  finish : ℕ → Call

-- a granted lease is handed to its request
abbrev granted : List LimitLease → Acquired × Buckets → System
granted leases (leased lease, bs) = record { buckets = bs; leases = lease ∷ leases }
granted leases (_, bs) = record { buckets = bs; leases = leases }

pub release_at : ℕ → List LimitLease → Buckets → List LimitLease × Buckets
release_at i [] bs = ([], bs)
release_at zero (lease ∷ leases) bs = let (lease', bs') = release lease bs in (lease' ∷ leases, bs')
release_at (suc i) (lease ∷ leases) bs =
    let (leases', bs') = release_at i leases bs in (lease ∷ leases', bs')

pub step : System → Call → System
step s (request now e name) = granted s.leases (acquire now e name s.buckets)
step s (finish i) =
    let (leases', bs') = release_at i s.leases s.buckets in
    record { buckets = bs'; leases = leases' }

pub run : System → List Call → System
run s [] = s
run s (c ∷ cs) = run (step s c) cs

abbrev pub init : System
init = record { buckets = []; leases = [] }

-- what an acquisition adds to the count of a key
abbrev pub gained : String → Acquired → ℕ
gained k (leased lease) = held k lease
gained k _ = 0

conclude-active :
    (now : ℕ) (specs : List LimitSpec) (checked : Option LimitRejection × Buckets) (k : String)
    → active_of k (conclude now specs checked).1
      ≡ active_of k checked.1 + gained k (conclude now specs checked).0
unfolding held
conclude-active now specs (some rejection, bs) k = omega arith
conclude-active now specs (none, bs) k = active_of-charge_specs now specs bs k

acquire_active-active :
    (now : ℕ) (specs : List LimitSpec) (bs : Buckets) (k : String)
    → active_of k (acquire_active now specs bs).1
      ≡ active_of k bs + gained k (acquire_active now specs bs).0
acquire_active-active now [] bs k = omega arith
acquire_active-active now (spec ∷ specs) bs k = omega (
  arith,
  conclude-active now (spec ∷ specs) (check_specs now (spec ∷ specs) bs) k,
  active_of-check_specs now (spec ∷ specs) bs k,
)

pub acquire-active :
    (now : ℕ) (e : Endpoint) (name : Option String) (bs : Buckets) (k : String)
    → active_of k (acquire now e name bs).1 ≡ active_of k bs + gained k (acquire now e name bs).0
unfolding acquire
acquire-active now e name bs k =
    acquire_active-active now (filter is_limited (limit_specs e name)) bs k

granted-held :
    (k : String) (leases : List LimitLease) (r : Acquired × Buckets)
    → held_all k (granted leases r).leases ≡ gained k r.0 + held_all k leases
unfolding held_all
granted-held k leases (unlimited, bs) = omega arith
granted-held k leases (rejected x, bs) = omega arith
granted-held k leases (leased x, bs) = refl

granted-buckets :
    (leases : List LimitLease) (r : Acquired × Buckets) → (granted leases r).buckets ≡ r.1
granted-buckets leases (unlimited, bs) = refl
granted-buckets leases (_, bs) = refl

pub release-active :
    (lease : LimitLease) (bs : Buckets) (k : String)
    → (active_of k (release lease bs).1 ≡ active_of k bs - held k lease)
      × (held k (release lease bs).0 ≡ 0)
unfolding release held
release-active lease bs k = ground (arith, active_of-release_keys lease.keys bs k)

release_at-active :
    (i : ℕ) (leases : List LimitLease) (bs : Buckets) (k : String) (others : ℕ)
    → active_of k bs ≡ others + held_all k leases
    → active_of k (release_at i leases bs).1 ≡ others + held_all k (release_at i leases bs).0
unfolding release_at held_all
release_at-active i [] bs k others h = h
release_at-active zero (lease ∷ leases) bs k others h =
    let (lowered, cleared) = release-active lease bs k in omega arith
release_at-active (suc i) (lease ∷ leases) bs k others h =
    omega (arith, release_at-active i leases bs k (others + held k lease) (omega arith))

-- the books balance: the active count of each key is what the leases not yet released hold
abbrev pub IsBalanced : System → Type 0
IsBalanced s = (k : String) → active_of k s.buckets ≡ held_all k s.leases

step-IsBalanced : (s : System) (c : Call) → IsBalanced s → IsBalanced (step s c)
unfolding step
step-IsBalanced s (request now e name) h k =
    let r = acquire now e name s.buckets in
    rw (granted-buckets s.leases r)
      (omega (arith, acquire-active now e name s.buckets k, granted-held k s.leases r, h k))
step-IsBalanced s (finish i) h k =
    omega (arith, release_at-active i s.leases s.buckets k 0 (omega (arith, h k)))

-- From a balanced system, whatever requests are granted or refused and whatever leases are
-- released, in any order and however often each, the active count of every key equals the slots
-- held by the leases that are not released.
pub run-IsBalanced : (s : System) (cs : List Call) → IsBalanced s → IsBalanced (run s cs)
unfolding run
run-IsBalanced s [] h = h
run-IsBalanced s (c ∷ cs) h = run-IsBalanced (step s c) cs (step-IsBalanced s c h)

-- Releasing the lease that a granted request received gives every key the active count that it
-- had before the request.
pub release-acquire :
    (now : ℕ) (e : Endpoint) (name : Option String) (bs : Buckets) (lease : LimitLease) (k : String)
    → (acquire now e name bs).0 ≡ leased lease
    → active_of k (release lease (acquire now e name bs).1).1 ≡ active_of k bs
release-acquire now e name bs lease k h =
    let added = ap (gained k) h in
    omega (
      arith,
      release-active lease (acquire now e name bs).1 k,
      acquire-active now e name bs k,
      added,
    )
