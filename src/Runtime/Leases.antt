-- ===== src/Runtime/Leases.antt =====
-- runtime.py: when a lease is granted, and that the count of active leases is the number of leases
-- that are out.
use mcp_mux_2_0_dev.Base.{
  ℕ, zero, suc, ◌+◌, ◌≡◌, ◌↔◌, ◌⊎◌, List, [], ◌∷◌, false, arith, if◌then◌else◌,
}
use mcp_mux_2_0_dev.Config.{is_managed}
use mcp_mux_2_0_dev.Runtime.{
  stopped, starting, running, EndpointRuntime, UpstreamLease, LeaseResult, unavailable, granted,
  acquire_lease, release,
}

-- states in which an endpoint takes upstream work
abbrev pub TakesWork : EndpointRuntime → Type 0
TakesWork runtime =
    (runtime.state ≡ running)
    ⊎ ((is_managed runtime.config ≡ false)
        × ((runtime.state ≡ stopped) ⊎ (runtime.state ≡ starting)))

-- A lease is granted exactly in a state that takes work: RUNNING, or for a remote endpoint any but
-- DRAINING and FAILED. Granting counts the lease and changes nothing else.
pub acquire_lease_iff :
    (runtime : EndpointRuntime)
    → (acquire_lease runtime
        ≡ granted
            (record { released = false })
            (record runtime { active_leases = runtime.active_leases + 1 }))
      ↔ TakesWork runtime
unfolding acquire_lease
acquire_lease_iff runtime = ground arith

-- a runtime together with the leases that it has granted
pub record Ledger : Type 0 where
  pub runtime : EndpointRuntime
  pub leases : List UpstreamLease

pub data Call : Type 0 where
  acquires : Call
  releases : ℕ → ℕ → Call

abbrev enter : Ledger → LeaseResult → Ledger
enter l (granted lease runtime) = record { runtime = runtime; leases = lease ∷ l.leases }
enter l (unavailable path state) = l

pub release_at : ℕ → ℕ → List UpstreamLease → EndpointRuntime → List UpstreamLease × EndpointRuntime
release_at now i [] runtime = ([], runtime)
release_at now zero (lease ∷ leases) runtime =
    let (lease', runtime') = release now lease runtime in (lease' ∷ leases, runtime')
release_at now (suc i) (lease ∷ leases) runtime =
    let (leases', runtime') = release_at now i leases runtime in (lease ∷ leases', runtime')

pub step : Ledger → Call → Ledger
step l acquires = enter l (acquire_lease l.runtime)
step l (releases now i) =
    let (leases', runtime') = release_at now i l.leases l.runtime in
    record { runtime = runtime'; leases = leases' }

pub run : Ledger → List Call → Ledger
run l [] = l
run l (c ∷ cs) = run (step l c) cs

unfoldable pub open_leases : List UpstreamLease → ℕ
open_leases [] = 0
open_leases (lease ∷ leases) = (if lease.released then 0 else 1) + open_leases leases

abbrev pub IsCounted : Ledger → Type 0
IsCounted l = l.runtime.active_leases ≡ open_leases l.leases

release_at-counted :
    (now i : ℕ) (leases : List UpstreamLease) (runtime : EndpointRuntime) (others : ℕ)
    → runtime.active_leases ≡ others + open_leases leases
    → (release_at now i leases runtime).1.active_leases
      ≡ others + open_leases (release_at now i leases runtime).0
unfolding release_at release open_leases
release_at-counted now i [] runtime others h = h
release_at-counted now zero (lease ∷ leases) runtime others h = ground arith
release_at-counted now (suc i) (lease ∷ leases) runtime others h = omega (
  arith,
  release_at-counted now i leases runtime (others + (if lease.released then 0 else 1))
      (omega arith),
)

step-IsCounted : (l : Ledger) (c : Call) → IsCounted l → IsCounted (step l c)
unfolding step acquire_lease open_leases
step-IsCounted l acquires h = ground arith
step-IsCounted l (releases now i) h =
    omega (arith, release_at-counted now i l.leases l.runtime 0 (omega arith))

-- Over any sequence of acquisitions and releases, repeated releases of one lease included, the
-- count of active leases stays the number of leases granted and not yet released, if it is so at
-- first.
pub run-IsCounted : (l : Ledger) (cs : List Call) → IsCounted l → IsCounted (run l cs)
unfolding run
run-IsCounted l [] h = h
run-IsCounted l (c ∷ cs) h = run-IsCounted (step l c) cs (step-IsCounted l c h)
