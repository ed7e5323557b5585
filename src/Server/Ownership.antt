-- ===== src/Server/Ownership.antt =====
-- server.py: on every path through catch_all_proxy, who gives the leases back.
use mcp_mux_2_0_dev.Base.{
  ℕ, ◌+◌, String, ◌≡◌, ◌⊎◌, refl, Option, none, some, Bool, true, false, ◌&&◌, not, arith, inl, inr,
  is_some, ◌==◌, if◌then◌else◌,
}
use mcp_mux_2_0_dev.Config.{Endpoint, base}
use mcp_mux_2_0_dev.Limits.{Buckets, LimitLease, Acquired, unlimited, rejected, leased, acquire}
use mcp_mux_2_0_dev.Limits.Counts.{active_of}
use mcp_mux_2_0_dev.Limits.Ledger.{held, gained, acquire-active, release-active}
use mcp_mux_2_0_dev.Protocol.{ProtocolEra}
use mcp_mux_2_0_dev.Runtime
use mcp_mux_2_0_dev.Runtime.{
  EndpointRuntime, UpstreamLease, LeaseResult, unavailable, granted, acquire_lease, is_state,
  running, draining, failed,
}
use mcp_mux_2_0_dev.Security.Gateway.{is_given}
use mcp_mux_2_0_dev.Server.Activation.{held_upstream, taken, acquire_upstream_lease-taken}
use mcp_mux_2_0_dev.Server.Leases.{
  Request, Surroundings, Gateway, Held, Reply, Outcome, nothing, release_leases, Ending, complete,
  streaming, raising, finish_leased_response, closed, Activation, lease, activation_error,
  start_raised, acquire_upstream_lease, get_unsupported, retiring, bridge_disabled, release_limit,
  release_upstream, streamed,
}
use mcp_mux_2_0_dev.Server.Checks.{
  Checked, refuse, proceed, check_request, Authorized, allows, denies, cannot_name,
  authorize_request, is_sse_init, is_streamable, is_modern,
}
use mcp_mux_2_0_dev.Server.Dispatch.{
  Endings, exchange, with_upstream, after_admission, untouched, with_limit, with_authorization,
  with_checked, catch_all_proxy,
}

abbrev pub held_limit : String → Option LimitLease → ℕ
held_limit k none = 0
held_limit k (some l) = held k l

-- The later state counts what the earlier one did and the leases held, and no more.
abbrev pub Owes : Gateway → Gateway → Held → Type 0
Owes g g' h =
    ((k : String) → active_of k g'.buckets ≡ active_of k g.buckets + held_limit k h.limit)
    × (g'.runtime.active_leases ≡ g.runtime.active_leases + held_upstream h.upstream)

release_limit-active :
    (k : String) (limit : Option LimitLease) (bs : Buckets) (others : ℕ)
    → active_of k bs ≡ others + held_limit k limit
    → active_of k (release_limit limit bs) ≡ others + 0
release_limit-active k none bs others h = h
release_limit-active k (some l) bs others h = omega (arith, release-active l bs k, h)

release_upstream-active :
    (now : ℕ) (upstream : Option UpstreamLease) (runtime : EndpointRuntime) (others : ℕ)
    → runtime.active_leases ≡ others + held_upstream upstream
    → (release_upstream now upstream runtime).active_leases ≡ others + 0
unfolding Runtime.release
release_upstream-active now none runtime others h = h
release_upstream-active now (some l) runtime others h = ground arith

-- Giving everything back settles the account.
pub release_leases-Owes :
    (now : ℕ) (g g' : Gateway) (h : Held) → Owes g g' h → Owes g (release_leases now h g') nothing
unfolding release_leases
release_leases-Owes now g g' h (limits, leases) = (
  λ k. release_limit-active k h.limit g'.buckets (active_of k g.buckets) (limits k),
  release_upstream-active now h.upstream g'.runtime g.runtime.active_leases leases,
)

-- An outcome whose response owns what its state counts more than the earlier state; only a response
-- that streams on owns anything.
pub record Settles (g : Gateway) (out : Outcome) : Type 0 where
  pub owes : Owes g out.state out.held
  pub holds : (out.reply ≡ streamed) ⊎ (out.held ≡ nothing)

finish-Settles :
    (now : ℕ) (ending : Ending) (h : Held) (g g' : Gateway)
    → Owes g g' h
    → Settles g (finish_leased_response now ending h g')
unfolding finish_leased_response
finish-Settles now complete h g g' o = record {
  owes = release_leases-Owes now g g' h o;
  holds = inr refl;
}
finish-Settles now streaming h g g' o = record { owes = o; holds = inl refl }
finish-Settles now raising h g g' o = record {
  owes = release_leases-Owes now g g' h o;
  holds = inr refl;
}

either-Settles :
    (g : Gateway) (b : Bool) (x y : Outcome)
    → Settles g x
    → Settles g y
    → Settles g (if b then x else y)
either-Settles g true x y h h' = h
either-Settles g false x y h h' = h'

closed-Settles :
    (now : ℕ) (reply : Reply) (g g' : Gateway) (h : Held)
    → Owes g g' h
    → Settles g (closed now reply h g')
closed-Settles now reply g g' h o = record {
  owes = release_leases-Owes now g g' h o;
  holds = inr refl;
}

untouched-Settles :
    (g g' : Gateway) (reply : Reply)
    → ((k : String) → active_of k g'.buckets ≡ active_of k g.buckets)
    → g'.runtime.active_leases ≡ g.runtime.active_leases
    → Settles g (untouched reply g')
untouched-Settles g g' reply h h' = record {
  owes = (λ k. omega (arith, h k), omega (arith, h'));
  holds = inr refl;
}

module _ (env : Surroundings) (endings : Endings) (endpoint : Endpoint) (request : Request) where
  exchange-Settles :
      (era : ProtocolEra) (h : Held) (g g' : Gateway)
      → Owes g g' h
      → Settles g (exchange env endings endpoint request era h g')
  unfolding exchange
  exchange-Settles era h g g' o =
      either-Settles g _ _ _ (finish-Settles env.now streaming h g g' o) (
        either-Settles g _ _ _ (finish-Settles env.now endings.bridged h g g' o)
          (finish-Settles env.now endings.proxied h g g' o))

  with_upstream-Settles :
      (era : ProtocolEra) (limit : Option LimitLease) (g g' : Gateway)
      (activated : Activation × EndpointRuntime)
      → Owes g g' (record { limit = limit; upstream = none })
      → activated.1.active_leases ≡ g'.runtime.active_leases + taken activated.0
      → Settles g (with_upstream env endings endpoint request era limit g' activated)
  with_upstream-Settles era limit g g' (lease l, runtime) (limits, leases) h =
      exchange-Settles era (record { limit = limit; upstream = some l }) g
        (record g' { runtime = runtime }) (limits, omega (arith, leases, h))
  with_upstream-Settles era limit g g' (activation_error status, runtime) (limits, leases) h =
      record {
        owes =
            release_leases-Owes env.now g (record g' { runtime = runtime })
              (record { limit = limit; upstream = none }) (limits, omega (arith, leases, h));
        holds = inr refl;
      }
  with_upstream-Settles era limit g g' (start_raised, runtime) (limits, leases) h = record {
    owes =
        release_leases-Owes env.now g (record g' { runtime = runtime })
          (record { limit = limit; upstream = none }) (limits, omega (arith, leases, h));
    holds = inr refl;
  }

  after_admission-Settles :
      (era : ProtocolEra) (limit : Option LimitLease) (g g' : Gateway)
      → Owes g g' (record { limit = limit; upstream = none })
      → Settles g (after_admission env endings endpoint request era limit g')
  unfolding after_admission
  after_admission-Settles era limit g g' o =
      let held : Held = record { limit = limit; upstream = none } in
      let back = λ (reply : Reply). closed-Settles env.now reply g g' held o in
      let is_get = request.method == "GET" in
      let streamable = is_streamable (base endpoint).transport in
      let bridge = is_some (base endpoint).legacy_sse_bridge in
      either-Settles g (is_get && streamable && not (is_sse_init request)) _ _
        (back get_unsupported)
        (either-Settles g (is_get && streamable && bridge && is_state g'.runtime.state draining) _ _
          (back retiring)
          (either-Settles g (is_get && streamable && bridge) _ _
            (finish-Settles env.now (if endings.session_streams then streaming else complete) held g
              g' o)
            (either-Settles g
              ((request.method == "POST")
                && streamable
                && is_given request.session_id
                && not (is_modern era)
                && not bridge)
              _ _ (back bridge_disabled)
              (with_upstream-Settles era limit g g' (acquire_upstream_lease env g'.runtime) o
                (acquire_upstream_lease-taken env g'.runtime)))))

  with_limit-Settles :
      (era : ProtocolEra) (g : Gateway) (admitted : Acquired × Buckets)
      → ((k : String) → active_of k admitted.1 ≡ active_of k g.buckets + gained k admitted.0)
      → Settles g (with_limit env endings endpoint request era g admitted)
  with_limit-Settles era g (rejected why, bs) h = record {
    owes = (λ k. h k, omega arith);
    holds = inr refl;
  }
  with_limit-Settles era g (unlimited, bs) h =
      after_admission-Settles era none g (record g { buckets = bs }) (λ k. h k, omega arith)
  with_limit-Settles era g (leased l, bs) h =
      after_admission-Settles era (some l) g (record g { buckets = bs }) (λ k. h k, omega arith)

  with_authorization-Settles :
      (era : ProtocolEra) (g : Gateway) (authorized : Authorized)
      → Settles g (with_authorization env endings endpoint request era g authorized)
  with_authorization-Settles era g (cannot_name e) = untouched-Settles g g _ (λ k. refl) refl
  with_authorization-Settles era g denies = untouched-Settles g _ _ (λ k. refl) refl
  with_authorization-Settles era g (allows name) =
      with_limit-Settles era g (acquire env.now endpoint name g.buckets)
        (acquire-active env.now endpoint name g.buckets)

  with_checked-Settles :
      (g : Gateway) (checked : Checked)
      → Settles g (with_checked env endings endpoint request g checked)
  with_checked-Settles g (refuse reply) = untouched-Settles g g reply (λ k. refl) refl
  with_checked-Settles g (proceed parsed era) =
      with_authorization-Settles era g (authorize_request endpoint request parsed)

module _ (env : Surroundings) (endings : Endings) (request : Request) (g : Gateway) where
  -- Whatever a request is and however its start, its exchange or its bridge session ends, the
  -- limiter's active counts and the endpoint's active leases are afterwards what they were before
  -- plus the leases that its response still owns, and only a response that streams on owns any: no
  -- path loses a lease or gives one back twice.
  pub catch_all_proxy-Settles : Settles g (catch_all_proxy env endings request g)
  unfolding catch_all_proxy
  catch_all_proxy-Settles =
      with_checked-Settles env endings g.runtime.config request g
        (check_request env g.runtime.config request)

  -- Once the response has ended and given back what it owned, every count is what it was before the
  -- request.
  pub release_leases-catch_all_proxy :
      (later : ℕ)
      → Owes g
          (release_leases later
            (catch_all_proxy env endings request g).held
            (catch_all_proxy env endings request g).state)
          nothing
  release_leases-catch_all_proxy later =
      release_leases-Owes later g (catch_all_proxy env endings request g).state
        (catch_all_proxy env endings request g).held catch_all_proxy-Settles.owes
