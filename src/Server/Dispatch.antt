-- ===== src/Server/Dispatch.antt =====
-- mcp_router/server.py: catch_all_proxy after its checks, and as a whole. What the network does is
-- an argument: how a process start goes, and how the exchange with the upstream service ends.
use mcp_mux_2_0_dev.Base.{◌+◌, Option, none, some, Bool, ◌&&◌, not, is_some, ◌==◌, if◌then◌else◌}
use mcp_mux_2_0_dev.Config.{Endpoint, base}
use mcp_mux_2_0_dev.Limits.{Buckets, LimitLease, Acquired, unlimited, rejected, leased, acquire}
use mcp_mux_2_0_dev.Protocol.{ProtocolEra}
use mcp_mux_2_0_dev.Runtime.{EndpointRuntime, is_state, draining}
use mcp_mux_2_0_dev.Security.Gateway.{is_given}
use mcp_mux_2_0_dev.Server.Leases.{
  Activation, Ending, Gateway, Held, Outcome, Reply, Request, Surroundings, acquire_upstream_lease,
  activation_error, bad_names, bridge_disabled, closed, complete, denied, finish_leased_response,
  get_unsupported, lease, limited, no_upstream, nothing, raised, release_leases, retiring,
  start_raised, streaming,
}
use mcp_mux_2_0_dev.Server.Checks.{
  Authorized, Checked, allows, authorize_request, cannot_name, check_request, denies, is_modern,
  is_sse, is_sse_init, is_streamable, proceed, refuse,
}

-- How the exchanges that a request may come to end: with the upstream service, and with the
-- bridge, which opens a session for a GET and handles a POST in one.
pub record Endings : Type 0 where
  pub proxied : Ending
  -- whether `open_session` returns a stream, and not a refusal
  pub session_streams : Bool
  pub bridged : Ending

-- with both leases
unfoldable pub exchange :
    Surroundings → Endings → Endpoint → Request → ProtocolEra → Held → Gateway → Outcome
unfolding is_sse_init finish_leased_response
exchange env endings endpoint request era held g =
    if is_sse (base endpoint).transport && is_sse_init request
    then finish_leased_response env.now streaming held g
    else if (request.method == "POST")
        && is_streamable (base endpoint).transport
        && is_some (base endpoint).legacy_sse_bridge
        && is_given request.session_id
        && not (is_modern era)
    then finish_leased_response env.now endings.bridged held g
    else finish_leased_response env.now endings.proxied held g

abbrev pub with_upstream :
    Surroundings
    → Endings
    → Endpoint
    → Request
    → ProtocolEra
    → Option LimitLease
    → Gateway
    → Activation × EndpointRuntime
    → Outcome
with_upstream env endings endpoint request era limit g (lease l, runtime) =
    exchange env endings endpoint request era (record { limit = limit; upstream = some l })
      (record g { runtime = runtime })
with_upstream env endings endpoint request era limit g (activation_error status, runtime) =
    closed env.now (no_upstream status) (record { limit = limit; upstream = none })
      (record g { runtime = runtime })
with_upstream env endings endpoint request era limit g (start_raised, runtime) =
    closed env.now raised (record { limit = limit; upstream = none })
      (record g { runtime = runtime })

-- with the limiter's lease
unfoldable pub after_admission :
    Surroundings
    → Endings
    → Endpoint
    → Request
    → ProtocolEra
    → Option LimitLease
    → Gateway
    → Outcome
unfolding is_sse_init finish_leased_response acquire_upstream_lease exchange is_state release_leases
after_admission env endings endpoint request era limit g =
    let held : Held = record { limit = limit; upstream = none } in
    let streamable = is_streamable (base endpoint).transport in
    let bridge = is_some (base endpoint).legacy_sse_bridge in
    if (request.method == "GET") && streamable && not (is_sse_init request)
    then closed env.now get_unsupported held g
    else if (request.method == "GET") && streamable && bridge && is_state g.runtime.state draining
    then closed env.now retiring held g
    else if (request.method == "GET") && streamable && bridge
    then finish_leased_response env.now (if endings.session_streams then streaming else complete)
        held g
    else if (request.method == "POST")
        && streamable
        && is_given request.session_id
        && not (is_modern era)
        && not bridge
    then closed env.now bridge_disabled held g
    else with_upstream env endings endpoint request era limit g
        (acquire_upstream_lease env g.runtime)

abbrev pub untouched : Reply → Gateway → Outcome
untouched reply g = record { reply = reply; held = nothing; state = g }

abbrev pub with_limit :
    Surroundings
    → Endings
    → Endpoint
    → Request
    → ProtocolEra
    → Gateway
    → Acquired × Buckets
    → Outcome
with_limit env endings endpoint request era g (rejected why, bs) =
    untouched (limited why) (record g { buckets = bs })
with_limit env endings endpoint request era g (unlimited, bs) =
    after_admission env endings endpoint request era none (record g { buckets = bs })
with_limit env endings endpoint request era g (leased l, bs) =
    after_admission env endings endpoint request era (some l) (record g { buckets = bs })

abbrev pub with_authorization :
    Surroundings → Endings → Endpoint → Request → ProtocolEra → Gateway → Authorized → Outcome
with_authorization env endings endpoint request era g (cannot_name e) = untouched (bad_names e) g
with_authorization env endings endpoint request era g denies =
    untouched denied (record g { denied_calls = g.denied_calls + 1 })
with_authorization env endings endpoint request era g (allows name) =
    with_limit env endings endpoint request era g (acquire env.now endpoint name g.buckets)

abbrev pub with_checked : Surroundings → Endings → Endpoint → Request → Gateway → Checked → Outcome
with_checked env endings endpoint request g (refuse reply) = untouched reply g
with_checked env endings endpoint request g (proceed parsed era) =
    with_authorization env endings endpoint request era g
      (authorize_request endpoint request parsed)

-- `catch_all_proxy` for a path that is configured
unfoldable pub catch_all_proxy : Surroundings → Endings → Request → Gateway → Outcome
unfolding check_request authorize_request acquire after_admission
catch_all_proxy env endings request g =
    let endpoint = g.runtime.config in
    with_checked env endings endpoint request g (check_request env endpoint request)
