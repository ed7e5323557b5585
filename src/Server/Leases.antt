-- ===== src/Server/Leases.antt =====
-- mcp_router/server.py: the leases that a request takes and gives back on its way through
-- catch_all_proxy. How a process start goes is an argument.
use mcp_mux_2_0_dev.Base.{ℕ, String, Option, none, some, List, Bool, ◌&&◌, ◌||◌, not, if◌then◌else◌}
use mcp_mux_2_0_dev.Config.{is_managed}
use mcp_mux_2_0_dev.Json.{Codec}
use mcp_mux_2_0_dev.Limits.{Buckets, LimitLease, LimitRejection, release}
use mcp_mux_2_0_dev.Protocol.{Headers, ProtocolRequestError}
use mcp_mux_2_0_dev.Runtime
use mcp_mux_2_0_dev.Runtime.{
  EndpointRuntime, UpstreamLease, LeaseResult, unavailable, granted, acquire_lease, is_state,
  running, draining, failed,
}
use mcp_mux_2_0_dev.Server.{BodyRefusal}
use mcp_mux_2_0_dev.Supervisor.Start.{
  NewTasks, Launch, StartResult, url, was_cancelled, not_managed, start_managed_server,
}
use mcp_mux_2_0_dev.Supervisor.{is_running}

pub record Request : Type 0 where
  pub method : String
  pub subpath : Option String
  pub headers : Headers
  pub session_id : Option String
  pub chunks : List (List ℕ)
  pub principal : String

-- what the request meets: the router's settings, the clock, and the world outside
pub record Surroundings : Type 0 where
  pub codec : Codec
  pub max_request_body_bytes : ℕ
  pub now : ℕ
  pub accepting_work : Bool
  -- `_running`
  pub is_up : Bool
  pub redact : String → String
  pub tasks : NewTasks
  pub launch : Launch

-- The state of the router that one endpoint's requests change.
pub record Gateway : Type 0 where
  pub buckets : Buckets
  pub runtime : EndpointRuntime
  pub denied_calls : ℕ

pub record Held : Type 0 where
  pub limit : Option LimitLease
  pub upstream : Option UpstreamLease

pub data Reply : Type 0 where
  no_subpaths needs_streamable stateless post_only : Reply
  refused_body : BodyRefusal → Reply
  bad_names : ProtocolRequestError → Reply
  denied : Reply
  limited : LimitRejection → Reply
  get_unsupported retiring bridge_disabled : Reply
  -- no lease upstream: the status
  no_upstream : ℕ → Reply
  -- a complete response, a response that streams on, and an exception
  answered streamed raised : Reply

-- The reply, the leases that its response still owns, and the state.
pub record Outcome : Type 0 where
  pub reply : Reply
  pub held : Held
  pub state : Gateway

abbrev pub nothing : Held
nothing = record { limit = none; upstream = none }

abbrev pub release_limit : Option LimitLease → Buckets → Buckets
release_limit none bs = bs
release_limit (some lease) bs = (release lease bs).1

abbrev pub release_upstream : ℕ → Option UpstreamLease → EndpointRuntime → EndpointRuntime
release_upstream now none runtime = runtime
release_upstream now (some lease) runtime = (Runtime.release now lease runtime).1

-- `_release_leases`
unfoldable pub release_leases : ℕ → Held → Gateway → Gateway
unfolding release Runtime.release
release_leases now held g = record g {
  buckets = release_limit held.limit g.buckets;
  runtime = release_upstream now held.upstream g.runtime;
}

-- What a last step returns: a complete response, a streaming one, or an exception.
pub data Ending : Type 0 where
  complete streaming raising : Ending

-- `_finish_leased_response` around a last step, with the handler of exceptions that gives the
-- leases back. A bridge that takes the leases over is a streaming ending.
unfoldable pub finish_leased_response : ℕ → Ending → Held → Gateway → Outcome
unfolding release_leases
finish_leased_response now complete held g = record {
  reply = answered;
  held = nothing;
  state = release_leases now held g;
}
finish_leased_response now streaming held g = record { reply = streamed; held = held; state = g }
finish_leased_response now raising held g = record {
  reply = raised;
  held = nothing;
  state = release_leases now held g;
}

-- a reply after which every lease is given back
abbrev pub closed : ℕ → Reply → Held → Gateway → Outcome
closed now reply held g = record {
  reply = reply;
  held = nothing;
  state = release_leases now held g;
}

pub data Activation : Type 0 where
  lease : UpstreamLease → Activation
  activation_error : ℕ → Activation
  start_raised : Activation

abbrev pub lease_or_error : EndpointRuntime → LeaseResult → Activation × EndpointRuntime
lease_or_error old (granted l runtime) = (lease l, runtime)
lease_or_error old (unavailable path state) = (activation_error 503, old)

abbrev pub after_activation : StartResult × EndpointRuntime → Activation × EndpointRuntime
after_activation (url u, runtime) = lease_or_error runtime (acquire_lease runtime)
after_activation (was_cancelled, runtime) = (start_raised, runtime)
after_activation (not_managed, runtime) = (start_raised, runtime)
after_activation (_, runtime) = (activation_error 500, runtime)

-- `_acquire_upstream_lease`
unfoldable pub acquire_upstream_lease :
    Surroundings → EndpointRuntime → Activation × EndpointRuntime
unfolding acquire_lease start_managed_server is_running is_state
acquire_upstream_lease env runtime =
    if not env.accepting_work && env.is_up
    then (activation_error 503, runtime)
    else if not (is_managed runtime.config)
    then lease_or_error runtime (acquire_lease runtime)
    else if is_state runtime.state draining || is_state runtime.state failed
    then (activation_error 503, runtime)
    else if is_state runtime.state running && not (is_running runtime)
    then (activation_error 503, runtime)
    else if is_state runtime.state running
    then lease_or_error runtime (acquire_lease runtime)
    else after_activation (start_managed_server env.redact env.tasks env.launch runtime)
