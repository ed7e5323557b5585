-- ===== src/Server/Registry.antt =====
-- mcp_router/server.py: apply_configuration and idle_timeout_checker, which decide what becomes of
-- the runtimes.
use mcp_mux_2_0_dev.Base.{
  ℕ, ◌+◌, String, Option, none, some, List, [], ◌∷◌, Bool, true, false, ◌&&◌, ◌||◌, not, leb, ltb,
  nat_beq, length, map, ◌==◌, if◌then◌else◌,
}
use mcp_mux_2_0_dev.Base.Dict.{Dict, lookup}
use mcp_mux_2_0_dev.Config.{
  Endpoint, remote_endpoint, managed_endpoint, base, EndpointBase, Transport, sse, streamable_http,
  LegacySseBridgeConfig, ManagedFields, ManagedReadinessConfig, RouterConfig, is_managed,
}
use mcp_mux_2_0_dev.Runtime.{
  RuntimeState, draining, running, is_state, EndpointRuntime, from_config, cancel_legacy_tasks,
}
use mcp_mux_2_0_dev.Security.{update}
use mcp_mux_2_0_dev.Supervisor.{
  begin_drain, stop_managed_server, reconcile_restart_policy, is_running,
}

-- `==` on values that may be missing, and on lists and dictionaries of texts
abbrev pub option_beq {ℓ} : {A : Type ℓ} → (A → A → Bool) → Option A → Option A → Bool
option_beq eq none none = true
option_beq eq (some a) (some b) = eq a b
option_beq eq _ _ = false

unfoldable pub list_beq : List String → List String → Bool
list_beq [] [] = true
list_beq (x ∷ xs) (y ∷ ys) = x == y && list_beq xs ys
list_beq _ _ = false

unfoldable pub is_subdict : Dict String → Dict String → Bool
unfolding lookup
is_subdict [] e = true
is_subdict ((k, v) ∷ d) e = elim (lookup k e) [ none ↦ false | some w ↦ w == v ] && is_subdict d e

unfoldable pub dict_beq : Dict String → Dict String → Bool
unfolding is_subdict
dict_beq d e = nat_beq (length d) (length e) && is_subdict d e

abbrev pub bool_beq : Bool → Bool → Bool
bool_beq true b = b
bool_beq false b = not b

abbrev pub transport_beq : Transport → Transport → Bool
transport_beq sse sse = true
transport_beq streamable_http streamable_http = true
transport_beq _ _ = false

abbrev pub bridge_beq : LegacySseBridgeConfig → LegacySseBridgeConfig → Bool
bridge_beq a b =
    nat_beq a.queue_capacity b.queue_capacity
    && nat_beq a.backpressure_timeout b.backpressure_timeout
    && nat_beq a.session_ttl b.session_ttl
    && nat_beq a.max_sessions b.max_sessions

abbrev pub readiness_beq : ManagedReadinessConfig → ManagedReadinessConfig → Bool
readiness_beq a b =
    option_beq (λ x y. x == y) a.host b.host
    && option_beq (λ x y. nat_beq x y) a.port b.port
    && nat_beq a.timeout b.timeout
    && nat_beq a.interval b.interval
    && bool_beq a.legacy_initialize_fallback b.legacy_initialize_fallback

-- the fields that both classes of endpoint are compared by
abbrev pub same_target : EndpointBase → EndpointBase → Bool
same_target a b =
    a.url == b.url
    && option_beq (λ x y. transport_beq x y) a.transport b.transport
    && option_beq (λ x y. bridge_beq x y) a.legacy_sse_bridge b.legacy_sse_bridge

abbrev pub same_process_fields : ManagedFields → ManagedFields → Bool
same_process_fields a b =
    option_beq (λ x y. list_beq x y) a.argv b.argv
    && dict_beq a.env b.env
    && option_beq (λ x y. x == y) a.cwd b.cwd
    && readiness_beq a.readiness b.readiness
    && option_beq (λ x y. x == y) a.unsafe_shell_command b.unsafe_shell_command

-- `_endpoint_requires_runtime_reset`
unfoldable pub endpoint_requires_runtime_reset : Endpoint → Endpoint → Bool
unfolding list_beq dict_beq
endpoint_requires_runtime_reset (remote_endpoint a) (remote_endpoint b) = not (same_target a b)
endpoint_requires_runtime_reset (managed_endpoint a m) (managed_endpoint b n) =
    not (same_target a b && same_process_fields m n)
endpoint_requires_runtime_reset _ _ = true

-- `{endpoint.path: endpoint for endpoint in config.endpoints}`
unfoldable pub new_endpoints : RouterConfig → Dict Endpoint
unfolding update
new_endpoints config = update [] (map (λ (e : Endpoint). ((base e).path, e)) config.endpoints)

-- `path in retired_paths`, for the runtime of a path and the endpoint that is to have it
abbrev pub is_retired : EndpointRuntime → Option Endpoint → Bool
is_retired runtime none = true
is_retired runtime (some candidate) = endpoint_requires_runtime_reset runtime.config candidate

-- `drain_and_stop` once it returns: the leases have ended while it waited.
unfoldable pub drain_and_stop : RuntimeState → EndpointRuntime → EndpointRuntime
unfolding begin_drain cancel_legacy_tasks stop_managed_server
drain_and_stop final_state runtime =
    let idle = (cancel_legacy_tasks (begin_drain runtime)).1 in
    stop_managed_server none final_state (record idle { active_leases = 0 })

-- the runtime that a path gets
abbrev pub next_runtime : ℕ → Option EndpointRuntime → Endpoint → EndpointRuntime
next_runtime now none endpoint = from_config endpoint now
next_runtime now (some current) endpoint =
    if is_retired current (some endpoint)
    then from_config endpoint now
    else record current { config = endpoint }

abbrev pub is_retained : Option EndpointRuntime → Endpoint → Bool
is_retained none endpoint = false
is_retained (some current) endpoint = not (is_retired current (some endpoint))

-- what of a retained runtime is reconciled after publication
abbrev pub published_runtime :
    (String → ℕ) → ℕ → String → Option EndpointRuntime → Endpoint → EndpointRuntime
published_runtime handles now path current endpoint =
    if is_retained current endpoint
    then reconcile_restart_policy (handles path) (next_runtime now current endpoint)
    else next_runtime now current endpoint

unfoldable pub publish :
    (String → ℕ) → ℕ → Dict EndpointRuntime → Dict Endpoint → Dict EndpointRuntime
unfolding lookup endpoint_requires_runtime_reset from_config reconcile_restart_policy
publish handles now current [] = []
publish handles now current ((path, endpoint) ∷ rest) =
    (path, published_runtime handles now path (lookup path current) endpoint)
    ∷ publish handles now current rest

-- `apply_configuration`: the registry that is published, and the retired runtimes. `handles` gives
-- the identities of the restart tasks that reconciliation may create.
unfoldable pub apply_configuration :
    (String → ℕ) → ℕ → RouterConfig → Dict EndpointRuntime → Dict EndpointRuntime
unfolding publish new_endpoints
apply_configuration handles now config current = publish handles now current (new_endpoints config)

unfoldable pub retire : RouterConfig → Dict EndpointRuntime → Dict EndpointRuntime
unfolding new_endpoints drain_and_stop lookup endpoint_requires_runtime_reset
retire config [] = []
retire config ((path, runtime) ∷ rest) =
    let others = retire config rest in
    if is_retired runtime (lookup path (new_endpoints config))
    then (path, drain_and_stop draining runtime) ∷ others
    else others

-- the endpoint that the last entry of a configuration gives a path
unfoldable pub last_endpoint : String → List Endpoint → Option Endpoint → Option Endpoint
last_endpoint path [] old = old
last_endpoint path (e ∷ endpoints) old =
    last_endpoint path endpoints (if (base e).path == path then some e else old)

-- The conditions under which the idle checker leaves a managed runtime alone, `now` being the clock.
abbrev pub is_busy : ℕ → ℕ → EndpointRuntime → Bool
is_busy now timeout runtime =
    not (is_state runtime.state running)
    || ltb 0 runtime.active_leases
    || leb now (runtime.last_completed_activity + timeout)

-- one runtime in a round of `idle_timeout_checker`, up to the wait for its leases; the clock is
-- read before the lock is taken and after
unfoldable pub check_idle : ℕ → ℕ → EndpointRuntime → EndpointRuntime
unfolding is_state is_running
check_idle current_time locked_time runtime =
    if not (is_managed runtime.config)
    then runtime
    else if is_busy current_time (base runtime.config).timeout runtime || not (is_running runtime)
    then runtime
    else if is_busy locked_time (base runtime.config).timeout runtime
    then runtime
    else record runtime { state = draining }
