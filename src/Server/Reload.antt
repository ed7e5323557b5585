-- ===== src/Server/Reload.antt =====
-- server.py: what a configuration reload makes of the registry of runtimes, and when the idle
-- checker retires one.
use mcp_mux_2_0_dev.Base.{
  ℕ, ◌+◌, ◌<◌, String, Option, none, some, List, [], ◌∷◌, true, map, ◌==◌, ◌≡◌, refl, ◌∙◌, ap, sym,
  subst, false, ◌↔◌, ◌⊎◌, inl, inr, arith, eq_iff, Bool-cases,
}
use mcp_mux_2_0_dev.Base.Dict.{Dict, lookup, insert, lookup-insert}
use mcp_mux_2_0_dev.Config.{Endpoint, base, RouterConfig, is_managed}
use mcp_mux_2_0_dev.Runtime.{
  draining, running, EndpointRuntime, unavailable, acquire_lease, from_config,
}
use mcp_mux_2_0_dev.Security.{update}
use mcp_mux_2_0_dev.Supervisor.{is_running, reconcile_restart_policy}
use mcp_mux_2_0_dev.Server.Registry.{
  new_endpoints, publish, published_runtime, apply_configuration, last_endpoint, check_idle,
  drain_and_stop, endpoint_requires_runtime_reset,
}

lookup-update_endpoints :
    (path : String) (d : Dict Endpoint) (endpoints : List Endpoint)
    → lookup path (update d (map (λ (e : Endpoint). ((base e).path, e)) endpoints))
      ≡ last_endpoint path endpoints (lookup path d)
unfolding update last_endpoint
lookup-update_endpoints path d [] = refl
lookup-update_endpoints path d (e ∷ endpoints) =
    lookup-update_endpoints path (insert (base e).path e d) endpoints
    ∙ ap (last_endpoint path endpoints) (lookup-insert (base e).path path e d)

-- the runtime for a path that has an endpoint, if it has one
abbrev pub published :
    (String → ℕ) → ℕ → String → Option EndpointRuntime → Option Endpoint → Option EndpointRuntime
published handles now path current none = none
published handles now path current (some endpoint) =
    some (published_runtime handles now path current endpoint)

lookup-publish :
    (handles : String → ℕ) (now : ℕ) (current : Dict EndpointRuntime) (path : String)
    (endpoints : Dict Endpoint)
    → lookup path (publish handles now current endpoints)
      ≡ published handles now path (lookup path current) (lookup path endpoints)
unfolding publish lookup
lookup-publish handles now current path [] = refl
lookup-publish handles now current path ((p, endpoint) ∷ endpoints) =
    elim (Bool-cases (p == path)) [
      | inl e ↦ rw e (
          ap (λ q. some (published_runtime handles now q (lookup q current) endpoint))
            ((eq_iff p path).0 e))
      | inr e ↦ rw e (lookup-publish handles now current path endpoints)
    ]

-- What a reload gives a path: by the runtime it had, and the endpoint it is to have.
pub data Published (handle now : ℕ)
    : Option EndpointRuntime → Option Endpoint → Option EndpointRuntime → Type 0 where
  -- no endpoint, and no runtime
  withdrawn : {current : Option EndpointRuntime} → Published handle now current none none
  -- the runtime that was there, under the new configuration, its restart policy reconciled
  kept :
      {t : EndpointRuntime} {endpoint : Endpoint}
      → endpoint_requires_runtime_reset t.config endpoint ≡ false
      → Published handle now
          (some t)
          (some endpoint)
          (some (reconcile_restart_policy handle (record t { config = endpoint })))
  -- a fresh one in place of one that the change resets
  replaced :
      {t : EndpointRuntime} {endpoint : Endpoint}
      → endpoint_requires_runtime_reset t.config endpoint ≡ true
      → Published handle now (some t) (some endpoint) (some (from_config endpoint now))
  -- a fresh one for a new path
  added :
      {endpoint : Endpoint}
      → Published handle now none (some endpoint) (some (from_config endpoint now))

published-Published :
    (handles : String → ℕ) (now : ℕ) (path : String) (current : Option EndpointRuntime)
    (endpoint : Option Endpoint)
    → Published (handles path) now current endpoint (published handles now path current endpoint)
published-Published handles now path current none = withdrawn
published-Published handles now path none (some endpoint) = added
published-Published handles now path (some t) (some endpoint) =
    elim (Bool-cases (endpoint_requires_runtime_reset t.config endpoint)) [
      | inl reset ↦ rw reset (replaced reset)
      | inr same ↦ rw same (kept same)
    ]

lookup-apply_configuration :
    (handles : String → ℕ) (now : ℕ) (config : RouterConfig) (current : Dict EndpointRuntime)
    (path : String)
    → lookup path (apply_configuration handles now config current)
      ≡ published handles now path (lookup path current) (last_endpoint path config.endpoints none)
unfolding apply_configuration new_endpoints lookup
lookup-apply_configuration handles now config current path =
    lookup-publish handles now current path (new_endpoints config)
    ∙ ap (published handles now path (lookup path current))
        (lookup-update_endpoints path [] config.endpoints)

-- After a reload a path has a runtime exactly if the configuration has an endpoint for it, the last
-- one it lists. The runtime is the one that was there, under the new configuration and with its
-- restart policy reconciled, if the change needs no reset; and is otherwise a fresh one.
pub apply_configuration-Published :
    (handles : String → ℕ) (now : ℕ) (config : RouterConfig) (current : Dict EndpointRuntime)
    (path : String)
    → Published
        (handles path)
        now
        (lookup path current)
        (last_endpoint path config.endpoints none)
        (lookup path (apply_configuration handles now config current))
apply_configuration-Published handles now config current path =
    subst
      (Published (handles path) now (lookup path current)
        (last_endpoint path config.endpoints none))
      (sym (lookup-apply_configuration handles now config current path))
      (published-Published handles now path (lookup path current)
        (last_endpoint path config.endpoints none))

-- A runtime that a reload has retired holds no process and refuses every lease.
pub drain_and_stop-retires :
    (runtime : EndpointRuntime)
    → (acquire_lease (drain_and_stop draining runtime)
        ≡ unavailable (base runtime.config).path draining)
      × ((drain_and_stop draining runtime).process ≡ none)
unfolding drain_and_stop acquire_lease
drain_and_stop-retires runtime = (refl, refl)

-- The idle checker begins to drain a runtime that is not draining exactly when it is managed,
-- RUNNING with a live process, without leases, and was last active longer ago than its timeout at
-- both readings of the clock.
pub check_idle_iff :
    (current_time locked_time : ℕ) (runtime : EndpointRuntime)
    → ((check_idle current_time locked_time runtime).state ≡ draining) ↔ (
        (runtime.state ≡ draining)
        ⊎ ((is_managed runtime.config ≡ true)
            × (runtime.state ≡ running)
            × (is_running runtime ≡ true)
            × (runtime.active_leases ≡ 0)
            × (runtime.last_completed_activity + (base runtime.config).timeout < current_time)
            × (runtime.last_completed_activity + (base runtime.config).timeout < locked_time)))
unfolding check_idle
check_idle_iff current_time locked_time runtime = ground arith
