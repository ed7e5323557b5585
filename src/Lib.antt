-- ===== src/Lib.antt =====
-- The MCP gateway: what its parts do to their state, and what holds of it.
--
-- A request meets the parts in this order. The observability middleware notes what passes; the
-- security middleware decides who may talk to the gateway and for which principal; the router
-- finds the endpoint's runtime, reads and validates the JSON-RPC body, asks the capability policy,
-- takes a slot from the limiter, starts a managed process if it has to, takes a lease on the
-- runtime, and hands the request to the upstream service or the legacy bridge. Discovery results
-- come back projected by the same policy, streamed events are rewritten one by one, and the leases
-- are given back when the response has ended. The supervisor restarts processes that fail, and a
-- reload of the configuration or the idle checker retires runtimes.
--
-- Files, with the code that each is about:
--   Base            Python's text, dictionaries and lists, and the libraries' names
--   Config          mcp_router/core/config_loader.py: the validated configuration, as records;
--                   Config.Fields, Config.Names, Config.HeaderFields and Config.Models have the
--                   validators of fields, lists, headers and models, Config.Environment has
--                   expand_env_vars,
--                   Config.Watcher load_router_config and ConfigWatcher
--   Json, Protocol  mcp_router/core/protocol.py: Protocol has parse_jsonrpc_request,
--                   classify_protocol_era and the headers; Protocol.Validate has
--                   validate_protocol_request and extract_policy_request_names
--   Policy          mcp_router/core/policy.py: CapabilityPolicy, its authorize and
--                   project_json_text
--   Limits          mcp_router/core/limits.py: RequestLimiter; acquire and LimitLease.release
--   Sse             mcp_router/core/sse.py: reading, rendering and transforming events
--   Runtime         mcp_router/core/runtime.py: EndpointRuntime and UpstreamLease
--   Supervisor      mcp_router/core/process_manager.py: ProcessManager, one function for each
--                   critical section under the runtime's lock; Supervisor.Start has the start of
--                   a process, Supervisor.Loop the exit monitor and the restart loop,
--                   Supervisor.Probe the readiness requests, Supervisor.Readiness the wait for a
--                   started service, Supervisor.Logs its log records and the final cleanup
--   Security        mcp_router/core/security.py: build_upstream_headers and
--                   sanitize_response_headers; Security.Gateway has GatewaySecurityMiddleware
--   Server          mcp_router/server.py: Server has _read_post_body; Server.Leases, Server.Checks
--                   and Server.Dispatch have catch_all_proxy, Server.Registry apply_configuration
--                   and idle_timeout_checker, Server.Transit the headers both ways,
--                   Server.Summary get_summary and get_metrics
--   Exchange        mcp_router/server.py: get_target_url, _proxy_request and _retry_upstream_once;
--                   Exchange.Streams has the generators of streamed responses
--   Observability   mcp_router/core/observability.py: GatewayMetrics, and the variables of the
--                   middleware as a record that events change
--   Redaction       mcp_router/core/redaction.py: redact_known_secrets and StreamingSecretRedactor;
--                   Redaction.Sources has from_router_config
--   Bridge          mcp_router/compat/legacy_sse.py: LegacySSEBridge; Bridge has its state and the
--                   ends of sessions, Bridge.Sessions opening, queue, stream and expiry, Bridge.Post
--                   handle_post, Bridge.Response its process_response, Bridge.Expiry _expiry_loop;
--                   Bridge.Registry has the abstract registry that the operations implement
--   Samples, and the modules whose names end in Tests: concrete inputs
--
-- How the code is read. State is a record that an operation takes and returns; a method that
-- mutates an object returns the new object. What runs under an asyncio lock is one step, and
-- orders of steps are lists of calls or step relations. A raised exception is a value of the
-- result. Times are natural numbers of nanoseconds, and a difference of times is compared after
-- the subtrahend is added to the other side. Sets are lists that are only searched; headers are
-- lists of pairs. casefold is exact on Latin-1 and on the two other characters that fold to an
-- ASCII letter, which is what header names can hold.
--
-- Arguments stand for what is not in the repository's files or is not decided by them: the codecs
-- for JSON, UTF-8 and base64, the parsers of addresses and URLs, the redaction of log texts, the
-- identities of new tasks, how a launch of a process goes, and how the exchange with the upstream
-- service or with the bridge ends. The restart loop runs on fuel, one unit for each round; its
-- theorem says how much is enough. So does the search for a cut in the streaming redactor, with one
-- unit for each candidate, and the wait for readiness, with one unit for each tick of its timeout.
--
-- In the bridge, session, runtime and upstream objects stand in heaps under their identities, and
-- what other tasks do during a wait is a function on the bridge, so that an operation is judged
-- under any interleaving. A put into the full queue of a session, which waits, is the put that
-- happens when there is room, or the timeout.
--
-- Not modelled: the regular expression of redaction.py for assignments in log texts; the lifespan
-- in server.py, and chunks of bytes that it passes on as they are; the SHA-256 version of a
-- policy; the texts of protocol errors, which are data; a cancellation while a start waits for the
-- old restart task, and one of a request of the bridge while it closes an upstream context; and
-- main.py, whose one check is
-- validate_bind_security.
pub mod Base
pub mod Bridge
pub mod Config
pub mod Exchange
pub mod Json
pub mod Limits
pub mod Observability
pub mod Policy
pub mod Protocol
pub mod Redaction
pub mod Runtime
pub mod Samples
pub mod Security
pub mod Server
pub mod Sse
pub mod Supervisor
