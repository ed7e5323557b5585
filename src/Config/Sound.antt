-- ===== src/Config/Sound.antt =====
-- config_loader.py: what holds of a configuration that the validators let through.
use mcp_mux_2_0_dev.Base.{
  ℕ, String, ◌≡◌, refl, subst, ◌⊎◌, inl, inr, Option, none, some, List, [], ◌∷◌, true, false, ◌&&◌,
  ◌||◌, not, leb, All, is_some, arith,
}
use mcp_mux_2_0_dev.Base.Dict.{Dict}
use mcp_mux_2_0_dev.Base.Text.{casefold}
use mcp_mux_2_0_dev.Config.{
  Endpoint, EndpointBase, LegacySseBridgeConfig, ManagedFields, RouterConfig, Transport, base,
  managed_endpoint, remote_endpoint, sse, streamable_http,
}
use mcp_mux_2_0_dev.Config.Fields.{
  ConfigLib, Url, accept, is_loopback_target, is_reserved_route, is_route_name, validate_path,
  validate_http_url, validate_summary,
}
use mcp_mux_2_0_dev.Config.HeaderFields.{
  is_forbidden_inbound, normalize_headers, normalize_inbound_headers,
}
use mcp_mux_2_0_dev.Config.Names.{validate_name_list}
use mcp_mux_2_0_dev.Config.Models.{
  distinct_endpoints, final_transport, finalize_common_fields, finalize_managed_fields,
  is_exclusive, is_streamable_transport, or_host, or_port, validate_base, validate_bridge,
  validate_config, validate_endpoint, validate_endpoints, validate_fields, validate_managed,
  validate_limits, clean_tool_limits, validate_security,
}
use mcp_mux_2_0_dev.Config.Rules.{
  Ensures, accept-some, after, bind_some, if_accepted, map_some-some, returns,
}
use mcp_mux_2_0_dev.Config.Distinct.{AreDistinct, distinct-AreDistinct}
use mcp_mux_2_0_dev.Config.Headers.{
  IsInjectable, normalize_headers-IsInjectable, normalize_inbound_headers-allowed,
  validate_path-routed,
}

-- What holds of the fields that every endpoint has.
pub record IsSound (b : EndpointBase) : Type 0 where
  pub routed : (is_route_name b.path ≡ true) × (is_reserved_route (casefold b.path) ≡ false)
  pub inbound : All (λ name. is_forbidden_inbound (casefold name) ≡ false) b.inbound_headers
  pub injected : (headers : Dict String) → b.headers ≡ some headers → All IsInjectable headers
  pub methods : (b.allowed_methods ≡ none) ⊎ (b.denied_methods ≡ none)
  pub tools : (b.allowed_tools ≡ none) ⊎ (b.denied_tools ≡ none)
  pub resources : (b.allowed_resources ≡ none) ⊎ (b.denied_resources ≡ none)
  pub prompts : (b.allowed_prompts ≡ none) ⊎ (b.denied_prompts ≡ none)
  pub bridge : (b.legacy_sse_bridge ≡ none) ⊎ (b.transport ≡ some streamable_http)
  pub transported : is_some b.transport ≡ true

-- the facts about fields that only the field validators decide
record IsField (b : EndpointBase) : Type 0 where
  routed : (is_route_name b.path ≡ true) × (is_reserved_route (casefold b.path) ≡ false)
  inbound : All (λ name. is_forbidden_inbound (casefold name) ≡ false) b.inbound_headers
  injected : (headers : Dict String) → b.headers ≡ some headers → All IsInjectable headers

validate_fields-IsField :
    (lib : ConfigLib) (b : EndpointBase) → Ensures IsField (validate_fields lib b)
unfolding validate_fields
validate_fields-IsField lib b = after (validate_path b.path) λ path path_ok.
    after (validate_http_url lib b.url) λ url _. after (validate_summary b.summary) λ summary _.
      after (validate_bridge b.legacy_sse_bridge) λ bridge _.
        after (validate_name_list b.allowed_methods) λ m1 _.
          after (validate_name_list b.denied_methods) λ m2 _.
            after (validate_name_list b.allowed_tools) λ t1 _.
              after (validate_name_list b.denied_tools) λ t2 _.
                after (validate_name_list b.allowed_resources) λ r1 _.
                  after (validate_name_list b.denied_resources) λ r2 _.
                    after (validate_name_list b.allowed_prompts) λ p1 _.
                      after (validate_name_list b.denied_prompts) λ p2 _.
                        after (normalize_inbound_headers b.inbound_headers) λ inbound inbound_ok.
                          after (normalize_headers b.headers) λ headers headers_ok.
                            after (validate_limits b.limits) λ limits _.
                              after (clean_tool_limits [] b.tool_limits) λ tool_limits _.
                                if_accepted _ _ (record {
                                  routed = validate_path-routed b.path path_ok;
                                  inbound =
                                      normalize_inbound_headers-allowed b.inbound_headers
                                        inbound_ok;
                                  injected = λ kept found.
                                      normalize_headers-IsInjectable b.headers headers_ok found;
                                })

is_exclusive_lem :
    (allowed denied : Option (List String))
    → is_exclusive allowed denied ≡ true
    → (allowed ≡ none) ⊎ (denied ≡ none)
is_exclusive_lem none denied h = inl refl
is_exclusive_lem (some a) none h = inr refl
is_exclusive_lem (some a) (some d) h = cc

finalize-IsSound :
    (lib : ConfigLib) (b : EndpointBase) {c : EndpointBase}
    → IsField b
    → finalize_common_fields lib b ≡ some c
    → IsSound c
unfolding finalize_common_fields
finalize-IsSound lib b {c} f e =
    let (b', exclusive, e1) = bind_some _ _ e in
    let (transport, chosen, e2) = bind_some (final_transport lib b.url b.transport) _ e1 in
    let (apart, kept) =
      accept-some
        (is_exclusive b.allowed_methods b.denied_methods
          && is_exclusive b.allowed_tools b.denied_tools
          && is_exclusive b.allowed_resources b.denied_resources
          && is_exclusive b.allowed_prompts b.denied_prompts)
        exclusive in
    let (fits, same) =
      accept-some
        ((not (is_some b.legacy_sse_bridge) || is_streamable_transport transport)
          && (not b.allow_headerless_legacy || is_streamable_transport transport))
        e2 in
    subst IsSound same (record {
      routed = f.routed;
      inbound = f.inbound;
      injected = f.injected;
      methods = is_exclusive_lem b.allowed_methods b.denied_methods (ground arith);
      tools = is_exclusive_lem b.allowed_tools b.denied_tools (ground arith);
      resources = is_exclusive_lem b.allowed_resources b.denied_resources (ground arith);
      prompts = is_exclusive_lem b.allowed_prompts b.denied_prompts (ground arith);
      bridge = streamable b.legacy_sse_bridge transport (ground arith);
      transported = refl;
    })
  where
    streamable :
        (bridge : Option LegacySseBridgeConfig) (transport : Transport)
        → (not (is_some bridge) || is_streamable_transport transport) ≡ true
        → (bridge ≡ none) ⊎ (◌≡◌ {A = Option Transport} (some transport) (some streamable_http))
    streamable none transport h = inl refl
    streamable (some config) streamable_http h = inr refl
    streamable (some config) sse h = cc

-- An endpoint that validation lets through has a route name that is not reserved, passes on no
-- inbound header that the gateway or HTTP controls, injects no header that HTTP controls and none
-- that is empty, has for each kind of name an allow list or a deny list but not both, and uses the
-- legacy bridge only with the streamable transport.
pub validate_base-IsSound :
    (lib : ConfigLib) (b : EndpointBase) {c : EndpointBase}
    → validate_base lib b ≡ some c
    → IsSound c
unfolding validate_base
validate_base-IsSound lib b e =
    let (fields, found, e1) = bind_some (validate_fields lib b) _ e in
    finalize-IsSound lib fields ((validate_fields-IsField lib b).returned fields found) e1

-- What holds of the fields that only managed endpoints have.
pub record IsRunnable (lib : ConfigLib) (m : ManagedFields) : Type 0 where
  pub command :
      ((m.argv ≡ none) × (is_some m.unsafe_shell_command ≡ true))
      ⊎ ((is_some m.argv ≡ true) × (m.unsafe_shell_command ≡ none))
  pub probed : (is_some m.readiness.host ≡ true) × (is_some m.readiness.port ≡ true)

one_command :
    (argv : Option (List String)) (command : Option String)
    → ((is_some argv && not (is_some command)) || (not (is_some argv) && is_some command)) ≡ true
    → ((argv ≡ none) × (is_some command ≡ true)) ⊎ ((is_some argv ≡ true) × (command ≡ none))
one_command none none h = cc
one_command none (some c) h = inl (refl, refl)
one_command (some a) none h = inr (refl, refl)
one_command (some a) (some c) h = cc

is_some-or_host : (host : Option String) (target : String) → is_some (or_host host target) ≡ true
is_some-or_host none target = refl
is_some-or_host (some h) target = refl

is_some-or_port :
    (port : Option ℕ) (parsed : Url) {found : Option ℕ}
    → or_port port parsed ≡ some found
    → is_some found ≡ true
is_some-or_port (some p) parsed e = ground arith
is_some-or_port none parsed e =
    let (p, readable, same) = map_some-some _ parsed.port e in ground arith

-- A managed endpoint that validation lets through has exactly one of an argument vector and a shell
-- command, and a host and a port to probe.
pub finalize_managed_fields-IsRunnable :
    (lib : ConfigLib) (b : EndpointBase) (m : ManagedFields) {n : ManagedFields}
    → finalize_managed_fields lib b m ≡ some n
    → IsRunnable lib n
unfolding finalize_managed_fields
finalize_managed_fields-IsRunnable lib b m {n} e = ensured.returned n e
  where
    ensured : Ensures (IsRunnable lib) (finalize_managed_fields lib b m)
    ensured =
        after
          (accept
            ((is_some m.argv && not (is_some m.unsafe_shell_command))
              || (not (is_some m.argv) && is_some m.unsafe_shell_command))
            m)
          λ m' chosen. after (lib.urlsplit b.url) λ parsed _. after parsed.hostname λ host _.
            after (accept (m.allow_non_loopback_target || is_loopback_target lib host) m) λ near _.
              after (or_port m.readiness.port parsed) λ port found.
                returns
                  (record m {
                    readiness = record m.readiness {
                      host = or_host m.readiness.host host;
                      port = port;
                    };
                  })
                  (record {
                    command =
                        one_command m.argv m.unsafe_shell_command
                          (accept-some
                            ((is_some m.argv && not (is_some m.unsafe_shell_command))
                              || (not (is_some m.argv) && is_some m.unsafe_shell_command))
                            chosen).0;
                    probed = (
                      is_some-or_host m.readiness.host host,
                      is_some-or_port m.readiness.port parsed found,
                    );
                  })

validate_endpoint-IsSound :
    (lib : ConfigLib) (e : Endpoint) {f : Endpoint}
    → validate_endpoint lib e ≡ some f
    → IsSound (base f)
unfolding validate_endpoint
validate_endpoint-IsSound lib (remote_endpoint b) {f} h =
    let (c, found, same) = map_some-some remote_endpoint (validate_base lib b) h in
    subst (λ g. IsSound (base g)) same (validate_base-IsSound lib b found)
validate_endpoint-IsSound lib (managed_endpoint b m) {f} h =
    let (c, found, h') = bind_some (validate_base lib b) _ h in
    let (n, managed, same) = map_some-some (managed_endpoint c) (validate_managed lib c m) h' in
    subst (λ g. IsSound (base g)) same (validate_base-IsSound lib b found)

validate_endpoints-IsSound :
    (lib : ConfigLib) (es : List Endpoint) {fs : List Endpoint}
    → validate_endpoints lib es ≡ some fs
    → All (λ f. IsSound (base f)) fs
unfolding validate_endpoints
validate_endpoints-IsSound lib [] {fs} h =
    let same : [] ≡ fs = cc in subst (λ l. All (λ f. IsSound (base f)) l) same tt
validate_endpoints-IsSound lib (e ∷ es) {fs} h =
    let (f, found, h') = bind_some (validate_endpoint lib e) _ h in
    let (rest, later, same) = map_some-some (λ l. f ∷ l) (validate_endpoints lib es) h' in
    subst (λ l. All (λ g. IsSound (base g)) l) same
      (validate_endpoint-IsSound lib e found, validate_endpoints-IsSound lib es later)

-- A configuration that validation lets through has only sound endpoints, no two with one path, a
-- readiness port for each managed one, and no two managed ones with one port.
pub validate_config-IsSound :
    (lib : ConfigLib) (config : RouterConfig) {valid : RouterConfig}
    → validate_config lib config ≡ some valid
    → All (λ e. IsSound (base e)) valid.endpoints × AreDistinct valid.endpoints
unfolding validate_config
validate_config-IsSound lib config {valid} e = ensured.returned valid e
  where
    ensured :
        Ensures
          (λ (v : RouterConfig). All (λ e. IsSound (base e)) v.endpoints × AreDistinct v.endpoints)
          (validate_config lib config)
    ensured = after (validate_endpoints lib config.endpoints) λ endpoints found.
        after (validate_security lib config.security) λ security _. record {
          returned = λ v accepted.
              let (ok, same) =
                accept-some
                  (leb 1024 config.max_request_body_bytes
                    && leb config.max_request_body_bytes 67_108_864
                    && distinct_endpoints [] [] endpoints)
                  accepted in
              subst
                (λ (w : RouterConfig).
                  All (λ e. IsSound (base e)) w.endpoints × AreDistinct w.endpoints)
                same
                (
                  validate_endpoints-IsSound lib config.endpoints found,
                  distinct-AreDistinct [] [] endpoints (ground arith),
                );
        }
