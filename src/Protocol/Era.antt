-- ===== src/Protocol/Era.antt =====
-- classify_protocol_era of protocol.py against what its comments promise: what counts as evidence
-- for either protocol, and which evidence wins.
use mcp_mux_2_0_dev.Base.{
  String, ◌≡◌, refl, ◌↔◌, ◌⊎◌, Option, none, some, Bool, true, false, arith, is_some, eq_iff,
}
use mcp_mux_2_0_dev.Json.{get}
use mcp_mux_2_0_dev.Protocol.{
  ParsedRequest, Headers, header, modern, legacy, classify_protocol_era, as_object, as_text,
  has_modern_meta, is_member, is_value, modern_protocol_version, legacy_protocol_versions,
}

is_value_iff : (o : Option String) (x : String) → (is_value o x ≡ true) ↔ (o ≡ some x)
is_value_iff none x = ground arith
is_value_iff (some y) x = ground (arith, eq_iff y x)

is_some-eq-false : (o : Option String) → is_some o ≡ false → o ≡ none
is_some-eq-false none h = refl
is_some-eq-false (some x) h = cc

module _ (request : ParsedRequest) (headers : Headers) where
  abbrev pub version_header : Option String
  version_header = header headers "MCP-Protocol-Version"

  abbrev pub method_header : Option String
  method_header = header headers "Mcp-Method"

  -- a modern-only metadata field in the body, or the modern version in the header
  abbrev pub ModernEvidence : Type 0
  ModernEvidence =
      (has_modern_meta (as_object (get "_meta" request.params)) ≡ true)
      ⊎ (version_header ≡ some modern_protocol_version)

  -- a published legacy version in the header
  abbrev pub LegacyHeader : Type 0
  LegacyHeader = is_member version_header legacy_protocol_versions ≡ true

  -- an `initialize` request with no version header that proposes a legacy version
  abbrev pub LegacyInitialize : Type 0
  LegacyInitialize =
      (version_header ≡ none)
      × (request.method ≡ "initialize")
      × (is_member (as_text (get "protocolVersion" request.params)) legacy_protocol_versions ≡ true)

  -- the older envelope: a routing method that agrees with the body, and no version header
  abbrev pub HeaderlessEnvelope : Type 0
  HeaderlessEnvelope = (version_header ≡ none) × (method_header ≡ some request.method)

  abbrev pub NoRoutingHeaders : Type 0
  NoRoutingHeaders = (method_header ≡ none) × (header headers "Mcp-Name" ≡ none)

  -- Modern evidence makes a request modern, whatever other headers it carries and whether or not
  -- the endpoint accepts headerless legacy traffic.
  pub classify-modern :
      (allow_headerless_legacy : Bool)
      → ModernEvidence
      → classify_protocol_era request headers allow_headerless_legacy ≡ modern
  unfolding classify_protocol_era
  classify-modern allow evidence =
      ground (arith, is_value_iff version_header modern_protocol_version)

  -- A request is legacy exactly when it has no modern evidence and there is a reason to call it
  -- legacy: a legacy version in the header, a legacy `initialize`, a headerless envelope on an
  -- endpoint that accepts those, or no routing headers at all.
  pub classify-legacy_iff :
      (allow_headerless_legacy : Bool)
      → (classify_protocol_era request headers allow_headerless_legacy ≡ legacy) ↔ (
          (¬ ModernEvidence)
          × (LegacyHeader
              ⊎ (LegacyInitialize
                  ⊎ (((allow_headerless_legacy ≡ true) × HeaderlessEnvelope) ⊎ NoRoutingHeaders))))
  unfolding classify_protocol_era
  classify-legacy_iff allow = ground (
    arith,
    is_value_iff version_header modern_protocol_version,
    is_value_iff method_header request.method,
    eq_iff request.method "initialize",
    is_some-eq-false version_header,
    is_some-eq-false method_header,
    is_some-eq-false (header headers "Mcp-Name"),
  )
