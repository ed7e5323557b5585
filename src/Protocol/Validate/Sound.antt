-- ===== src/Protocol/Validate/Sound.antt =====
-- What validate_protocol_request of protocol.py guarantees of a request that it lets through as
-- modern, and of the errors that it raises.
use mcp_mux_2_0_dev.Base.{
  String, ◌≡◌, ◌⊎◌, refl, ◌∙◌, ap, Option, none, some, [], ◌∷◌, Bool, false, Bool-cases, inl, inr,
  ◌==◌, eq_iff, arith,
}
use mcp_mux_2_0_dev.Base.Dict.{lookup}
use mcp_mux_2_0_dev.Base.Text.{is_ascii}
use mcp_mux_2_0_dev.Json.{Fields, get, name_of, Codec}
use mcp_mux_2_0_dev.Protocol.{
  ok, err, uncaught_value_error, ParsedRequest, ProtocolRequestError, Headers, ProtocolEra, modern,
  legacy, as_object, header, validate_ascii_header, modern_protocol_version, protocol_version_meta,
  client_capabilities_meta,
}
use mcp_mux_2_0_dev.Protocol.Results.{
  or_fail-bind, require-bind, required_header-bind, bind-eq-ok, Tagged, Tagged-err, tagged_rules,
  require-eq-ok, Tagged-ok, Tagged-if, Tagged-or_fail,
}
use mcp_mux_2_0_dev.Protocol.Validate.{
  named_method_fields, decode_encoded, decode_mcp_header, validate_name, validate_modern,
  validate_era, validate_protocol_request, extract_request_name, name_at,
  extract_policy_request_names, policy_named_method_fields,
}

-- the routing name of a named method: the decoded header and the parameter agree
pub record NameAgrees (codec : Codec) (request : ParsedRequest) (headers : Headers) (field : String)
    : Type 0 where
  pub name : String
  pub encoded : String
  pub name_header : header headers "Mcp-Name" ≡ some encoded
  pub decoded : decode_mcp_header codec encoded "Mcp-Name" request.request_id ≡ ok name
  pub name_param : name_of (get field request.params) ≡ some name

-- the modern envelope: metadata in the body, and headers that agree with the body
pub record IsEnveloped (codec : Codec) (request : ParsedRequest) (headers : Headers) : Type 0 where
  pub meta : Fields
  pub meta_param : as_object (get "_meta" request.params) ≡ some meta
  pub body_version : name_of (get protocol_version_meta meta) ≡ some modern_protocol_version
  pub capabilities : Fields
  pub capabilities_meta : as_object (get client_capabilities_meta meta) ≡ some capabilities
  pub version_header : header headers "MCP-Protocol-Version" ≡ some modern_protocol_version
  pub method_header : header headers "Mcp-Method" ≡ some request.method
  pub named :
      (field : String)
      → lookup request.method named_method_fields ≡ some field
      → NameAgrees codec request headers field

policy_field :
    (method : String) {field : String}
    → lookup method named_method_fields ≡ some field
    → (lookup method policy_named_method_fields ≡ some field)
      × ((method == "subscriptions/listen") ≡ false)
unfolding lookup
policy_field method found = elim (Bool-cases (method == "subscriptions/listen")) [
  | inl listen ↦ cc (rw ((eq_iff method "subscriptions/listen").0 listen) at found)
  | inr other ↦ (ground arith, other)
]

names_at_field :
    (request : ParsedRequest) (field : String)
    → lookup request.method named_method_fields ≡ some field
    → {name : String} → name_of (get field request.params) ≡ some name
    → extract_policy_request_names request ≡ ok (some name ∷ [])
unfolding extract_policy_request_names
names_at_field request field found at_field =
    let (listed, other) = policy_field request.method found in rw (other, listed, at_field)

module _ (codec : Codec) (request : ParsedRequest) (headers : Headers) where
  validate_name-NameAgrees :
      (field : String)
      → validate_name codec request headers (some field) (name_of (get field request.params))
        ≡ ok tt
      → NameAgrees codec request headers field
  unfolding validate_name
  validate_name-NameAgrees field h =
      or_fail-bind (name_of (get field request.params)) _ _ _ _ h λ name at_field h₁.
        required_header-bind headers "Mcp-Name" request.request_id _ h₁ λ encoded at_header h₂.
          bind-eq-ok (decode_mcp_header codec encoded "Mcp-Name" request.request_id) _ h₂
            λ decoded decodes h₃. record {
              name = name;
              encoded = encoded;
              name_header = at_header;
              decoded = decodes ∙ ap ok ((eq_iff decoded name).0 (require-eq-ok _ _ _ _ h₃));
              name_param = at_field;
            }

  named-NameAgrees :
      (fields : Option String) (field : String)
      → validate_name codec request headers fields (name_at request.params fields) ≡ ok tt
      → fields ≡ some field
      → NameAgrees codec request headers field
  named-NameAgrees fields field h found = validate_name-NameAgrees field (rw found at h)

  validate_modern-IsEnveloped :
      {era : ProtocolEra}
      → validate_modern codec request headers ≡ ok era
      → IsEnveloped codec request headers
  unfolding validate_modern extract_request_name
  validate_modern-IsEnveloped h =
      or_fail-bind (as_object (get "_meta" request.params)) _ _ _ _ h λ meta at_meta h₁.
        or_fail-bind (name_of (get protocol_version_meta meta)) _ _ _ _ h₁ λ version at_version h₂.
          or_fail-bind (as_object (get client_capabilities_meta meta)) _ _ _ _ h₂ λ caps at_caps h₃.
            required_header-bind headers "MCP-Protocol-Version" request.request_id _ h₃
              λ sent at_sent h₄.
                bind-eq-ok (validate_ascii_header sent "MCP-Protocol-Version" request.request_id) _
                  h₄
                  λ _ _ h₅. require-bind (sent == version) _ _ _ _ h₅ λ same h₆.
                    require-bind (version == modern_protocol_version) _ _ _ _ h₆ λ supported h₇.
                      required_header-bind headers "Mcp-Method" request.request_id _ h₇
                        λ method at_method h₈.
                          bind-eq-ok (validate_ascii_header method "Mcp-Method" request.request_id)
                            _ h₈
                            λ _ _ h₉.
                              require-bind (method == request.method) _ _ _ _ h₉ λ same_method h₁₀.
                                bind-eq-ok (validate_name codec request headers _ _) _ h₁₀
                                  λ _ checked _.
                                    let current =
                                      (eq_iff version modern_protocol_version).0 supported in
                                    let same_version = (eq_iff sent version).0 same in
                                    record {
                                      meta = meta;
                                      meta_param = at_meta;
                                      body_version = at_version ∙ ap some current;
                                      capabilities = caps;
                                      capabilities_meta = at_caps;
                                      version_header = at_sent ∙ ap some (same_version ∙ current);
                                      method_header =
                                          at_method
                                          ∙ ap some ((eq_iff method request.method).0 same_method);
                                      named = λ field found. named-NameAgrees _ field checked found;
                                    }

  validate_era-IsEnveloped :
      (era : ProtocolEra)
      → validate_era codec request headers era ≡ ok modern
      → IsEnveloped codec request headers
  validate_era-IsEnveloped legacy h = cc
  validate_era-IsEnveloped modern h = validate_modern-IsEnveloped h

  -- A request that validation accepts as modern carries the modern metadata in its body, its
  -- version and method headers repeat the body's values, and for a method that names a capability
  -- the decoded `Mcp-Name` header is the name in the parameters.
  pub validate-IsEnveloped :
      (allow_headerless_legacy : Bool)
      → validate_protocol_request codec request headers allow_headerless_legacy ≡ ok modern
      → IsEnveloped codec request headers
  unfolding validate_protocol_request
  validate-IsEnveloped allow h = validate_era-IsEnveloped _ h

  Tagged-decode_encoded :
      (encoded name : String)
      → Tagged request.request_id (decode_encoded codec encoded name request.request_id)
  unfolding decode_encoded
  Tagged-decode_encoded encoded name =
      Tagged-if (is_ascii encoded) _ _ (Tagged-or_fail _ _ _)
        (record { answers = (refl, inr refl) })

  Tagged-decode_mcp_header :
      (value name : String)
      → Tagged request.request_id (decode_mcp_header codec value name request.request_id)
  unfolding decode_mcp_header
  Tagged-decode_mcp_header value name = search (tagged_rules, Tagged-decode_encoded)

  Tagged-validate_name :
      (fields name : Option String)
      → Tagged request.request_id (validate_name codec request headers fields name)
  unfolding validate_name
  Tagged-validate_name none name = search tagged_rules
  Tagged-validate_name (some field) name = search (tagged_rules, Tagged-decode_mcp_header)

  Tagged-validate_modern : Tagged request.request_id (validate_modern codec request headers)
  unfolding validate_modern
  Tagged-validate_modern = search (tagged_rules, Tagged-validate_name) depth 30

  Tagged-validate_era :
      (era : ProtocolEra) → Tagged request.request_id (validate_era codec request headers era)
  Tagged-validate_era legacy = Tagged-ok legacy
  Tagged-validate_era modern = Tagged-validate_modern

  -- Whatever validation refuses, the error answers the id of the request and has status 400, or is
  -- one that nothing catches.
  pub validate-err :
      (allow_headerless_legacy : Bool) (e : ProtocolRequestError)
      → validate_protocol_request codec request headers allow_headerless_legacy ≡ err e
      → (e.request_id ≡ request.request_id)
        × ((e.status_code ≡ 400) ⊎ (e.code ≡ uncaught_value_error))
  unfolding validate_protocol_request
  validate-err allow e h = Tagged-err _ e (Tagged-validate_era _) h

  -- Once a request has passed as modern, the names that endpoint policy authorises for a method
  -- that names a capability are the single decoded `Mcp-Name` header: what intermediaries route on
  -- is what policy decides on.
  pub policy_names-validate :
      (allow_headerless_legacy : Bool) (field : String)
      → validate_protocol_request codec request headers allow_headerless_legacy ≡ ok modern
      → lookup request.method named_method_fields ≡ some field
      → (name encoded : String) × (header headers "Mcp-Name" ≡ some encoded)
        × (decode_mcp_header codec encoded "Mcp-Name" request.request_id ≡ ok name)
        × (extract_policy_request_names request ≡ ok (some name ∷ []))
  policy_names-validate allow field h found =
      let agrees = (validate-IsEnveloped allow h).named field found in
      (agrees.name, agrees.encoded, agrees.name_header, agrees.decoded, names agrees.name_param)
    where
      names :
          {name : String}
          → name_of (get field request.params) ≡ some name
          → extract_policy_request_names request ≡ ok (some name ∷ [])
      names at_field = names_at_field request field found at_field
