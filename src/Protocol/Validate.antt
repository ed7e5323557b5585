-- ===== src/Protocol/Validate.antt =====
-- mcp_router/core/protocol.py: validate_protocol_request, and the names that routing headers and
-- endpoint policy are about.
pub mod Sound
use mcp_mux_2_0_dev.Base.{
  ℕ, ◌-◌, String, Option, none, some, List, [], ◌∷◌, Bool, true, false, ◌&&◌, ◌==◌, is_some,
  if◌then◌else◌,
}
use mcp_mux_2_0_dev.Base.Dict.{Dict, lookup}
use mcp_mux_2_0_dev.Base.Text.{str_len, str_drop, str_take, starts_with, ends_with, is_ascii}
use mcp_mux_2_0_dev.Json.{Json, str, arr, obj, Items, nil, cons, Fields, get, name_of, Codec}
use mcp_mux_2_0_dev.Protocol.{
  Result, ok, err, uncaught_value_error, base64_not_ascii, ◌>>=◌, ◌>>◌, fail, require, or_fail,
  ParsedRequest, RequestId, Headers, ProtocolEra, modern, legacy, header_mismatch,
  unsupported_protocol_version, invalid_params, no_meta, no_body_version, no_capabilities,
  value_mismatch, unsupported_version, no_name, bad_base64, bad_subscriptions, bad_subscription_uri,
  as_object, classify_protocol_era, required_header, validate_ascii_header, modern_protocol_version,
  protocol_version_meta, client_capabilities_meta,
}

-- `_NAMED_METHOD_FIELDS`
abbrev pub named_method_fields : Dict String
named_method_fields =
    ("tools/call", "name") ∷ ("prompts/get", "name") ∷ ("resources/read", "uri") ∷ []

-- `_POLICY_NAMED_METHOD_FIELDS`
abbrev pub policy_named_method_fields : Dict String
policy_named_method_fields =
    ("tools/call", "name")
    ∷ ("prompts/get", "name")
    ∷ ("resources/read", "uri")
    ∷ ("resources/subscribe", "uri")
    ∷ ("resources/unsubscribe", "uri")
    ∷ []

-- the name that stands in a parameter field, where the method has one
abbrev pub name_at : Fields → Option String → Option String
name_at params none = none
name_at params (some name_field) = name_of (get name_field params)

unfoldable pub extract_request_name : ParsedRequest → Option String
extract_request_name request = name_at request.params (lookup request.method named_method_fields)

-- `base64.b64decode` raises a plain `ValueError` for a text that is not ASCII: it is not caught here,
-- and the server answers with status 500.
unfoldable pub decode_encoded : Codec → String → String → Option RequestId → Result String
unfolding is_ascii
decode_encoded codec encoded name id =
    if is_ascii encoded
    then or_fail (codec.decode_base64 encoded) header_mismatch (bad_base64 name) id
    else err (record {
      code = uncaught_value_error;
      reason = base64_not_ascii name;
      status_code = 500;
      request_id = id;
    })

-- `_decode_mcp_header`
unfoldable pub decode_mcp_header : Codec → String → String → Option RequestId → Result String
unfolding decode_encoded
decode_mcp_header codec value name id =
    if starts_with value "=?base64?" && ends_with value "?="
    then decode_encoded codec (str_drop 9 (str_take (str_len value - 2) value)) name id
    else do validate_ascii_header value name id; ok value

abbrev pub require_equal : String → String → String → Option RequestId → Result (Unit {0})
require_equal name sent held id =
    require (sent == held) header_mismatch (value_mismatch name sent held) id

-- the block under `if request.method in _NAMED_METHOD_FIELDS`
unfoldable pub validate_name :
    Codec → ParsedRequest → Headers → Option String → Option String → Result (Unit {0})
validate_name codec request headers none body_name = ok tt
validate_name codec request headers (some name_field) body_name = do
  body_name ← or_fail body_name invalid_params (no_name name_field) request.request_id
  encoded ← required_header headers "Mcp-Name" request.request_id
  decoded ← decode_mcp_header codec encoded "Mcp-Name" request.request_id
  require_equal "Mcp-Name" decoded body_name request.request_id

-- everything after `if era is ProtocolEra.LEGACY: return era`
unfoldable pub validate_modern : Codec → ParsedRequest → Headers → Result ProtocolEra
unfolding extract_request_name validate_name decode_mcp_header
validate_modern codec request headers = do
  let id = request.request_id
  meta ← or_fail (as_object (get "_meta" request.params)) invalid_params no_meta id
  body_version ←
      or_fail (name_of (get protocol_version_meta meta)) invalid_params no_body_version id
  capabilities ←
      or_fail (as_object (get client_capabilities_meta meta)) invalid_params no_capabilities id
  protocol_header ← required_header headers "MCP-Protocol-Version" id
  validate_ascii_header protocol_header "MCP-Protocol-Version" id
  require_equal "MCP-Protocol-Version" protocol_header body_version id
  require (body_version == modern_protocol_version) unsupported_protocol_version
      (unsupported_version body_version) id
  method_header ← required_header headers "Mcp-Method" id
  validate_ascii_header method_header "Mcp-Method" id
  require_equal "Mcp-Method" method_header request.method id
  validate_name codec request headers (lookup request.method named_method_fields)
      (extract_request_name request)
  ok modern

abbrev pub validate_era : Codec → ParsedRequest → Headers → ProtocolEra → Result ProtocolEra
validate_era codec request headers legacy = ok legacy
validate_era codec request headers modern = validate_modern codec request headers

unfoldable pub validate_protocol_request :
    Codec → ParsedRequest → Headers → Bool → Result ProtocolEra
unfolding validate_modern
validate_protocol_request codec request headers allow_headerless_legacy =
    validate_era codec request headers
      (classify_protocol_era request headers allow_headerless_legacy)

-- the loop over `raw_uris`
unfoldable pub subscription_uris : Option RequestId → Items → Result (List (Option String))
subscription_uris id nil = ok []
subscription_uris id (cons raw_uri raw_uris) = do
  uri ← or_fail (name_of (some raw_uri)) invalid_params bad_subscription_uri id
  uris ← subscription_uris id raw_uris
  ok (some uri ∷ uris)

abbrev pub listen_names : Option RequestId → Option Json → Result (List (Option String))
listen_names id none = ok []
listen_names id (some Json.null) = ok []
listen_names id (some (arr raw_uris)) = subscription_uris id raw_uris
listen_names id (some _) = fail invalid_params bad_subscriptions id

abbrev pub notification_names : Option RequestId → Option Fields → Result (List (Option String))
notification_names id none = ok []
notification_names id (some notifications) =
    listen_names id (get "resourceSubscriptions" notifications)

abbrev pub policy_names : Fields → Option String → List (Option String)
policy_names params none = none ∷ []
policy_names params (some name_field) = name_of (get name_field params) ∷ []

unfoldable pub extract_policy_request_names : ParsedRequest → Result (List (Option String))
unfolding subscription_uris
extract_policy_request_names request =
    if request.method == "subscriptions/listen"
    then notification_names request.request_id (as_object (get "notifications" request.params))
    else ok (policy_names request.params (lookup request.method policy_named_method_fields))
