-- ===== src/Protocol/Tests.antt =====
-- Concrete requests through the parser and the validation of protocol.py.
use mcp_mux_2_0_dev.Base.{String, ◌≡◌, refl, ◌↔◌, none, some, [], ◌∷◌, false}
use mcp_mux_2_0_dev.Base.Int.{pos}
use mcp_mux_2_0_dev.Base.Dict.{lookup}
use mcp_mux_2_0_dev.Base.Text.{casefold, strip, all_chars, starts_with}
use mcp_mux_2_0_dev.Json.{str, int, obj, Fields, field, end, Codec, get}
use mcp_mux_2_0_dev.Protocol.{
  ok, err, ParsedRequest, ProtocolRequestError, Headers, header, int_id, modern, parse_payload,
  classify_protocol_era, protocol_version_meta, client_capabilities_meta, required_header,
  validate_ascii_header, invalid_params, no_meta,
}
use mcp_mux_2_0_dev.Protocol.Parse.{Describes, parse_payload-ok_iff}
use mcp_mux_2_0_dev.Protocol.Validate.{
  validate_protocol_request, decode_mcp_header, extract_policy_request_names,
}
use mcp_mux_2_0_dev.Protocol.Validate.Sound.{
  IsEnveloped, validate-IsEnveloped, policy_names-validate,
}

-- a codec that decodes nothing; a plain header value needs none
abbrev no_codec : Codec
no_codec = record {
  decode_utf8 = λ b. none;
  loads_strict = λ s. none;
  loads = λ s. none;
  dumps = λ j. "";
  decode_base64 = λ s. none;
}

abbrev meta : Fields
meta = field protocol_version_meta (str "2026-07-28") (field client_capabilities_meta (obj end) end)

abbrev params : Fields
params = field "name" (str "search") (field "_meta" (obj meta) end)

abbrev payload : Fields
payload =
    field "jsonrpc" (str "2.0") (
      field "id" (int (pos 3))
        (field "method" (str "tools/call") (field "params" (obj params) end)))

abbrev tool_call : ParsedRequest
tool_call = record {
  payload = payload;
  method = "tools/call";
  params = params;
  request_id = some (int_id (pos 3));
}

abbrev sent_headers : Headers
sent_headers =
    ("mcp-protocol-version", "2026-07-28")
    ∷ ("mcp-method", "tools/call")
    ∷ ("mcp-name", "search")
    ∷ []

parse_payload-ok_iff_example :
    (parse_payload (obj payload) ≡ ok tool_call)
    ↔ ((fs : Fields) × (obj payload ≡ obj fs) × Describes fs tool_call)
parse_payload-ok_iff_example = parse_payload-ok_iff (obj payload) tool_call

accepts_tool_call : validate_protocol_request no_codec tool_call sent_headers false ≡ ok modern
unfolding validate_protocol_request classify_protocol_era get required_header header lookup casefold
    validate_ascii_header strip all_chars starts_with
accepts_tool_call = refl

validate-IsEnveloped_example : IsEnveloped no_codec tool_call sent_headers
validate-IsEnveloped_example =
    validate-IsEnveloped no_codec tool_call sent_headers false accepts_tool_call

abbrev bare_call : ParsedRequest
bare_call = record tool_call { params = field "name" (str "search") end }

abbrev meta_error : ProtocolRequestError
meta_error = record {
  code = invalid_params;
  reason = no_meta;
  status_code = 400;
  request_id = some (int_id (pos 3));
}

refuses_bare_call : validate_protocol_request no_codec bare_call sent_headers false ≡ err meta_error
unfolding validate_protocol_request classify_protocol_era get header lookup casefold
refuses_bare_call = refl

policy_names-validate_example :
    (name encoded : String) × (header sent_headers "Mcp-Name" ≡ some encoded)
    × (decode_mcp_header no_codec encoded "Mcp-Name" tool_call.request_id ≡ ok name)
    × (extract_policy_request_names tool_call ≡ ok (some name ∷ []))
unfolding lookup
policy_names-validate_example =
    policy_names-validate no_codec tool_call sent_headers false "name" accepts_tool_call refl
