-- ===== src/Protocol.antt =====
-- mcp_router/core/protocol.py: parsing a JSON-RPC request, telling the modern protocol from the
-- legacy one, and validating the modern envelope. A ProtocolRequestError carries its reason as
-- data in place of the formatted message.
pub mod Results
pub mod Era
pub mod Parse
pub mod Validate
mod Tests
use Prim.Native.Char.{Char, code}
use mcp_mux_2_0_dev.Base.{
  ℕ, String, Option, none, some, List, [], ◌∷◌, Bool, true, false, ◌&&◌, ◌||◌, not, ◌==◌, leb,
  nat_beq, elem, is_some, any, if◌then◌else◌,
}
use mcp_mux_2_0_dev.Base.Int.{ℤ}
use mcp_mux_2_0_dev.Base.Dict.{Dict, lookup}
use mcp_mux_2_0_dev.Base.Text.{casefold, strip, all_chars, starts_with, is_empty, remove_prefix}
use mcp_mux_2_0_dev.Json.{
  Json, null, bool, int, float, str, arr, obj, Items, nil, cons, Fields, get, name_of, Codec,
}

abbrev pub modern_protocol_version : String
modern_protocol_version = "2026-07-28"

abbrev pub legacy_protocol_versions : List String
legacy_protocol_versions = "2024-11-05" ∷ "2025-03-26" ∷ "2025-06-18" ∷ "2025-11-25" ∷ []

abbrev pub protocol_version_meta : String
protocol_version_meta = "io.modelcontextprotocol/protocolVersion"

abbrev pub client_capabilities_meta : String
client_capabilities_meta = "io.modelcontextprotocol/clientCapabilities"

abbrev pub client_info_meta : String
client_info_meta = "io.modelcontextprotocol/clientInfo"

pub data ErrorCode : Type 0 where
  header_mismatch unsupported_protocol_version parse_error invalid_request invalid_params :
      ErrorCode
  -- no ProtocolRequestError, but a `ValueError` that nothing catches
  uncaught_value_error : ErrorCode

pub data RequestId : Type 0 where
  text_id : String → RequestId
  int_id : ℤ → RequestId

-- what the message of an error says
pub data Reason : Type 0 where
  not_utf8 not_json is_batch not_object bad_id bad_version_tag no_method bad_params : Reason
  no_meta no_body_version no_capabilities : Reason
  missing_header invalid_header bad_base64 base64_not_ascii : String → Reason
  value_mismatch : String → String → String → Reason
  unsupported_version : String → Reason
  no_name : String → Reason
  bad_subscriptions bad_subscription_uri : Reason

pub record ProtocolRequestError : Type 0 where
  pub code : ErrorCode
  pub reason : Reason
  pub status_code : ℕ
  pub request_id : Option RequestId

pub data Result {ℓ} (A : Type ℓ) : Type ℓ where
  ok : A → Result A
  err : ProtocolRequestError → Result A

-- An error passes everything that follows it by, as a raised exception does.
infixl 5 ◌>>=◌ ◌>>◌
abbrev pub ◌>>=◌ {κ ℓ} :
    {Before : Type κ} {After : Type ℓ} → Result Before → (Before → Result After) → Result After
err raised >>= next = err raised
ok value >>= next = next value

-- a check that has no value
abbrev pub ◌>>◌ {ℓ} : {After : Type ℓ} → Result (Unit {0}) → Result After → Result After
checked >> rest = checked >>= λ unit. rest

-- `raise ProtocolRequestError(code, ..., request_id=id)`
abbrev pub fail {ℓ} : {A : Type ℓ} → ErrorCode → Reason → Option RequestId → Result A
fail c r id = err (record { code = c; reason = r; status_code = 400; request_id = id })

abbrev pub require : Bool → ErrorCode → Reason → Option RequestId → Result (Unit {0})
require true c r id = ok tt
require false c r id = fail c r id

pub record ParsedRequest : Type 0 where
  pub payload : Fields
  pub method : String
  pub params : Fields
  pub request_id : Option RequestId

-- `_request_id`
unfoldable pub request_id_of : Json → Result RequestId
request_id_of (str s) = ok (text_id s)
request_id_of (int n) = ok (int_id n)
request_id_of _ = fail invalid_request bad_id none

abbrev pub some_id : RequestId → Result (Option RequestId)
some_id id = ok (some id)

-- `_request_id(payload.get("id")) if "id" in payload else None`
abbrev pub optional_id : Option Json → Result (Option RequestId)
optional_id none = ok none
optional_id (some v) = request_id_of v >>= some_id

abbrev pub is_text : String → Option Json → Bool
is_text expected (some (str s)) = s == expected
is_text expected _ = false

abbrev pub method_of : Option RequestId → Option String → Result String
method_of id (some m) = ok m
method_of id none = fail invalid_request no_method id

-- `payload.get("params", {})`
abbrev pub params_of : Option RequestId → Option Json → Result Fields
params_of id none = ok Fields.end
params_of id (some (obj fs)) = ok fs
params_of id (some _) = fail invalid_params bad_params id

unfoldable pub parse_object : Fields → Result ParsedRequest
unfolding request_id_of
parse_object payload = do
  id ← optional_id (get "id" payload)
  require (is_text "2.0" (get "jsonrpc" payload)) invalid_request bad_version_tag id
  method ← method_of id (name_of (get "method" payload))
  params ← params_of id (get "params" payload)
  ok (record { payload = payload; method = method; params = params; request_id = id })

unfoldable pub parse_payload : Json → Result ParsedRequest
unfolding parse_object
parse_payload (arr items) = fail invalid_request is_batch none
parse_payload (obj payload) = parse_object payload
parse_payload _ = fail invalid_request not_object none

abbrev pub or_fail {ℓ} : {A : Type ℓ} → Option A → ErrorCode → Reason → Option RequestId → Result A
or_fail none c r id = fail c r id
or_fail (some a) c r id = ok a

unfoldable pub parse_jsonrpc_request : Codec → List ℕ → Result ParsedRequest
unfolding parse_payload
parse_jsonrpc_request codec body = do
  text ← or_fail (codec.decode_utf8 body) parse_error not_utf8 none
  payload ← or_fail (codec.loads_strict text) parse_error not_json none
  parse_payload payload

-- Header names and values; the mapping that the HTTP server hands over.
abbrev pub Headers : Type 0
Headers = Dict String

-- the scan of `_header`, over names folded
unfoldable pub find_folded : String → Headers → Option String
find_folded name [] = none
find_folded name ((key, value) ∷ rest) =
    if casefold key == name then some value else find_folded name rest

abbrev pub or_else {ℓ} : {A : Type ℓ} → Option A → Option A → Option A
or_else (some a) o = some a
or_else none o = o

-- `_header`
unfoldable pub header : Headers → String → Option String
unfolding find_folded
header headers name = or_else (lookup name headers) (find_folded (casefold name) headers)

pub data ProtocolEra : Type 0 where
  modern legacy : ProtocolEra

-- `isinstance(v, dict)`
abbrev pub as_object : Option Json → Option Fields
as_object (some (obj fs)) = some fs
as_object _ = none

abbrev pub has_field : String → Fields → Bool
has_field key fs = is_some (get key fs)

-- a modern-only metadata field is there
abbrev pub has_modern_meta : Option Fields → Bool
has_modern_meta none = false
has_modern_meta (some meta) =
    has_field protocol_version_meta meta
    || has_field client_capabilities_meta meta
    || has_field client_info_meta meta

abbrev pub is_member : Option String → List String → Bool
is_member none xs = false
is_member (some x) xs = elem x xs

abbrev pub is_value : Option String → String → Bool
is_value none x = false
is_value (some y) x = y == x

-- `isinstance(v, str)`
abbrev pub as_text : Option Json → Option String
as_text (some (str s)) = some s
as_text _ = none

unfoldable pub classify_protocol_era : ParsedRequest → Headers → Bool → ProtocolEra
classify_protocol_era request headers allow_headerless_legacy =
    let protocol_header = header headers "MCP-Protocol-Version" in
    let method_header = header headers "Mcp-Method" in
    if has_modern_meta (as_object (get "_meta" request.params))
    then modern
    else if is_value protocol_header modern_protocol_version
    then modern
    else if is_member protocol_header legacy_protocol_versions
    then legacy
    else if not (is_some protocol_header)
        && (request.method == "initialize")
        && is_member (as_text (get "protocolVersion" request.params)) legacy_protocol_versions
    then legacy
    else if allow_headerless_legacy
        && not (is_some protocol_header)
        && is_value method_header request.method
    then legacy
    else if is_some method_header || is_some (header headers "Mcp-Name")
    then modern
    else legacy

abbrev pub non_empty : Option String → Option String
non_empty none = none
non_empty (some v) = if v == "" then none else some v

-- `_required_header`
unfoldable pub required_header : Headers → String → Option RequestId → Result String
required_header headers name id =
    or_fail (non_empty (header headers name)) header_mismatch (missing_header name) id

-- a tab, or a printable ASCII character
abbrev pub is_header_char : Char → Bool
is_header_char c = nat_beq (code c) 9 || (leb 0x20 (code c) && leb (code c) 0x7e)

-- `_validate_ascii_header`
unfoldable pub validate_ascii_header : String → String → Option RequestId → Result (Unit {0})
validate_ascii_header value name id =
    require ((value == strip value) && all_chars is_header_char value) header_mismatch
      (invalid_header name) id
