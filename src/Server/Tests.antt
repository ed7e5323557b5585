-- ===== src/Server/Tests.antt =====
-- Concrete requests through the router of server.py.
use mcp_mux_2_0_dev.Base.{ℕ, ◌≤◌, ◌≡◌, refl, none, some, List, [], ◌∷◌, true, false, length}
use mcp_mux_2_0_dev.Base.Int.{pos}
use mcp_mux_2_0_dev.Samples.{remote_tools}
use mcp_mux_2_0_dev.Base.{elem}
use mcp_mux_2_0_dev.Base.Dict.{lookup}
use mcp_mux_2_0_dev.Base.Text.{casefold}
use mcp_mux_2_0_dev.Policy.{name_lists}
use mcp_mux_2_0_dev.Protocol.{classify_protocol_era, header}
use mcp_mux_2_0_dev.Json.{get, str, int, obj, Fields, field, end, Codec}
use mcp_mux_2_0_dev.Protocol.{
  Headers, find_folded, ParsedRequest, int_id, ok, legacy, parse_jsonrpc_request,
}
use mcp_mux_2_0_dev.Protocol.Validate.{validate_protocol_request, extract_policy_request_names}
use mcp_mux_2_0_dev.Runtime.{from_config}
use mcp_mux_2_0_dev.Server.{
  is_json_content_type, accepted, check_content_length, read_post_body, parse_int,
}
use mcp_mux_2_0_dev.Server.Body.{concat, read_post_body-accepted}
use mcp_mux_2_0_dev.Server.Leases.{Request, Surroundings, Gateway, streaming, raising}
use mcp_mux_2_0_dev.Server.Authority.{Untouched, Cleared, catch_all_proxy-Cleared}
use mcp_mux_2_0_dev.Base.{◌⊎◌}
use mcp_mux_2_0_dev.Server.Dispatch.{Endings, catch_all_proxy}
use mcp_mux_2_0_dev.Server.Checks.{check_request, proceed, is_denied}
use mcp_mux_2_0_dev.Server.Ownership.{Settles, catch_all_proxy-Settles}
use mcp_mux_2_0_dev.Supervisor.Start.{spawn_error}

abbrev params : Fields
params = field "name" (str "drop") end

abbrev payload : Fields
payload =
    field "jsonrpc" (str "2.0") (
      field "id" (int (pos 3))
        (field "method" (str "tools/call") (field "params" (obj params) end)))

abbrev drop_call : ParsedRequest
drop_call = record {
  payload = payload;
  method = "tools/call";
  params = params;
  request_id = some (int_id (pos 3));
}

-- a codec that reads the one payload
abbrev codec : Codec
codec = record {
  decode_utf8 = λ b. some "payload";
  loads_strict = λ s. some (obj payload);
  loads = λ s. none;
  dumps = λ j. "";
  decode_base64 = λ s. none;
}

abbrev json_headers : Headers
json_headers = ("Content-Type", "application/json; charset=utf-8") ∷ ("content-length", "4") ∷ []

abbrev chunks : List (List ℕ)
chunks = (1 ∷ 2 ∷ []) ∷ (3 ∷ 4 ∷ []) ∷ []

abbrev whole : List ℕ
whole = 1 ∷ 2 ∷ 3 ∷ 4 ∷ []

is_json : is_json_content_type (find_folded "content-type" json_headers) ≡ true
unfolding is_json_content_type find_folded
is_json = refl

is_declared : check_content_length 10 (find_folded "content-length" json_headers) ≡ none
unfolding find_folded parse_int casefold
is_declared = refl

accepts_chunks : read_post_body codec 10 json_headers false chunks ≡ accepted whole drop_call legacy
unfolding read_post_body get classify_protocol_era header lookup
accepts_chunks = refl

read_post_body-accepted_example :
    (is_json_content_type (find_folded "content-type" json_headers) ≡ true)
    × (whole ≡ concat chunks)
    × (length whole ≤ 10)
    × (parse_jsonrpc_request codec whole ≡ ok drop_call)
    × (validate_protocol_request codec drop_call json_headers false ≡ ok legacy)
read_post_body-accepted_example =
    read_post_body-accepted codec 10 json_headers false chunks whole drop_call legacy accepts_chunks

abbrev env : Surroundings
env = record {
  codec = codec;
  max_request_body_bytes = 10;
  now = 50;
  accepting_work = true;
  is_up = true;
  redact = λ s. s;
  tasks = record { stdout = 1; stderr = 2; exit = 3; restart = 4 };
  launch = spawn_error "no such file";
}

abbrev endings : Endings
endings = record { proxied = streaming; session_streams = true; bridged = raising }

abbrev call_request : Request
call_request = record {
  method = "POST";
  subpath = none;
  headers = json_headers;
  session_id = none;
  chunks = chunks;
  principal = "local";
}

abbrev idle : Gateway
idle = record { buckets = []; runtime = from_config remote_tools 4; denied_calls = 0 }

catch_all_proxy-Settles_example : Settles idle (catch_all_proxy env endings call_request idle)
catch_all_proxy-Settles_example = catch_all_proxy-Settles env endings call_request idle

passes_checks : check_request env idle.runtime.config call_request ≡ proceed (some drop_call) legacy
unfolding check_request get classify_protocol_era header lookup from_config
passes_checks = refl

names_drop : extract_policy_request_names drop_call ≡ ok (some "drop" ∷ [])
unfolding extract_policy_request_names lookup get
names_drop = refl

denies_drop : is_denied idle.runtime.config call_request drop_call (some "drop" ∷ []) ≡ true
unfolding is_denied elem name_lists from_config
denies_drop = refl

catch_all_proxy-Cleared_example :
    Untouched idle (catch_all_proxy env endings call_request idle)
    ⊎ Cleared env idle.runtime.config call_request
catch_all_proxy-Cleared_example = catch_all_proxy-Cleared env endings call_request idle
