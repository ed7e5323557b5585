-- ===== src/Supervisor/Probe.antt =====
-- process_manager.py: the two requests that ask a started service whether it is ready, and what
-- counts as an answer. The HTTP client and the JSON decoder are arguments.

pub mod Answers
use mcp_mux_2_0_dev.Base.{
  ℕ, String, Option, none, some, List, [], ◌∷◌, ◌++◌, Bool, true, false, ◌&&◌, leb, ltb, elem,
  if◌then◌else◌,
}
use mcp_mux_2_0_dev.Base.Dict.{Dict, insert}
use mcp_mux_2_0_dev.Base.Text.{casefold, contains, starts_with, str_drop, lstrip, join, is_empty}
use mcp_mux_2_0_dev.Config.{EndpointBase}
use mcp_mux_2_0_dev.Json.{Json, str, obj, end, field, get}
use mcp_mux_2_0_dev.Protocol.{
  modern_protocol_version, protocol_version_meta, client_capabilities_meta, is_text,
}

abbrev pub readiness_request_id : String
readiness_request_id = "mcp-mux-readiness"

abbrev pub legacy_readiness_protocol_version : String
legacy_readiness_protocol_version = "2025-11-25"

-- `endpoint_cfg.headers or {}`, without the names that the probe sets itself
abbrev pub kept_headers : List String → Dict String → Dict String
kept_headers names [] = []
kept_headers names ((name, value) ∷ headers) =
    let rest = kept_headers names headers in
    if elem (casefold name) names then rest else (name, value) ∷ rest

-- `headers.update(required)`
abbrev pub add_required : Dict String → Dict String → Dict String
add_required headers [] = headers
add_required headers ((name, value) ∷ required) = add_required (insert name value headers) required

abbrev pub own_headers : Option (Dict String) → Dict String
own_headers none = []
own_headers (some headers) = headers

abbrev pub names_of : Dict String → List String
names_of [] = []
names_of ((name, value) ∷ headers) = casefold name ∷ names_of headers

-- `_merge_probe_headers`
unfoldable pub merge_probe_headers : EndpointBase → Dict String → Dict String
unfolding insert elem
merge_probe_headers b required =
    add_required (kept_headers (names_of required) (own_headers b.headers)) required

pub record ProbeRequest : Type 0 where
  pub url : String
  pub payload : Json
  pub headers : Dict String

-- the request that `_probe_modern_discovery` sends
unfoldable pub probe_modern_discovery : EndpointBase → ProbeRequest
probe_modern_discovery b = record {
  url = b.url;
  payload = obj (
      field "jsonrpc" (str "2.0") (
        field "id" (str readiness_request_id) (
          field "method" (str "server/discover") (
            field "params"
              (obj (
                field "_meta"
                  (obj (
                    field protocol_version_meta (str modern_protocol_version)
                      (field client_capabilities_meta (obj end) end)))
                  end))
              end))));
  headers = merge_probe_headers b (
      ("content-type", "application/json")
      ∷ ("accept", "application/json, text/event-stream")
      ∷ ("MCP-Protocol-Version", modern_protocol_version)
      ∷ ("Mcp-Method", "server/discover")
      ∷ []);
}

-- the request that `_probe_legacy_initialize` sends
unfoldable pub probe_legacy_initialize : EndpointBase → ProbeRequest
probe_legacy_initialize b = record {
  url = b.url;
  payload = obj (
      field "jsonrpc" (str "2.0") (
        field "id" (str readiness_request_id) (
          field "method" (str "initialize") (
            field "params"
              (obj (
                field "protocolVersion" (str legacy_readiness_protocol_version) (
                  field "capabilities" (obj end) (
                    field "clientInfo"
                      (obj (field "name" (str "mcp-mux-readiness") (field "version" (str "0") end)))
                      end))))
              end))));
  headers = merge_probe_headers b (
      ("content-type", "application/json")
      ∷ ("accept", "application/json, text/event-stream")
      ∷ []);
}

-- A response as the HTTP client gives it: its whole text, or its lines one by one. `cut_off` says
-- that reading ends in an error.
pub record ProbeResponse : Type 0 where
  pub status : ℕ
  pub content_type : Option String
  pub text : String
  pub lines : List String
  pub cut_off : Bool

-- what a request comes to, and how long it takes
pub data ProbeReply : Type 0 where
  fault : ProbeReply
  answered : ProbeResponse → ProbeReply

pub record TimedReply : Type 0 where
  pub elapsed : ℕ
  pub reply : ProbeReply

-- `data_lines.append(line[5:].lstrip())` at a data line
abbrev pub with_data : String → List String → List String
with_data line data_lines =
    if starts_with line "data:" then data_lines ++ lstrip (str_drop 5 line) ∷ [] else data_lines

abbrev pub is_dict : Option Json → Bool
is_dict (some (obj fs)) = true
is_dict _ = false

-- the test on the decoded payload
abbrev pub is_result : Option Json → Bool
is_result (some (obj fs)) =
    is_text "2.0" (get "jsonrpc" fs)
    && is_text readiness_request_id (get "id" fs)
    && is_dict (get "result" fs)
is_result _ = false

module _ (loads : String → Option Json) where
  -- the end of the stream
  abbrev pub last_data : Bool → List String → Option Json
  last_data true data_lines = none
  last_data false [] = none
  last_data false (line ∷ data_lines) = loads (join "\n" (line ∷ data_lines))

  abbrev pub at_blank : Option Json → List String → Option Json
  at_blank rest [] = rest
  at_blank rest (line ∷ data_lines) = elim (loads (join "\n" (line ∷ data_lines))) [
    | none ↦ rest
    | some found ↦ some found
  ]

  -- the loop over `response.aiter_lines()`, with the data lines read so far
  unfoldable pub read_lines : Bool → List String → List String → Option Json
  read_lines cut_off data_lines [] = last_data cut_off data_lines
  read_lines cut_off data_lines (line ∷ lines) =
      let cleared = read_lines cut_off [] lines in
      let longer = read_lines cut_off (with_data line data_lines) lines in
      if is_empty line then at_blank cleared data_lines else longer

  abbrev pub is_event_stream : Option String → Bool
  is_event_stream none = false
  is_event_stream (some content_type) = contains (casefold content_type) "event-stream"

  -- `_extract_jsonrpc_payload`
  unfoldable pub extract_jsonrpc_payload : ProbeResponse → Option Json
  unfolding read_lines
  extract_jsonrpc_payload response =
      if is_event_stream response.content_type
      then read_lines response.cut_off [] response.lines
      else if response.cut_off
      then none
      else loads response.text

  abbrev pub accepts : ProbeReply → Bool
  accepts fault = false
  accepts (answered response) =
      leb 200 response.status
      && ltb response.status 300
      && is_result (extract_jsonrpc_payload response)

  -- `_probe_jsonrpc_result` within a timeout: the verdict, and the time it takes
  unfoldable pub probe_jsonrpc_result : ℕ → TimedReply → Bool × ℕ
  unfolding extract_jsonrpc_payload get
  probe_jsonrpc_result timeout exchanged =
      if ltb exchanged.elapsed timeout
      then (accepts exchanged.reply, exchanged.elapsed)
      else (false, timeout)
