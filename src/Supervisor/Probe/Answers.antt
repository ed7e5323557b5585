-- ===== src/Supervisor/Probe/Answers.antt =====
-- process_manager.py, `_probe_jsonrpc_result`: what an accepted answer to a probe is.
use mcp_mux_2_0_dev.Base.{ap, eq_iff, ◌≤◌, ◌<◌, String, Option, none, some, true, ◌≡◌, refl, arith}
use mcp_mux_2_0_dev.Json.{Json, str, obj, Fields, get}
use mcp_mux_2_0_dev.Protocol.{is_text}
use mcp_mux_2_0_dev.Supervisor.Probe.{
  ProbeReply, ProbeResponse, fault, answered, extract_jsonrpc_payload, is_dict, is_result, accepts,
}

-- A proper answer to a probe: a success status, and a JSON-RPC 2.0 object with the id of the request
-- and an object as its result.
pub record Answer (loads : String → Option Json) (r : ProbeReply) : Type 0 where
  pub response : ProbeResponse
  pub arrived : r ≡ answered response
  pub success : (200 ≤ response.status) × (response.status < 300)
  pub payload : Fields
  pub decoded : extract_jsonrpc_payload loads response ≡ some (obj payload)
  pub version_tag : get "jsonrpc" payload ≡ some (str "2.0")
  pub id : get "id" payload ≡ some (str "mcp-mux-readiness")
  pub result : (fs : Fields) × (get "result" payload ≡ some (obj fs))

is_text-str :
    (expected : String) (o : Option Json) → is_text expected o ≡ true → o ≡ some (str expected)
is_text-str expected none h = cc
is_text-str expected (some (str s)) h = ap (λ t. some (str t)) ((eq_iff s expected).0 h)
is_text-str expected (some _) h = cc

is_dict-obj : (o : Option Json) → is_dict o ≡ true → (fs : Fields) × (o ≡ some (obj fs))
is_dict-obj none h = cc
is_dict-obj (some (obj fs)) h = (fs, refl)
is_dict-obj (some _) h = cc

is_result-Answer :
    (loads : String → Option Json) (response : ProbeResponse) (o : Option Json)
    → extract_jsonrpc_payload loads response ≡ o
    → (200 ≤ response.status) × (response.status < 300)
    → is_result o ≡ true
    → Answer loads (answered response)
is_result-Answer loads response none e good h = cc
is_result-Answer loads response (some (obj fs)) e good h = record {
  response = response;
  arrived = refl;
  success = good;
  payload = fs;
  decoded = e;
  version_tag = is_text-str "2.0" (get "jsonrpc" fs) (ground arith);
  id = is_text-str "mcp-mux-readiness" (get "id" fs) (ground arith);
  result = is_dict-obj (get "result" fs) (ground arith);
}
is_result-Answer loads response (some _) e good h = cc

pub accepts-Answer :
    (loads : String → Option Json) (r : ProbeReply) → accepts loads r ≡ true → Answer loads r
accepts-Answer loads fault h = cc
accepts-Answer loads (answered response) h =
    is_result-Answer loads response (extract_jsonrpc_payload loads response) refl (ground arith)
      (ground arith)
