-- ===== src/Protocol/Parse.antt =====
-- parse_jsonrpc_request of protocol.py: which bodies are requests, and what the parsed request says.
use mcp_mux_2_0_dev.Base.{
  String, ◌≡◌, refl, sym, ap, subst, ◌↔◌, Option, none, some, true, arith, eq_iff,
}
use mcp_mux_2_0_dev.Base.Int.{ℤ}
use mcp_mux_2_0_dev.Json.{Json, null, str, int, arr, obj, Fields, get, name_of}
use mcp_mux_2_0_dev.Protocol.{
  ok, ParsedRequest, RequestId, text_id, int_id, request_id_of, optional_id, is_text, params_of,
  parse_object, parse_payload, method_of, some_id,
}
use mcp_mux_2_0_dev.Protocol.Results.{require-bind, bind-eq-ok}

-- a text or an integer, read as an id
pub data IsId : Json → RequestId → Type 0 where
  text : (s : String) → IsId (str s) (text_id s)
  integer : (n : ℤ) → IsId (int n) (int_id n)

-- the id of a request, or of a notification, which has none
abbrev pub IdAgrees : Option Json → Option RequestId → Type 0
IdAgrees none id = id ≡ none
IdAgrees (some v) id = (i : RequestId) × IsId v i × (id ≡ some i)

-- the parameters, which may be left out
abbrev pub ParamsAgree : Option Json → Fields → Type 0
ParamsAgree none params = params ≡ Fields.end
ParamsAgree (some v) params = v ≡ obj params

-- a JSON-RPC 2.0 object, and the request read off it
pub record Describes (fs : Fields) (r : ParsedRequest) : Type 0 where
  pub payload : r.payload ≡ fs
  pub version_tag : get "jsonrpc" fs ≡ some (str "2.0")
  pub method : name_of (get "method" fs) ≡ some r.method
  pub params : ParamsAgree (get "params" fs) r.params
  pub request_id : IdAgrees (get "id" fs) r.request_id

ok-injective {ℓ} : {A : Type ℓ} {a b : A} → ok a ≡ ok b → a ≡ b
ok-injective h = cc

request_id_of-IsId : (v : Json) {i : RequestId} → request_id_of v ≡ ok i → IsId v i
unfolding request_id_of
request_id_of-IsId (str s) h = subst (IsId (str s)) (ok-injective h) (text s)
request_id_of-IsId (int n) h = subst (IsId (int n)) (ok-injective h) (integer n)
request_id_of-IsId _ h = cc

IsId-request_id_of : (v : Json) (i : RequestId) → IsId v i → request_id_of v ≡ ok i
unfolding request_id_of
IsId-request_id_of _ _ (text s) = refl
IsId-request_id_of _ _ (integer n) = refl

optional_id-IdAgrees :
    (o : Option Json) {id : Option RequestId} → optional_id o ≡ ok id → IdAgrees o id
optional_id-IdAgrees none h = ground arith
optional_id-IdAgrees (some v) h =
    bind-eq-ok (request_id_of v) some_id h λ i e f. (i, request_id_of-IsId v e, ground arith)

params_of-ParamsAgree :
    (id : Option RequestId) (o : Option Json) {params : Fields}
    → params_of id o ≡ ok params
    → ParamsAgree o params
params_of-ParamsAgree id none h = ground arith
params_of-ParamsAgree id (some (obj fs)) h = ground arith
params_of-ParamsAgree id (some _) h = cc

is_text-eq-some : (x : String) (o : Option Json) → is_text x o ≡ true → o ≡ some (str x)
is_text-eq-some x none h = cc
is_text-eq-some x (some (str s)) h = ap (λ t. some (str t)) ((eq_iff s x).0 h)
is_text-eq-some x (some _) h = cc

method_of-eq-some :
    (id : Option RequestId) (o : Option String) {m : String} → method_of id o ≡ ok m → o ≡ some m
method_of-eq-some id none h = cc
method_of-eq-some id (some n) h = ground arith

optional_id_of_IdAgrees :
    (o : Option Json) (id : Option RequestId) → IdAgrees o id → optional_id o ≡ ok id
optional_id_of_IdAgrees none id h = ap ok (sym h)
optional_id_of_IdAgrees (some v) id (i, e, f) = rw (IsId-request_id_of v i e) (ap ok (sym f))

params_of_ParamsAgree :
    (id : Option RequestId) (o : Option Json) (params : Fields)
    → ParamsAgree o params
    → params_of id o ≡ ok params
params_of_ParamsAgree id none params h = ap ok (sym h)
params_of_ParamsAgree id (some v) params h = rw h

parse_object-Describes : (fs : Fields) {r : ParsedRequest} → parse_object fs ≡ ok r → Describes fs r
unfolding parse_object
parse_object-Describes fs h = bind-eq-ok (optional_id (get "id" fs)) _ h λ id at_id h₁.
    require-bind (is_text "2.0" (get "jsonrpc" fs)) _ _ _ _ h₁ λ tag h₂.
      bind-eq-ok (method_of id (name_of (get "method" fs))) _ h₂ λ method at_method h₃.
        bind-eq-ok (params_of id (get "params" fs)) _ h₃ λ params at_params h₄.
          subst (Describes fs) (ok-injective h₄) (record {
            payload = refl;
            version_tag = is_text-eq-some "2.0" (get "jsonrpc" fs) tag;
            method = method_of-eq-some id (name_of (get "method" fs)) at_method;
            params = params_of-ParamsAgree id (get "params" fs) at_params;
            request_id = optional_id-IdAgrees (get "id" fs) at_id;
          })

parse_object_of_Describes :
    (fs : Fields) (r : ParsedRequest) → Describes fs r → parse_object fs ≡ ok r
unfolding parse_object
parse_object_of_Describes fs r d =
    rw
      (
        optional_id_of_IdAgrees (get "id" fs) r.request_id d.request_id,
        d.version_tag,
        d.method,
        params_of_ParamsAgree r.request_id (get "params" fs) r.params d.params,
      )
      (ap (λ p. ok (record r { payload = p })) (sym d.payload))

-- A decoded body is accepted exactly when it is an object that describes a JSON-RPC 2.0 request,
-- and the result is the request described: its tag is "2.0", its method a non-empty text, its
-- parameters an object or left out, its id a text or an integer or left out.
pub parse_payload-ok_iff :
    (j : Json) (r : ParsedRequest)
    → (parse_payload j ≡ ok r) ↔ ((fs : Fields) × (j ≡ obj fs) × Describes fs r)
unfolding parse_payload
parse_payload-ok_iff j r = (read j, write)
  where
    read : (j : Json) → parse_payload j ≡ ok r → (fs : Fields) × (j ≡ obj fs) × Describes fs r
    read (arr items) h = cc
    read (obj fs) h = (fs, refl, parse_object-Describes fs h)
    read null h = cc
    read _ h = cc

    write : ((fs : Fields) × (j ≡ obj fs) × Describes fs r) → parse_payload j ≡ ok r
    write (fs, e, d) = rw e (parse_object_of_Describes fs r d)
