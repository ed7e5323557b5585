-- ===== src/Security/Forwarded.antt =====
-- security.py: which headers reach an upstream service, and which of its headers reach the caller.
use mcp_mux_2_0_dev.Base.{
  String, ◌≡◌, refl, ap, ◌∙◌, inl, inr, Option, none, some, List, [], ◌∷◌, Bool, true, false, not,
  arith, map, ◌==◌, eq_iff, if◌then◌else◌, Bool-cases, filter,
}
use mcp_mux_2_0_dev.Base.Dict.{Dict, lookup, insert, lookup-insert}
use mcp_mux_2_0_dev.Base.Text.{casefold}
use mcp_mux_2_0_dev.Config.{Endpoint, base}
use mcp_mux_2_0_dev.Security.{
  update, forwards, forward_all, first_header, valid_traceparent, build_upstream_headers,
  is_skipped, with_configured, keep_response, sanitize_response_headers, is_never_forwarded,
}

-- The last value of the key among the entries, or else the fallback.
unfoldable pub last_value : String → List (String × String) → Option String → Option String
last_value k [] old = old
last_value k ((j, v) ∷ entries) old = last_value k entries (if j == k then some v else old)

lookup-update :
    (k : String) (d : Dict String) (entries : List (String × String))
    → lookup k (update d entries) ≡ last_value k entries (lookup k d)
unfolding update last_value
lookup-update k d [] = refl
lookup-update k d ((j, v) ∷ entries) =
    lookup-update k (insert j v d) entries ∙ ap (last_value k entries) (lookup-insert j k v d)

forward_all-update :
    (valid : Bool) (extra : List String) (inbound : List (String × String)) (d : Dict String)
    → forward_all valid extra inbound d ≡ update d (filter (forwards valid extra) inbound)
unfolding forward_all update filter
forward_all-update valid extra [] d = refl
forward_all-update valid extra ((k, v) ∷ inbound) d =
    elim (Bool-cases (forwards valid extra (k, v))) [
      | inl e ↦ rw e (forward_all-update valid extra inbound (insert k v d))
      | inr e ↦ rw e (forward_all-update valid extra inbound d)
    ]

abbrev pub or_empty : Option (Dict String) → Dict String
or_empty none = []
or_empty (some headers) = headers

with_configured_lem :
    (k : String) (configured : Option (Dict String)) (headers : Dict String)
    → lookup k (with_configured configured headers)
      ≡ last_value k (or_empty configured) (lookup k headers)
unfolding last_value
with_configured_lem k none headers = refl
with_configured_lem k (some configured) headers = lookup-update k headers configured

-- the headers that are sent to every request's upstream
abbrev pub configured_headers : Endpoint → Dict String
configured_headers endpoint = or_empty (base endpoint).headers

-- the inbound headers that are passed on, in order
abbrev pub passed_headers : List (String × String) → Endpoint → List (String × String)
passed_headers inbound endpoint =
    filter
      (forwards (valid_traceparent (first_header "traceparent" inbound))
        (map casefold (base endpoint).inbound_headers))
      inbound

-- A header of the upstream request is the configured one, or else the last inbound one of that
-- exact name among those that the rules pass on; with neither it is absent.
pub build_upstream_headers_lem :
    (inbound : List (String × String)) (endpoint : Endpoint) (k : String)
    → lookup k (build_upstream_headers inbound endpoint)
      ≡ last_value k
          (configured_headers endpoint)
          (last_value k (passed_headers inbound endpoint) none)
unfolding build_upstream_headers lookup
build_upstream_headers_lem inbound endpoint k =
    let extra = map casefold (base endpoint).inbound_headers in
    let valid = valid_traceparent (first_header "traceparent" inbound) in
    let kept = filter (forwards valid extra) inbound in
    with_configured_lem k (base endpoint).headers (forward_all valid extra inbound [])
    ∙ ap (last_value k (configured_headers endpoint))
        (ap (lookup k) (forward_all-update valid extra inbound []) ∙ lookup-update k [] kept)

forwards-never :
    (valid : Bool) (extra : List String) (j v : String)
    → is_never_forwarded (casefold j) ≡ true
    → forwards valid extra (j, v) ≡ false
unfolding forwards
forwards-never valid extra j v h = rw h refl

module _ (valid : Bool) (extra : List String) (k : String) where
  last_value-forwards :
      (inbound : List (String × String)) (old : Option String)
      → is_never_forwarded (casefold k) ≡ true
      → last_value k (filter (forwards valid extra) inbound) old ≡ old
  unfolding last_value filter
  last_value-forwards [] old h = refl
  last_value-forwards ((j, v) ∷ inbound) old h =
      ground (arith, eq_iff j k, forwards-never valid extra j v, last_value-forwards inbound old h)

-- Whatever the caller sends, a credential, a hop-by-hop header or a header on the caller's identity
-- reaches an upstream service only from the endpoint's configuration, also where the endpoint's
-- list of inbound headers names it.
pub build_upstream_headers-never :
    (inbound : List (String × String)) (endpoint : Endpoint) (k : String)
    → is_never_forwarded (casefold k) ≡ true
    → lookup k (build_upstream_headers inbound endpoint)
      ≡ last_value k (configured_headers endpoint) none
build_upstream_headers-never inbound endpoint k h =
    build_upstream_headers_lem inbound endpoint k
    ∙ ap (last_value k (configured_headers endpoint)) (
        last_value-forwards (valid_traceparent (first_header "traceparent" inbound))
          (map casefold (base endpoint).inbound_headers) k inbound none h)

abbrev not_skipped : Bool → Bool → String × String → Bool
not_skipped decoded transformed (key, value) = not (is_skipped decoded transformed (casefold key))

keep_response-update :
    (decoded transformed : Bool) (headers : List (String × String)) (d : Dict String)
    → keep_response decoded transformed headers d
      ≡ update d (filter (not_skipped decoded transformed) headers)
unfolding keep_response update filter
keep_response-update decoded transformed [] d = refl
keep_response-update decoded transformed ((j, v) ∷ headers) d =
    elim (Bool-cases (is_skipped decoded transformed (casefold j))) [
      | inl e ↦ rw e (keep_response-update decoded transformed headers d)
      | inr e ↦ rw e (keep_response-update decoded transformed headers (insert j v d))
    ]

-- Filtering by the key keeps all the values of a key, or none.
last_value-filter :
    (keeps : String × String → Bool) (skip : String → Bool) (k : String)
    (headers : List (String × String)) (old : Option String)
    → ((j v : String) → keeps (j, v) ≡ not (skip j))
    → last_value k (filter keeps headers) old ≡ (if skip k then old else last_value k headers old)
unfolding last_value filter
last_value-filter keeps skip k [] old h = ground arith
last_value-filter keeps skip k ((j, v) ∷ headers) old h = ground (
  arith,
  eq_iff j k,
  h j v,
  last_value-filter keeps skip k headers old h,
  last_value-filter keeps skip k headers (some v) h,
)

-- A response header reaches the caller, with its last value, unless its name in lower case is one
-- that the gateway drops for what was done to the body; then it is absent.
pub sanitize_response_headers_lem :
    (headers : List (String × String)) (decoded transformed : Bool) (k : String)
    → lookup k (sanitize_response_headers headers decoded transformed)
      ≡ (if is_skipped decoded transformed (casefold k) then none else last_value k headers none)
unfolding sanitize_response_headers lookup
sanitize_response_headers_lem headers decoded transformed k =
    ap (lookup k) (keep_response-update decoded transformed headers [])
    ∙ lookup-update k [] (filter (not_skipped decoded transformed) headers)
    ∙ last_value-filter (not_skipped decoded transformed)
        (λ name. is_skipped decoded transformed (casefold name)) k headers none (λ j v. refl)
