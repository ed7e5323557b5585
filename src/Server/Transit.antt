-- ===== src/Server/Transit.antt =====
-- mcp_router/server.py: the headers that the router sends to an upstream service, and those of its
-- response that it lets through.
use mcp_mux_2_0_dev.Base.{
  String, ◌≡◌, refl, none, some, List, [], ◌∷◌, Bool, true, false, ◌&&◌, ◌||◌, not, arith, elem,
  filter, ◌==◌, eq_iff, if◌then◌else◌, Bool-cases, inl, inr,
}
use mcp_mux_2_0_dev.Base.Dict.{Dict, lookup, insert, lookup-insert}
use mcp_mux_2_0_dev.Base.Text.{casefold}
use mcp_mux_2_0_dev.Config.{Endpoint, base}
use mcp_mux_2_0_dev.Redaction.{redact_known_secrets}
use mcp_mux_2_0_dev.Security.{build_upstream_headers, sanitize_response_headers}
use mcp_mux_2_0_dev.Server.Checks.{is_streamable}

abbrev pub is_other : String → String × String → Bool
is_other identity_header (key, value) = not (casefold key == casefold identity_header)

-- `_forward_headers`; the name of the header that trusted proxies identify callers by comes first
unfoldable pub forward_headers : String → String → List (String × String) → Endpoint → Dict String
unfolding build_upstream_headers casefold filter insert
forward_headers identity_header method inbound endpoint =
    let headers = filter (is_other identity_header) (build_upstream_headers inbound endpoint) in
    if is_streamable (base endpoint).transport && (method == "POST" || method == "DELETE")
    then insert "accept" "application/json, text/event-stream" headers
    else headers

-- `key.casefold() not in exclude_headers`, for the router's own set
unfoldable pub is_kept : String × String → Bool
unfolding elem casefold
is_kept (key, value) = not (
    elem (casefold key)
      ("host" ∷ "content-length" ∷ "connection" ∷ "transfer-encoding" ∷ "keep-alive" ∷ []))

-- `build_response_headers`
unfoldable pub build_response_headers : List (String × String) → Bool → Bool → Dict String
unfolding sanitize_response_headers is_kept filter
build_response_headers headers decoded transformed =
    filter is_kept (sanitize_response_headers headers decoded transformed)

-- the value has no known secret in it
unfoldable pub is_clean : List String → String × String → Bool
unfolding redact_known_secrets
is_clean secrets (key, value) = redact_known_secrets secrets value == value

-- `_safe_response_headers`
unfoldable pub safe_response_headers :
    List String → List (String × String) → Bool → Bool → Dict String
unfolding build_response_headers is_clean filter
safe_response_headers secrets headers decoded transformed =
    filter (is_clean secrets) (build_response_headers headers decoded transformed)

module _ (test : String × String → Bool) (k : String) where
  lookup-filter-none :
      (d : Dict String) → ((v : String) → test (k, v) ≡ false) → lookup k (filter test d) ≡ none
  unfolding lookup filter
  lookup-filter-none [] h = refl
  lookup-filter-none ((j, v) ∷ d) h = elim (Bool-cases (test (j, v))) [
    | inl e ↦ rw e (ground (arith, eq_iff j k, h v, lookup-filter-none d h))
    | inr e ↦ rw e (lookup-filter-none d h)
  ]

  lookup-filter-some :
      (d : Dict String) (v : String) → lookup k (filter test d) ≡ some v → test (k, v) ≡ true
  unfolding lookup filter
  lookup-filter-some [] v h = cc
  lookup-filter-some ((j, w) ∷ d) v h = ground (arith, eq_iff j k, lookup-filter-some d v)

is_other-same :
    (identity_header k v : String)
    → casefold k ≡ casefold identity_header
    → is_other identity_header (k, v) ≡ false
is_other-same identity_header k v e = ground (arith, eq_iff (casefold k) (casefold identity_header))

-- No request carries the header that trusted proxies identify callers by to an upstream service, in
-- whatever case, not even if the endpoint's configuration has it; only a header named `accept` is
-- added afterwards.
pub forward_headers-identity :
    (identity_header method : String) (inbound : List (String × String)) (endpoint : Endpoint)
    (k : String)
    → casefold k ≡ casefold identity_header
    → ("accept" == k) ≡ false
    → lookup k (forward_headers identity_header method inbound endpoint) ≡ none
unfolding forward_headers
forward_headers-identity identity_header method inbound endpoint k e other =
    let headers = filter (is_other identity_header) (build_upstream_headers inbound endpoint) in
    ground (
      arith,
      lookup-insert "accept" k "application/json, text/event-stream" headers,
      lookup-filter-none (is_other identity_header) k (build_upstream_headers inbound endpoint)
          (λ v. is_other-same identity_header k v e),
    )

-- A response header that reaches the caller has a value that the redaction of known secrets leaves
-- as it is.
pub safe_response_headers-clean :
    (secrets : List String) (headers : List (String × String)) (decoded transformed : Bool)
    (k v : String)
    → lookup k (safe_response_headers secrets headers decoded transformed) ≡ some v
    → redact_known_secrets secrets v ≡ v
unfolding safe_response_headers is_clean
safe_response_headers-clean secrets headers decoded transformed k v h =
    (eq_iff (redact_known_secrets secrets v) v).0 (
      lookup-filter-some (is_clean secrets) k (build_response_headers headers decoded transformed) v
        h)
