-- ===== src/Security/Admitted.antt =====
-- security.py: which requests the gateway hands on, and for whom.
use mcp_mux_2_0_dev.Base.{
  String, ◌≡◌, ◌↔◌, refl, inl, inr, Option, none, some, List, [], sym, subst, ◌∙◌, Bool, true,
  false, ◌&&◌, ◌||◌, not, arith, elem, Option-cases, Bool-cases, eq_iff, if◌then◌else◌,
}
use Prim.Native.String
use mcp_mux_2_0_dev.Base.Dict.{Dict, lookup}
use mcp_mux_2_0_dev.Base.Text.{is_empty, is_ascii}
use mcp_mux_2_0_dev.Config.{SecurityMode, local_only, remote, authenticated, SecurityConfig}
use mcp_mux_2_0_dev.Security.{NetLib, origin_allowed, is_mode}
use mcp_mux_2_0_dev.Security.Gateway.{
  type_error, Scope, scope_headers, host_name, client_ip, bearer_token, principal, proxy_identity,
  check_key, authenticated_principal, Authentication, Outcome, not_http, rejected, preflight,
  admitted, is_local_peer, origin_is_valid, is_preflight, by_mode, guard, or_blank,
  preflight_headers, call, raised,
}

-- The caller proves who it is: a trusted proxy names it, or with no such name it presents the key.
pub data Proves (net : NetLib) (security : SecurityConfig) (headers : Dict String)
    (peer : Option String) (p : String) : Type 0 where
  by_proxy :
      (identity : String)
      → proxy_identity net headers peer security ≡ some identity
      → p ≡ String.◌++◌ "proxy:" identity
      → Proves net security headers peer p
  by_key :
      (key : String)
      → proxy_identity net headers peer security ≡ none
      → security.api_key ≡ some key
      → bearer_token (lookup "authorization" headers) ≡ some key
      → is_ascii key ≡ true
      → p ≡ "api-key"
      → Proves net security headers peer p

module _ (net : NetLib) (security : SecurityConfig) (headers : Dict String)
    (peer : Option String) where
  check_key-principal :
      (p : String) (api_key token : Option String)
      → check_key api_key token ≡ principal p
      → (key : String) × (api_key ≡ some key)
        × (token ≡ some key)
        × (is_ascii key ≡ true)
        × (p ≡ "api-key")
  unfolding check_key
  check_key-principal p none token h = ground arith
  check_key-principal p (some key) none h = ground arith
  check_key-principal p (some key) (some supplied) h = (
    key,
    refl,
    ground (arith, eq_iff supplied key),
    ground (arith, eq_iff supplied key),
    ground (arith, eq_iff supplied key),
  )

  -- Authentication names a principal only for a caller who proves to be it.
  authenticated_principal-Proves :
      (p : String)
      → authenticated_principal net headers peer security ≡ principal p
      → Proves net security headers peer p
  unfolding authenticated_principal
  authenticated_principal-Proves p h =
      elim (Option-cases (proxy_identity net headers peer security)) [
        | inr (identity, e) ↦ by_proxy identity e (ground arith)
        | inl e ↦
            let token = bearer_token (lookup "authorization" headers) in
            let (key, key_is, token_is, ascii, p_is) =
              check_key-principal p security.api_key token (ground arith) in
            by_key key e key_is token_is ascii p_is
      ]

-- The principal of a request in each mode.
pub data Speaks (net : NetLib) (security : SecurityConfig) (headers : Dict String)
    (peer : Option String) (p : String) : Type 0 where
  locally :
      security.mode ≡ local_only
      → is_local_peer net peer ≡ true
      → p ≡ "local"
      → Speaks net security headers peer p
  remotely : security.mode ≡ remote → p ≡ "remote" → Speaks net security headers peer p
  proved :
      security.mode ≡ authenticated
      → Proves net security headers peer p
      → Speaks net security headers peer p

-- A request that may be handed on.
pub record IsAdmissible (net : NetLib) (security : SecurityConfig) (scope : Scope) (p : String)
    (origin : Option String) : Type 0 where
  pub http : scope.is_http ≡ true
  pub host :
      (value : String) × (lookup "host" (scope_headers scope.headers) ≡ some value)
      × (elem (host_name value) security.allowed_hosts ≡ true)
  pub from_origin : lookup "origin" (scope_headers scope.headers) ≡ origin
  pub valid_origin : (o : String) → origin ≡ some o → origin_allowed net o security ≡ true
  pub speaks : Speaks net security (scope_headers scope.headers) (client_ip scope.client) p

by_mode-Speaks :
    (net : NetLib) (security : SecurityConfig) (headers : Dict String)
    (peer origin o : Option String) (p : String) (mode : SecurityMode)
    → security.mode ≡ mode
    → (is_mode mode local_only && not (is_local_peer net peer)) ≡ false
    → by_mode mode origin (authenticated_principal net headers peer security) ≡ admitted p o
    → (origin ≡ o) × Speaks net security headers peer p
unfolding is_mode
by_mode-Speaks net security headers peer origin o p local_only e local h =
    (ground arith, locally e (ground arith) (ground arith))
by_mode-Speaks net security headers peer origin o p remote e local h =
    (ground arith, remotely e (ground arith))
by_mode-Speaks net security headers peer origin o p authenticated e local h = (
  (ground arith),
  proved e (authenticated_principal-Proves net security headers peer p (ground arith)),
)

-- Only the last of the outcomes hands the request on.
guards-pass :
    (bad_host bad_peer good_origin asks_first : Bool) (headers : Dict String) (last : Outcome)
    (p : String) (o : Option String)
    → (if bad_host
        then rejected 403 "Invalid Host" []
        else if bad_peer
        then rejected 403 "Local-only gateway access required" []
        else if not good_origin
        then rejected 403 "Invalid Origin" []
        else if asks_first
        then preflight headers
        else last)
      ≡ admitted p o
    → (bad_host ≡ false) × (bad_peer ≡ false) × (good_origin ≡ true) × (last ≡ admitted p o)
guards-pass bad_host bad_peer good_origin asks_first headers last p o h = ground arith

host_name-blank : is_empty (host_name "") ≡ true
unfolding host_name is_empty
host_name-blank = refl

host-given :
    (hosts : List String) (value : Option String)
    → (is_empty (host_name (or_blank value)) || not (elem (host_name (or_blank value)) hosts))
      ≡ false
    → (text : String) × (value ≡ some text) × (elem (host_name text) hosts ≡ true)
host-given hosts none h = ground (arith, host_name-blank)
host-given hosts (some text) h = (text, refl, ground arith)

valid_origin-allowed :
    (net : NetLib) (security : SecurityConfig) (origin : Option String) (o : String)
    → origin_is_valid net security origin ≡ true
    → origin ≡ some o
    → origin_allowed net o security ≡ true
valid_origin-allowed net security origin o h e =
    subst (λ x. origin_is_valid net security x ≡ true) e h

guard-IsAdmissible :
    (net : NetLib) (security : SecurityConfig) (scope : Scope) (p : String) (o : Option String)
    → scope.is_http ≡ true
    → guard net security scope (scope_headers scope.headers) ≡ admitted p o
    → IsAdmissible net security scope p o
guard-IsAdmissible net security scope p o http h =
    let headers = scope_headers scope.headers in
    let peer = client_ip scope.client in
    let origin = lookup "origin" headers in
    let host = host_name (or_blank (lookup "host" headers)) in
    let (host_ok, peer_ok, origin_ok, last) =
      guards-pass (is_empty host || not (elem host security.allowed_hosts))
        (is_mode security.mode local_only && not (is_local_peer net peer))
        (origin_is_valid net security origin) (is_preflight scope.method origin headers)
        (preflight_headers origin headers)
        (by_mode security.mode origin (authenticated_principal net headers peer security)) p o h in
    let (same, speaks) =
      by_mode-Speaks net security headers peer origin o p security.mode refl peer_ok last in
    record {
      http = http;
      host = host-given security.allowed_hosts (lookup "host" headers) host_ok;
      from_origin = same;
      valid_origin = λ text e. valid_origin-allowed net security origin text origin_ok (same ∙ e);
      speaks = speaks;
    }

not_http-absurd : {A : Type 0} {p : String} {o : Option String} → not_http ≡ admitted p o → A
not_http-absurd h = ground arith

call-http :
    (net : NetLib) (security : SecurityConfig) (scope : Scope)
    → scope.is_http ≡ true
    → call net security scope ≡ guard net security scope (scope_headers scope.headers)
unfolding call
call-http net security scope e = rw e refl

call-not_http :
    (net : NetLib) (security : SecurityConfig) (scope : Scope)
    → scope.is_http ≡ false
    → call net security scope ≡ not_http
unfolding call
call-not_http net security scope e = rw e refl

call-IsAdmissible :
    (net : NetLib) (security : SecurityConfig) (scope : Scope) (p : String) (o : Option String)
    → call net security scope ≡ admitted p o
    → IsAdmissible net security scope p o
call-IsAdmissible net security scope p o h = elim (Bool-cases scope.is_http) [
  | inl e ↦ guard-IsAdmissible net security scope p o e (sym (call-http net security scope e) ∙ h)
  | inr e ↦ not_http-absurd (sym (call-not_http net security scope e) ∙ h)
]

abbrev checks : Outcome → Bool
checks not_http = false
checks _ = true

by_mode-checks :
    (mode : SecurityMode) (origin : Option String) (a : Authentication)
    → checks (by_mode mode origin a) ≡ true
by_mode-checks mode origin a = ground arith

guards-check :
    (bad_host bad_peer good_origin asks_first : Bool) (headers : Dict String) (last : Outcome)
    → checks last ≡ true
    → checks (
        if bad_host
        then rejected 403 "Invalid Host" []
        else if bad_peer
        then rejected 403 "Local-only gateway access required" []
        else if not good_origin
        then rejected 403 "Invalid Origin" []
        else if asks_first
        then preflight headers
        else last)
      ≡ true
guards-check bad_host bad_peer good_origin asks_first headers last h = ground arith

guard-checks :
    (net : NetLib) (security : SecurityConfig) (scope : Scope)
    → checks (guard net security scope (scope_headers scope.headers)) ≡ true
guard-checks net security scope =
    let headers = scope_headers scope.headers in
    let peer = client_ip scope.client in
    let origin = lookup "origin" headers in
    let host = host_name (or_blank (lookup "host" headers)) in
    guards-check (is_empty host || not (elem host security.allowed_hosts))
      (is_mode security.mode local_only && not (is_local_peer net peer))
      (origin_is_valid net security origin) (is_preflight scope.method origin headers)
      (preflight_headers origin headers) _
      (by_mode-checks security.mode origin (authenticated_principal net headers peer security))

absurd_check : {A : Type 0} {o : Outcome} → o ≡ not_http → checks o ≡ true → A
absurd_check e h = ground arith

-- the scope reaches the application
abbrev pub hands_on : Outcome → Bool
hands_on not_http = true
hands_on (admitted p o) = true
hands_on _ = false

-- What is known of a scope that reaches the application.
pub data Handed (net : NetLib) (security : SecurityConfig) (scope : Scope) : Outcome → Type 0 where
  unchecked : scope.is_http ≡ false → Handed net security scope not_http
  checked :
      {p : String} {o : Option String}
      → IsAdmissible net security scope p o
      → Handed net security scope (admitted p o)

handed :
    (net : NetLib) (security : SecurityConfig) (scope : Scope) (outcome : Outcome)
    → call net security scope ≡ outcome
    → hands_on outcome ≡ true
    → Handed net security scope outcome
handed net security scope not_http e h =
    unchecked (elim (Bool-cases scope.is_http) [ inl http ↦ guarded http | inr other ↦ other ])
  where
    guarded : scope.is_http ≡ true → scope.is_http ≡ false
    guarded http =
        absurd_check (sym (call-http net security scope http) ∙ e) (guard-checks net security scope)
handed net security scope (admitted p o) e h = checked (call-IsAdmissible net security scope p o e)
handed net security scope (rejected status message headers) e h = cc
handed net security scope (preflight headers) e h = cc
handed net security scope raised e h = cc

-- What reaches the application is a scope that is not HTTP, or an HTTP request with a host that is
-- allowed and, if it has one, an origin that is allowed, and for a principal it may speak for:
-- `local` only in local mode and from this computer, `remote` in remote mode, and in authenticated
-- mode one that it proves to be.
pub call-Handed :
    (net : NetLib) (security : SecurityConfig) (scope : Scope)
    → hands_on (call net security scope) ≡ true
    → Handed net security scope (call net security scope)
call-Handed net security scope h = handed net security scope (call net security scope) refl h

principal-absurd : {A : Type 0} {p : String} → principal p ≡ type_error → A
principal-absurd h = ground arith

module _ (net : NetLib) (security : SecurityConfig) (headers : Dict String)
    (peer : Option String) where
  -- The caller presents a token that the comparison with the key cannot take.
  abbrev pub Incomparable : Type 0
  Incomparable =
      (key token : String) × (security.api_key ≡ some key)
      × (bearer_token (lookup "authorization" headers) ≡ some token)
      × ((is_ascii token && is_ascii key) ≡ false)

  check_key-type_error_iff :
      (api_key supplied : Option String)
      → (check_key api_key supplied ≡ type_error) ↔ (
          (key token : String) × (api_key ≡ some key)
          × (supplied ≡ some token)
          × ((is_ascii token && is_ascii key) ≡ false))
  unfolding check_key
  check_key-type_error_iff none supplied = (λ h. cc, λ x. let (key, token, e, e', f) = x in cc)
  check_key-type_error_iff (some key) none = (λ h. cc, λ x. let (key', token, e, e', f) = x in cc)
  check_key-type_error_iff (some key) (some token) = (
    λ h. (key, token, refl, refl, ground arith),
    λ x. let (key', token', e, e', f) = x in ground arith,
  )

  -- Authentication raises exactly when no trusted proxy names the caller, a key is configured, the
  -- caller presents a bearer token, and one of key and token is not ASCII.
  pub authenticated_principal-type_error_iff :
      (authenticated_principal net headers peer security ≡ type_error)
      ↔ ((proxy_identity net headers peer security ≡ none) × Incomparable)
  unfolding authenticated_principal
  authenticated_principal-type_error_iff =
      let token = bearer_token (lookup "authorization" headers) in
      let by_key = check_key-type_error_iff security.api_key token in
      elim (Option-cases (proxy_identity net headers peer security)) [
        | inl e ↦ (λ h. (e, by_key.0 (ground arith)), λ x. rw e (by_key.1 x.1))
        | inr (identity, e) ↦ (λ h. principal-absurd (rw e at h), λ x. ground (arith, x.0))
      ]
