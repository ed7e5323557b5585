-- ===== src/Redaction/Sources.antt =====
-- mcp_router/core/redaction.py: the secrets of a configuration, `SecretRedactor.from_router_config`.
use mcp_mux_2_0_dev.Base.{
  String, Option, none, some, List, [], ◌∷◌, ◌++◌, true, false, ◌||◌, ◌==◌, ◌≡◌, refl, arith, ap,
  eq_iff, eq_refl, elem, ◌⊎◌, inl, inr, Bool-cases, if◌then◌else◌,
}
use mcp_mux_2_0_dev.Base.Dict.{Dict}
use mcp_mux_2_0_dev.Base.Text.{is_empty, partition}
use mcp_mux_2_0_dev.Config.{
  RouterConfig, Endpoint, remote_endpoint, managed_endpoint, EndpointBase, ManagedFields, base,
}
use mcp_mux_2_0_dev.Redaction.{
  join_set, join_all, token_of, expand, insert_by_length, sort_by_length, known_values,
}
use mcp_mux_2_0_dev.Redaction.Names.{is_secret_name}

abbrev pub secrets_in : Dict String → List String
secrets_in [] = []
secrets_in ((name, value) ∷ d) =
    let rest = secrets_in d in if is_secret_name name then value ∷ rest else rest

abbrev pub secrets_of_headers : Option (Dict String) → List String
secrets_of_headers none = []
secrets_of_headers (some headers) = secrets_in headers

abbrev pub secrets_of_env : Endpoint → List String
secrets_of_env (remote_endpoint b) = []
secrets_of_env (managed_endpoint b m) = secrets_in m.env

-- the values that the loop over the endpoints appends
unfoldable pub secrets_of : List Endpoint → List String
unfolding is_secret_name
secrets_of [] = []
secrets_of (e ∷ es) = secrets_of_headers (base e).headers ++ (secrets_of_env e ++ secrets_of es)

abbrev pub own_key : Option String → List String
own_key none = []
own_key (some key) = key ∷ []

-- `from_router_config`, the known values of the redactor
unfoldable pub from_router_config : RouterConfig → List String
unfolding known_values secrets_of
from_router_config config =
    known_values (own_key config.security.api_key ++ secrets_of config.endpoints)

elem-join_set :
    (v new : String) (values : List String)
    → elem v (join_set new values) ≡ (v == new || elem v values)
unfolding elem
elem-join_set v new values = elim (Bool-cases (elem new values)) [
  | inl e ↦ rw e (elim (Bool-cases (v == new)) [
    | inl g ↦ ground (arith, eq_iff v new, ap (λ x. elem x values) ((eq_iff v new).0 g), e, g)
    | inr g ↦ ground (arith, g)
  ])
  | inr e ↦ rw e refl
]

elem-join_all :
    (v : String) (new values : List String)
    → elem v values ≡ true
    → elem v (join_all new values) ≡ true
elem-join_all v [] values h = h
elem-join_all v (w ∷ new) values h =
    ground (arith, elem-join_set v w (join_all new values), elem-join_all v new values h)

elem-expand :
    (v : String) (values : List String)
    → elem v values ≡ true
    → is_empty v ≡ false
    → elem v (expand values) ≡ true
unfolding elem expand
elem-expand v [] h full = cc
elem-expand v (w ∷ values) h full = elim (Bool-cases (v == w)) [
  | inl e ↦ ground (
    arith,
    eq_iff v w,
    ap is_empty ((eq_iff v w).0 e),
    full,
    e,
    elem-join_set v w (join_all (token_of (partition 32 w)) (expand values)),
  )
  | inr e ↦ ground (
    arith,
    e,
    h,
    elem-expand v values,
    elem-join_set v w (join_all (token_of (partition 32 w)) (expand values)),
    elem-join_all v (token_of (partition 32 w)) (expand values),
  )
]

elem-insert_by_length :
    (v w : String) (values : List String)
    → elem v (insert_by_length w values) ≡ (v == w || elem v values)
unfolding elem insert_by_length
elem-insert_by_length v w [] = refl
elem-insert_by_length v w (x ∷ values) = ground (arith, elem-insert_by_length v w values)

elem-sort_by_length :
    (v : String) (values : List String) → elem v (sort_by_length values) ≡ elem v values
unfolding elem sort_by_length
elem-sort_by_length v [] = refl
elem-sort_by_length v (w ∷ values) =
    ground (arith, elem-insert_by_length v w (sort_by_length values), elem-sort_by_length v values)

elem-known_values :
    (v : String) (values : List String)
    → elem v values ≡ true
    → is_empty v ≡ false
    → elem v (known_values values) ≡ true
unfolding known_values
elem-known_values v values h full =
    ground (arith, elem-sort_by_length v (expand values), elem-expand v values h full)

elem-append : (v : String) (xs ys : List String) → elem v (xs ++ ys) ≡ (elem v xs || elem v ys)
unfolding elem
elem-append v [] ys = refl
elem-append v (x ∷ xs) ys = ground (arith, elem-append v xs ys)

-- an entry of a dictionary under a secret name
pub data Holds (v : String) : Dict String → Type 0 where
  first :
      {name w : String} {d : Dict String}
      → is_secret_name name ≡ true
      → w ≡ v
      → Holds v ((name, w) ∷ d)
  later : {name w : String} {d : Dict String} → Holds v d → Holds v ((name, w) ∷ d)

-- a secret that an endpoint of the configuration has
pub data Configured (v : String) : List Endpoint → Type 0 where
  injected :
      {e : Endpoint} {es : List Endpoint} (headers : Dict String)
      → (base e).headers ≡ some headers
      → Holds v headers
      → Configured v (e ∷ es)
  variable :
      {b : EndpointBase} {m : ManagedFields} {es : List Endpoint}
      → Holds v m.env
      → Configured v (managed_endpoint b m ∷ es)
  elsewhere : {e : Endpoint} {es : List Endpoint} → Configured v es → Configured v (e ∷ es)

elem-secrets_in : (v : String) {d : Dict String} → Holds v d → elem v (secrets_in d) ≡ true
unfolding elem
elem-secrets_in v (first {name} {w} named same) = rw named (ground (arith, eq_iff v w, same))
elem-secrets_in v (later {name} {w} {d} held) = ground (arith, elem-secrets_in v held)

elem-secrets_of :
    (v : String) {es : List Endpoint} → Configured v es → elem v (secrets_of es) ≡ true
unfolding secrets_of
elem-secrets_of v (injected {e} {es} headers given held) = ground (
  arith,
  elem-append v (secrets_of_headers (base e).headers) (secrets_of_env e ++ secrets_of es),
  ap (λ o. elem v (secrets_of_headers o)) given,
  elem-secrets_in v held,
)
elem-secrets_of v (variable {b} {m} {es} held) = ground (
  arith,
  elem-append v (secrets_of_headers b.headers) (secrets_in m.env ++ secrets_of es),
  elem-append v (secrets_in m.env) (secrets_of es),
  elem-secrets_in v held,
)
elem-secrets_of v (elsewhere {e} {es} there) = ground (
  arith,
  elem-append v (secrets_of_headers (base e).headers) (secrets_of_env e ++ secrets_of es),
  elem-append v (secrets_of_env e) (secrets_of es),
  elem-secrets_of v there,
)

-- The redactor of a configuration knows every secret in it that is not empty: the gateway's own
-- key, and each header that is injected upstream and each variable of a managed process whose
-- name is a secret one.
pub from_router_config-Configured :
    (config : RouterConfig) (v : String)
    → (config.security.api_key ≡ some v) ⊎ Configured v config.endpoints
    → is_empty v ≡ false
    → elem v (from_router_config config) ≡ true
unfolding from_router_config elem
from_router_config-Configured config v (inl key) full =
    elem-known_values v (own_key config.security.api_key ++ secrets_of config.endpoints)
      (ground (
        arith,
        elem-append v (own_key config.security.api_key) (secrets_of config.endpoints),
        ap (λ o. elem v (own_key o)) key,
        eq_refl v,
      ))
      full
from_router_config-Configured config v (inr there) full =
    elem-known_values v (own_key config.security.api_key ++ secrets_of config.endpoints)
      (ground (
        arith,
        elem-append v (own_key config.security.api_key) (secrets_of config.endpoints),
        elem-secrets_of v there,
      ))
      full
