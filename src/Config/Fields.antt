-- ===== src/Config/Fields.antt =====
-- mcp_router/core/config_loader.py: the validators of single fields. `none` is ValueError, of which
-- the text is left out.
use Prim.Native.Char.{Char, code}
use Prim.Native.String
use mcp_mux_2_0_dev.Base.{
  ℕ, String, Option, none, some, [], ◌∷◌, Bool, true, false, ◌&&◌, ◌||◌, not, ◌==◌, leb, nat_beq,
  elem, if◌then◌else◌,
}
use mcp_mux_2_0_dev.Base.Text.{all_chars, casefold, ends_with, has_char, is_empty, strip}

infixl 5 ◌>>=◌
abbrev pub ◌>>=◌ {ℓ κ} : {A : Type ℓ} {B : Type κ} → Option A → (A → Option B) → Option B
none >>= next = none
some value >>= next = next value

-- a test that has to hold
abbrev pub accept {ℓ} : {A : Type ℓ} → Bool → A → Option A
accept true value = some value
accept false value = none

abbrev pub map_some {ℓ κ} : {A : Type ℓ} {B : Type κ} → (A → B) → Option A → Option B
map_some f none = none
map_some f (some a) = some (f a)

-- `urlsplit(url)`; `port` is none if reading it raises ValueError
pub record Url : Type 0 where
  pub scheme : String
  pub netloc : String
  pub hostname : Option String
  pub port : Option (Option ℕ)
  pub path : String
  pub query : String
  pub fragment : String

-- `urllib.parse` and `ipaddress`; `none` is ValueError.
pub record ConfigLib : Type 0 where
  pub urlsplit : String → Option Url
  pub ip_is_loopback : String → Option Bool
  -- `str(ip_network(candidate, strict=False))`
  pub ip_network : String → Option String

abbrev pub is_letter : ℕ → Bool
is_letter c = (leb b'A' c && leb c b'Z') || (leb b'a' c && leb c b'z')

abbrev pub is_decimal : ℕ → Bool
is_decimal c = leb b'0' c && leb c b'9'

abbrev pub is_route_char : Char → Bool
is_route_char ch =
    let c = code ch in
    is_letter c || is_decimal c || nat_beq c b'.' || nat_beq c b'_' || nat_beq c b'-'

-- `ROUTE_NAME_PATTERN`
unfoldable pub is_route_name : String → Bool
unfolding all_chars
is_route_name String.[] = false
is_route_name (String.◌∷◌ c s) =
    (is_letter (code c) || is_decimal (code c)) && all_chars is_route_char s

-- `HEADER_NAME_PATTERN`, for a text that is not empty
abbrev pub is_token_char : Char → Bool
is_token_char ch =
    let c = code ch in
    is_letter c
    || is_decimal c
    || nat_beq c 33
    || (leb 35 c && leb c 39)
    || nat_beq c 42
    || nat_beq c 43
    || nat_beq c 45
    || nat_beq c 46
    || nat_beq c 94
    || nat_beq c 95
    || nat_beq c 96
    || nat_beq c 124
    || nat_beq c 126

abbrev pub is_name_start : ℕ → Bool
is_name_start c = is_letter c || nat_beq c b'_'

-- `ENV_NAME_PATTERN`
unfoldable pub is_env_name : String → Bool
unfolding all_chars
is_env_name String.[] = false
is_env_name (String.◌∷◌ c s) =
    is_name_start (code c) && all_chars (λ d. is_name_start (code d) || is_decimal (code d)) s

abbrev pub is_reserved_route : String → Bool
is_reserved_route name = elem name ("summary" ∷ "metrics" ∷ [])

-- `EndpointBase.validate_path`
unfoldable pub validate_path : String → Option String
unfolding strip is_empty casefold elem has_char is_route_name
validate_path value =
    let path = strip value in
    accept
      (not (is_empty path)
        && not (is_reserved_route (casefold path))
        && not (has_char 47 path)
        && is_route_name path)
      path

-- `EndpointBase.validate_summary`
unfoldable pub validate_summary : String → Option String
unfolding strip is_empty
validate_summary value = let summary = strip value in accept (not (is_empty summary)) summary

-- `_validate_optional_text`
unfoldable pub validate_optional_text : Option String → Option (Option String)
unfolding strip is_empty has_char
validate_optional_text none = some none
validate_optional_text (some value) =
    let candidate = strip value in
    accept (not (is_empty candidate) && not (has_char 0 candidate)) (some candidate)

-- `_validate_header_name`
unfoldable pub validate_header_name : String → Option String
unfolding strip is_empty all_chars
validate_header_name value =
    let candidate = strip value in
    accept (not (is_empty candidate) && all_chars is_token_char candidate) candidate

abbrev pub given : Option String → Bool
given none = false
given (some text) = not (is_empty text)

abbrev pub is_http : String → Bool
is_http scheme = (scheme == "http") || (scheme == "https")

-- `_validate_http_url`
unfoldable pub validate_http_url : ConfigLib → String → Option String
unfolding strip is_empty
validate_http_url lib value =
    let candidate = strip value in
    accept (not (is_empty candidate)) candidate >>= λ c. lib.urlsplit c >>= λ (parsed : Url).
    parsed.port >>= λ port. accept (is_http parsed.scheme && given parsed.hostname) candidate

-- `s.rstrip(".")`
abbrev pub strip_dot : String → String → String
strip_dot dot rest = if is_empty rest && (dot == ".") then "" else String.◌++◌ dot rest

unfoldable pub rstrip_dots : String → String
unfolding is_empty
rstrip_dots String.[] = ""
rstrip_dots (String.◌∷◌ c s) = strip_dot (String.◌∷◌ c "") (rstrip_dots s)

abbrev pub or_false : Option Bool → Bool
or_false none = false
or_false (some b) = b

-- `_is_loopback_host`
unfoldable pub is_loopback_target : ConfigLib → String → Bool
unfolding rstrip_dots casefold ends_with
is_loopback_target lib host =
    let normalized = casefold (rstrip_dots host) in
    (normalized == "localhost")
    || ends_with normalized ".localhost"
    || or_false (lib.ip_is_loopback normalized)
