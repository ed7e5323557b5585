-- ===== src/Config/HeaderFields.antt =====
-- config_loader.py: the validators of headers, of a command and of its environment.
use Prim.Native.String
use mcp_mux_2_0_dev.Base.{
  String, Option, none, some, List, [], ◌∷◌, Bool, ◌&&◌, ◌||◌, not, ◌==◌, elem, any, if◌then◌else◌,
}
use mcp_mux_2_0_dev.Base.Dict.{Dict, insert}
use mcp_mux_2_0_dev.Base.Text.{casefold, has_char, is_empty, is_space, lstrip, starts_with, strip}
use mcp_mux_2_0_dev.Config.Fields.{accept, is_env_name, map_some, validate_header_name, ◌>>=◌}
use mcp_mux_2_0_dev.Config.Names.{keep_first}

-- `_FORBIDDEN_INBOUND_HEADERS`, and the prefix that is forbidden too
abbrev pub is_forbidden_inbound : String → Bool
is_forbidden_inbound name =
    elem name (
      "authorization" ∷ "cookie" ∷ "proxy-authorization" ∷ "host" ∷ "content-length" ∷ "connection"
      ∷ "transfer-encoding" ∷ "keep-alive" ∷ "te" ∷ "trailer" ∷ "upgrade" ∷ "forwarded"
      ∷ "x-forwarded-for" ∷ "x-forwarded-host" ∷ "x-forwarded-proto" ∷ "x-forwarded-user"
      ∷ "x-real-ip" ∷ [])
    || starts_with name "x-forwarded-"

abbrev pub check_inbound : String → Option String
check_inbound raw_name = validate_header_name raw_name >>= λ name.
    accept (not (is_forbidden_inbound (casefold name))) name

-- `EndpointBase.normalize_inbound_headers`
unfoldable pub normalize_inbound_headers : List String → Option (List String)
unfolding keep_first validate_header_name casefold elem starts_with
normalize_inbound_headers names = keep_first check_inbound casefold [] names

-- `value.split(None, 2)[2]`: what follows the first two words
unfoldable pub drop_word : String → String
unfolding is_space lstrip
drop_word String.[] = ""
drop_word (String.◌∷◌ c s) = let rest = drop_word s in if is_space c then lstrip s else rest

-- a value of an `Authorization` header, or none where the header is left out
abbrev pub authorization_value : String → Option String
authorization_value value =
    if casefold value == "bearer"
    then none
    else if starts_with (casefold value) "bearer bearer "
    then some (String.◌++◌ "Bearer " (drop_word (drop_word value)))
    else some value

abbrev pub header_value : String → String → Option String
header_value name value =
    if casefold name == "authorization" then authorization_value value else some value

abbrev pub is_forbidden_injected : String → Bool
is_forbidden_injected name = elem name (
    "host" ∷ "content-length" ∷ "connection" ∷ "transfer-encoding" ∷ "keep-alive" ∷ "te" ∷ "trailer"
    ∷ "upgrade" ∷ [])

abbrev pub with_header : String → Option String → Dict String → Dict String
with_header name none cleaned = cleaned
with_header name (some value) cleaned =
    if is_empty value then cleaned else insert name value cleaned

abbrev pub add_header :
    List String
    → String
    → Option String
    → Dict String
    → (List String → Dict String → Option (Dict String))
    → Option (Dict String)
add_header seen raw none cleaned next = none
add_header seen raw (some name) cleaned next =
    if elem (casefold name) seen || is_forbidden_injected (casefold name)
    then none
    else next (casefold name ∷ seen) (with_header name (header_value name (strip raw)) cleaned)

-- the loop of `EndpointBase.normalize_headers`
unfoldable pub clean_headers : List String → Dict String → Dict String → Option (Dict String)
unfolding validate_header_name casefold elem insert is_empty strip starts_with drop_word
clean_headers seen cleaned [] = some cleaned
clean_headers seen cleaned ((key, raw) ∷ entries) =
    add_header seen raw (validate_header_name key) cleaned (λ s d. clean_headers s d entries)

abbrev pub or_no_headers : Dict String → Option (Dict String)
or_no_headers [] = none
or_no_headers (e ∷ d) = some (e ∷ d)

unfoldable pub normalize_headers : Option (Dict String) → Option (Option (Dict String))
unfolding clean_headers
normalize_headers none = some none
normalize_headers (some entries) = map_some or_no_headers (clean_headers [] [] entries)

abbrev pub is_argument : String → Bool
is_argument argument = not (has_char 0 argument) && not (is_empty (strip argument))

-- `ManagedEndpointConfig.validate_argv`
unfoldable pub validate_argv : Option (List String) → Option (Option (List String))
unfolding any has_char is_empty strip
validate_argv none = some none
validate_argv (some []) = none
validate_argv (some (a ∷ as')) =
    accept (not (any (λ x. not (is_argument x)) (a ∷ as'))) (some (a ∷ as'))

abbrev pub is_bad_variable : String × String → Bool
is_bad_variable (name, value) = not (is_env_name name) || has_char 0 value

-- `ManagedEndpointConfig.validate_env`
unfoldable pub validate_env : Dict String → Option (Dict String)
unfolding any is_env_name has_char
validate_env env = accept (not (any is_bad_variable env)) env
