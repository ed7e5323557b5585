-- ===== src/Config/Names.antt =====
-- config_loader.py: the validators of lists of names, hosts, origins and networks.
use Prim.Native.String
use mcp_mux_2_0_dev.Base.{
  String, Option, none, some, List, [], ◌∷◌, ◌&&◌, ◌||◌, not, ◌==◌, elem, if◌then◌else◌,
}
use mcp_mux_2_0_dev.Base.Text.{all_chars, casefold, has_char, is_empty, is_space, strip}
use mcp_mux_2_0_dev.Config.Fields.{ConfigLib, Url, accept, is_http, map_some, ◌>>=◌}

-- `_validate_name_list`, with the names that were seen
unfoldable pub distinct_names : List String → List String → Option (List String)
unfolding strip is_empty elem
distinct_names seen [] = some []
distinct_names seen (item ∷ items) =
    let candidate = strip item in
    let rest = distinct_names (candidate ∷ seen) items in
    if is_empty candidate || elem candidate seen then none else map_some (λ l. candidate ∷ l) rest

abbrev pub validate_name_list : Option (List String) → Option (Option (List String))
validate_name_list none = some none
validate_name_list (some names) = map_some (λ l. some l) (distinct_names [] names)

-- one entry: it fails its check, or its key was seen, or it is kept
abbrev pub keep_one :
    (String → String)
    → List String
    → Option String
    → (List String → Option (List String))
    → Option (List String)
keep_one key seen none next = none
keep_one key seen (some cleaned) next =
    if elem (key cleaned) seen
    then next seen
    else map_some (λ l. cleaned ∷ l) (next (key cleaned ∷ seen))

-- The loops that keep the first of the entries with one key, each after its check.
unfoldable pub keep_first :
    (String → Option String) → (String → String) → List String → List String → Option (List String)
unfolding elem
keep_first check key seen [] = some []
keep_first check key seen (item ∷ items) =
    keep_one key seen (check item) (λ s. keep_first check key s items)

abbrev pub check_host : String → Option String
check_host host =
    let candidate = casefold (strip host) in
    accept
      (not (
        is_empty candidate
        || (candidate == "*")
        || has_char 47 candidate
        || not (all_chars (λ c. not (is_space c)) candidate)))
      candidate

abbrev pub same : String → String
same s = s

-- `SecurityConfig.validate_allowed_hosts`
unfoldable pub validate_allowed_hosts : List String → Option (List String)
unfolding keep_first casefold strip is_empty has_char all_chars
validate_allowed_hosts [] = none
validate_allowed_hosts (host ∷ hosts) = keep_first check_host same [] (host ∷ hosts)

-- one origin of `SecurityConfig.validate_allowed_origins`
abbrev pub check_origin : ConfigLib → String → Option String
check_origin lib origin =
    let candidate = strip origin in
    accept (not (is_empty candidate || (candidate == "*"))) candidate >>= λ c.
    lib.urlsplit c >>= λ (parsed : Url).
    accept
      (is_http parsed.scheme
        && not (is_empty parsed.netloc)
        && (is_empty parsed.path || (parsed.path == "/"))
        && is_empty parsed.query
        && is_empty parsed.fragment)
      (String.◌++◌ (casefold parsed.scheme) (String.◌++◌ "://" (casefold parsed.netloc)))

unfoldable pub validate_allowed_origins : ConfigLib → List String → Option (List String)
unfolding keep_first strip is_empty casefold
validate_allowed_origins lib origins = keep_first (check_origin lib) same [] origins

-- `SecurityConfig.validate_trusted_proxies`
unfoldable pub validate_trusted_proxies : ConfigLib → List String → Option (List String)
unfolding keep_first strip
validate_trusted_proxies lib networks =
    keep_first (λ network. lib.ip_network (strip network)) same [] networks
