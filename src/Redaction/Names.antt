-- ===== src/Redaction/Names.antt =====
-- mcp_router/core/redaction.py: the names of headers and variables whose values are secrets
-- (`_SECRET_NAME`). The pattern ignores case: names are folded before the search.
use Prim.Native.String.{[], ◌∷◌}
use Prim.Native.Char.{Char, code}
use mcp_mux_2_0_dev.Base.{String, Option, none, some, Bool, true, false, ◌&&◌, ◌||◌, nat_beq}
use mcp_mux_2_0_dev.Base.Text.{casefold, contains, remove_prefix}

-- `[-_.]`
abbrev pub is_separator : Char → Bool
is_separator c = nat_beq (code c) 45 || nat_beq (code c) 95 || nat_beq (code c) 46

-- what is left after `auth` ends the word
abbrev pub ends_word : Option String → Bool
ends_word none = false
ends_word (some []) = true
ends_word (some (c ∷ s)) = is_separator c

-- `(?:^|[-_.])auth(?:$|[-_.])`, where the text before ends in a separator or is empty
unfoldable pub has_auth_word : Bool → String → Bool
unfolding remove_prefix
has_auth_word fresh [] = false
has_auth_word fresh (c ∷ s) =
    (fresh && ends_word (remove_prefix (c ∷ s) "auth")) || has_auth_word (is_separator c) s

abbrev pub has_keyword : String → Bool
has_keyword s =
    contains s "authorization"
    || contains s "credential"
    || contains s "cookie"
    || contains s "token"
    || contains s "secret"
    || contains s "password"
    || contains s "apikey"
    || contains s "api-key"
    || contains s "api_key"
    || has_auth_word true s

-- `_SECRET_NAME.search(name)`
unfoldable pub is_secret_name : String → Bool
unfolding has_auth_word casefold contains
is_secret_name name = has_keyword (casefold name)
