-- ===== src/Config/Environment.antt =====
-- config_loader.py: `expand_env_vars`, the variables of the environment in the texts of a
-- configuration file, before it is validated. The parsed file is a JSON value here: other scalars
-- of YAML stay as they are, as numbers do.
pub mod Pieces
use Prim.Native.String.{[], ◌∷◌, ◌++◌}
use Prim.Native.Char.{Char, code}
use mcp_mux_2_0_dev.Base.{
  ℕ, zero, suc, ◌+◌, ◌-◌, String, Option, none, some, Bool, true, false, ◌||◌, nat_beq,
  if◌then◌else◌,
}
use mcp_mux_2_0_dev.Base.Dict.{Dict, lookup}
use mcp_mux_2_0_dev.Base.Text.{str_len, remove_prefix}
use mcp_mux_2_0_dev.Config.Fields.{is_name_start, is_decimal, is_env_name}
use mcp_mux_2_0_dev.Json.{
  Json, null, bool, int, float, str, arr, obj, Items, nil, cons, Fields, end, field,
}

-- a match of `ENV_VAR_PATTERN`, with its groups and its length
pub record Variable : Type 0 where
  pub name : String
  pub default : Option String
  pub size : ℕ

-- `[A-Za-z0-9_]`
abbrev pub is_name_char : Char → Bool
is_name_char c = is_name_start (code c) || is_decimal (code c)

abbrev pub with_char : Char → String × String → String × String
with_char c (name, rest) = (c ∷ name, rest)

-- the longest run of such characters, and the text after it
unfoldable pub span_name : String → String × String
span_name [] = ([], [])
span_name (c ∷ s) =
    let rest = span_name s in if is_name_char c then with_char c rest else ([], c ∷ s)

abbrev pub with_first : Char → Option String → Option String
with_first c none = none
with_first c (some s) = some (c ∷ s)

-- the text before the first `}`
unfoldable pub up_to_brace : String → Option String
up_to_brace [] = none
up_to_brace (c ∷ s) =
    let rest = up_to_brace s in if nat_beq (code c) 125 then some [] else with_first c rest

abbrev pub with_default : String → Option String → Option Variable
with_default name none = none
with_default name (some default) =
    some (record { name = name; default = some default; size = str_len name + str_len default + 5 })

abbrev pub default_at : String → String → Option Variable
default_at name [] = none
default_at name (c ∷ s) = if nat_beq (code c) 45 then with_default name (up_to_brace s) else none

-- what follows the name: `}`, or `:-` and a default
abbrev pub after_name : String × String → Option Variable
after_name (name, []) = none
after_name (name, c ∷ s) =
    if nat_beq (code c) 125
    then some (record { name = name; default = none; size = str_len name + 3 })
    else if nat_beq (code c) 58
    then default_at name s
    else none

abbrev pub named : String × String → Option Variable
named (name, rest) = if is_env_name name then after_name (name, rest) else none

abbrev pub after_brace : Option String → Option Variable
after_brace none = none
after_brace (some rest) = named (span_name rest)

-- the match that starts here
unfoldable pub variable_at : String → Option Variable
unfolding span_name up_to_brace str_len is_env_name remove_prefix
variable_at s = after_brace (remove_prefix s "${")

abbrev pub or_default : Option String → Option String → Option String
or_default (some value) default = some value
or_default none default = default

-- `replace`; it raises where there is neither a value nor a default
unfoldable pub value_of : Dict String → Variable → Option String
unfolding lookup
value_of env v = or_default (lookup v.name env) v.default

abbrev pub append_value : Option String → Option String → Option String
append_value (some value) (some rest) = some (value ++ rest)
append_value _ _ = none

-- what a character becomes with the text after it, for the match that starts there
abbrev pub replace_at : Dict String → Char → (ℕ → Option String) → Option Variable → Option String
replace_at env c again none = with_first c (again zero)
replace_at env c again (some v) = append_value (value_of env v) (again (v.size - 1))

-- `ENV_VAR_PATTERN.sub(replace, value)`; `skip` characters belong to a match that was replaced
unfoldable pub expand_text : Dict String → ℕ → String → Option String
unfolding variable_at value_of
expand_text env skip [] = some []
expand_text env (suc skip) (c ∷ s) = expand_text env skip s
expand_text env zero (c ∷ s) =
    replace_at env c (λ skip. expand_text env skip s) (variable_at (c ∷ s))

abbrev pub as_str : Option String → Option Json
as_str none = none
as_str (some s) = some (str s)

abbrev pub as_arr : Option Items → Option Json
as_arr none = none
as_arr (some items) = some (arr items)

abbrev pub as_obj : Option Fields → Option Json
as_obj none = none
as_obj (some fs) = some (obj fs)

abbrev pub both_items : Option Json → Option Items → Option Items
both_items (some item) (some items) = some (cons item items)
both_items _ _ = none

abbrev pub both_fields : String → Option Json → Option Fields → Option Fields
both_fields key (some value) (some fs) = some (field key value fs)
both_fields key _ _ = none

unfoldable mutual
  unfolding expand_text

  -- `expand_env_vars`; `none` is a `ValueError`
  pub expand_env_vars : Dict String → Json → Option Json
  expand_env_vars env (str s) = as_str (expand_text env zero s)
  expand_env_vars env (arr items) = as_arr (expand_items env items)
  expand_env_vars env (obj fs) = as_obj (expand_fields env fs)
  expand_env_vars env null = some null
  expand_env_vars env (bool b) = some (bool b)
  expand_env_vars env (int i) = some (int i)
  expand_env_vars env (float x) = some (float x)

  pub expand_items : Dict String → Items → Option Items
  expand_items env nil = some nil
  expand_items env (cons item items) =
      both_items (expand_env_vars env item) (expand_items env items)

  pub expand_fields : Dict String → Fields → Option Fields
  expand_fields env end = some end
  expand_fields env (field key value fs) =
      both_fields key (expand_env_vars env value) (expand_fields env fs)
