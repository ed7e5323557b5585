-- ===== src/Config/EnvironmentTests.antt =====
-- Texts of a configuration file through expand_env_vars of config_loader.py.
use mcp_mux_2_0_dev.Base.{String, none, some, List, [], ◌∷◌, ◌≡◌, refl}
use mcp_mux_2_0_dev.Base.Dict.{Dict}
use mcp_mux_2_0_dev.Base.Text.{has_char}
use mcp_mux_2_0_dev.Config.Fields.{is_env_name}
use mcp_mux_2_0_dev.Json.{str, null, obj, field, end, arr, cons, nil}
use mcp_mux_2_0_dev.Config.Environment.{expand_text, expand_env_vars}
use mcp_mux_2_0_dev.Config.Environment.Pieces.{
  Piece, plain, required, defaulted, write_all, meanings, expand_text-write_all,
}

abbrev environment : Dict String
environment = ("HOST", "${PORT}") ∷ []

abbrev address : List Piece
address = plain "http://" ∷ required "HOST" ∷ plain ":" ∷ defaulted "PORT" "90" ∷ []

-- a value is not expanded again, and what is no variable stays
expands :
    expand_env_vars environment
      (obj (field "${HOST}" (arr (cons (str "a ${HOST}$ ${1} ${") (cons null nil))) end))
    ≡ some (obj (field "${HOST}" (arr (cons (str "a ${PORT}$ ${1} ${") (cons null nil))) end))
unfolding expand_env_vars
expands = refl

-- a variable with neither a value nor a default
refuses : expand_env_vars environment (str "x ${NAME}") ≡ none
unfolding expand_env_vars
refuses = refl

expand_text-write_all_example :
    expand_text environment 0 (write_all address) ≡ meanings environment address
unfolding is_env_name has_char
expand_text-write_all_example =
    expand_text-write_all environment address (refl, (refl, (refl, ((refl, refl), tt))))
