-- ===== src/Server/HeaderTests.antt =====
-- Concrete headers on their way to an upstream service of server.py and back.
use mcp_mux_2_0_dev.Base.{String, ◌≡◌, refl, some, List, [], ◌∷◌, false}
use mcp_mux_2_0_dev.Base.Dict.{lookup, insert}
use mcp_mux_2_0_dev.Server.Transit.{safe_response_headers}

abbrev response : List (String × String)
response = ("x-note", "plain") ∷ ("x-leak", "my secret") ∷ []

keeps_note :
    lookup "x-note" (safe_response_headers ("secret" ∷ []) response false false) ≡ some "plain"
unfolding safe_response_headers lookup insert
keeps_note = refl
