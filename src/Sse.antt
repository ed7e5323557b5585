-- ===== src/Sse.antt =====
-- mcp_router/core/sse.py: server-sent events, read line by line, with the payload of the data lines
-- rewritten. Rendering stops at the text, before its UTF-8 bytes.
pub mod Shape
pub mod Payload
mod Tests
use Prim.Native.String
use mcp_mux_2_0_dev.Base.{
  ℕ, zero, suc, ◌+◌, String, Option, none, some, List, [], ◌∷◌, ◌++◌, map, Bool, true, false, ◌||◌,
  ◌==◌, nat_beq, length, if◌then◌else◌,
}
use mcp_mux_2_0_dev.Base.Text.{starts_with, partition, split, join, is_empty, str_drop}

-- The loop of `iter_sse_events`, with the lines of the event being read.
unfoldable pub read_events : List String → List String → List (List String)
read_events [] [] = []
read_events (line ∷ event_lines) [] = (line ∷ event_lines) ∷ []
read_events event_lines (line ∷ lines) =
    let closed = event_lines ∷ read_events [] lines in
    let longer = read_events (event_lines ++ line ∷ []) lines in
    if line == "" then closed else longer

unfoldable pub iter_sse_events : List String → List (List String)
unfolding read_events
iter_sse_events lines = read_events [] lines

abbrev pub before : String → List String → List String
before line [] = []
before line (l ∷ ls) = line ∷ l ∷ ls

-- The lines up to the last blank one: an event that a fault cuts off is not read.
unfoldable pub up_to_blank : List String → List String
up_to_blank [] = []
up_to_blank (line ∷ lines) =
    let rest = up_to_blank lines in if line == "" then line ∷ rest else before line rest

abbrev pub whole_lines : Option String → List String → List String
whole_lines none lines = lines
whole_lines (some fault) lines = up_to_blank lines

unfoldable pub render_sse_event : List String → String
render_sse_event lines = String.◌++◌ (join "\n" lines) "\n\n"

-- `raw_value[1:] if raw_value.startswith(" ") else raw_value`
abbrev pub drop_space : String → String
drop_space raw = if starts_with raw " " then str_drop 1 raw else raw

abbrev pub field_value : String × Option String → Option String
field_value (field, none) = if field == "data" then some "" else none
field_value (field, some raw) = if field == "data" then some (drop_space raw) else none

-- the value of a data line; any other line has none
unfoldable pub data_value : String → Option String
data_value line = if starts_with line ":" then none else field_value (partition b':' line)

-- `data_indexes` and `data_values`, from the line with the given index on
abbrev pub collect : ℕ → Option String → List ℕ × List String → List ℕ × List String
collect index none found = found
collect index (some value) (indexes, values) = (index ∷ indexes, value ∷ values)

unfoldable pub find_data : ℕ → List String → List ℕ × List String
find_data index [] = ([], [])
find_data index (line ∷ lines) = collect index (data_value line) (find_data (suc index) lines)

-- `f"data: {value}" if value else "data:"`
unfoldable pub data_line : String → String
data_line value = if is_empty value then "data:" else String.◌++◌ "data: " value

-- `output[index] = line`
unfoldable pub set_line : ℕ → String → List String → List String
set_line index line [] = []
set_line zero line (x ∷ xs) = line ∷ xs
set_line (suc index) line (x ∷ xs) = x ∷ set_line index line xs

-- `for index, line in zip(data_indexes, replacement): output[index] = line`
unfoldable pub set_lines : List ℕ → List String → List String → List String
unfolding set_line
set_lines [] replacement output = output
set_lines (index ∷ indexes) [] output = output
set_lines (index ∷ indexes) (line ∷ replacement) output =
    set_lines indexes replacement (set_line index line output)

unfoldable pub has_index : ℕ → List ℕ → Bool
has_index i [] = false
has_index i (j ∷ js) = nat_beq i j || has_index i js

-- The last loop: the replacement at the first data line, and no other data line.
unfoldable pub splice : ℕ → ℕ → List ℕ → List String → List String → List String
unfolding has_index
splice index first indexes replacement [] = []
splice index first indexes replacement (line ∷ lines) =
    let rest = splice (suc index) first indexes replacement lines in
    (if nat_beq index first then replacement else [])
    ++ (if has_index index indexes then rest else line ∷ rest)

abbrev pub rewrite_data : (String → String) → List String → List ℕ × List String → List String
rewrite_data transform_data lines ([], values) = lines
rewrite_data transform_data lines (first ∷ indexes, values) =
    let original = join "\n" values in
    let transformed = transform_data original in
    let replacement = map data_line (split b'\n' transformed) in
    if transformed == original
    then lines
    else if nat_beq (length replacement) (length (first ∷ indexes))
    then set_lines (first ∷ indexes) replacement lines
    else splice 0 first (first ∷ indexes) replacement lines

unfoldable pub transform_sse_event : List String → (String → String) → List String
unfolding data_value find_data data_line set_lines splice
transform_sse_event lines transform_data = rewrite_data transform_data lines (find_data 0 lines)
