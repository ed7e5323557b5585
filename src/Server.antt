-- ===== src/Server.antt =====
-- mcp_router/server.py: the router. Reading the body of a POST request.
pub mod Body
pub mod Leases
pub mod Checks
pub mod Dispatch
pub mod Activation
pub mod Ownership
pub mod Authority
pub mod Transit
pub mod Summary
pub mod Registry
pub mod Reload
mod Tests
mod ReloadTests
mod HeaderTests
use Prim.Native.Char.{Char, code}
use Prim.Native.String
use mcp_mux_2_0_dev.Base.{
  ℕ, zero, suc, ◌+◌, ◌-◌, ◌*◌, String, Option, none, some, List, [], ◌∷◌, ◌++◌, Bool, true, false,
  ◌&&◌, not, leb, ltb, nat_beq, length, ◌==◌, if◌then◌else◌,
}
use mcp_mux_2_0_dev.Base.Int.{ℤ, pos, negsuc}
use mcp_mux_2_0_dev.Base.Text.{is_empty, strip, casefold, partition}
use mcp_mux_2_0_dev.Json.{Codec}
use mcp_mux_2_0_dev.Protocol.{
  Headers, find_folded, ParsedRequest, ProtocolEra, ProtocolRequestError, Result, ok, err,
  parse_jsonrpc_request,
}
use mcp_mux_2_0_dev.Protocol.Validate.{validate_protocol_request}

abbrev pub media_type : String × Option String → String
media_type (before, after) = casefold (strip before)

-- `_is_json_content_type`
unfoldable pub is_json_content_type : Option String → Bool
unfolding partition strip casefold is_empty
is_json_content_type none = false
is_json_content_type (some value) =
    if is_empty value then false else media_type (partition 59 value) == "application/json"

abbrev pub is_digit : Char → Bool
is_digit c = leb 48 (code c) && leb (code c) 57

-- the digits of `int(text)`, with single underscores between them; `ended` says whether the text
-- may end here
unfoldable pub read_digits : ℕ → Bool → String → Option ℕ
read_digits value ended String.[] = if ended then some value else none
read_digits value ended (String.◌∷◌ c rest) =
    let more = read_digits (value * 10 + (code c - 48)) true rest in
    let joined = read_digits value false rest in
    if is_digit c then more else if ended && nat_beq (code c) 95 then joined else none

abbrev pub negated : Option ℕ → Option ℤ
negated none = none
negated (some zero) = some (pos 0)
negated (some (suc n)) = some (negsuc n)

abbrev pub positive : Option ℕ → Option ℤ
positive none = none
positive (some n) = some (pos n)

abbrev pub read_signed : String → Option ℤ
read_signed String.[] = none
read_signed (String.◌∷◌ c rest) =
    if nat_beq (code c) 43
    then positive (read_digits 0 false rest)
    else if nat_beq (code c) 45
    then negated (read_digits 0 false rest)
    else positive (read_digits 0 false (String.◌∷◌ c rest))

unfoldable pub count_digits : String → ℕ
count_digits String.[] = 0
count_digits (String.◌∷◌ c rest) = (if is_digit c then 1 else 0) + count_digits rest

-- `int(text)`, exact on Latin-1; `none` is ValueError, also for more than 4300 digits, which is
-- Python's limit
unfoldable pub parse_int : String → Option ℤ
unfolding strip read_digits count_digits
parse_int text = if ltb 4300 (count_digits text) then none else read_signed (strip text)

pub data BodyRefusal : Type 0 where
  -- status 415
  not_json_type : BodyRefusal
  -- status 400
  bad_content_length : BodyRefusal
  -- status 413
  too_large : BodyRefusal
  -- the status of the error
  bad_request : ProtocolRequestError → BodyRefusal

pub data PostBody : Type 0 where
  refused : BodyRefusal → PostBody
  accepted : List ℕ → ParsedRequest → ProtocolEra → PostBody

-- The loop over the stream's chunks: the bytes, unless they get more than the limit.
unfoldable pub read_chunks : ℕ → List ℕ → List (List ℕ) → Option (List ℕ)
read_chunks limit body [] = some body
read_chunks limit body (chunk ∷ chunks) =
    let rest = read_chunks limit (body ++ chunk) chunks in
    if ltb limit (length body + length chunk) then none else rest

abbrev pub with_era : List ℕ → ParsedRequest → Result ProtocolEra → PostBody
with_era body parsed (err e) = refused (bad_request e)
with_era body parsed (ok era) = accepted body parsed era

abbrev pub with_request : Codec → Headers → Bool → List ℕ → Result ParsedRequest → PostBody
with_request codec headers allow_headerless_legacy body (err e) = refused (bad_request e)
with_request codec headers allow_headerless_legacy body (ok parsed) =
    with_era body parsed (validate_protocol_request codec parsed headers allow_headerless_legacy)

abbrev pub with_body : Codec → Headers → Bool → ℕ → Option (List ℕ) → PostBody
with_body codec headers allow_headerless_legacy limit none = refused too_large
with_body codec headers allow_headerless_legacy limit (some body) =
    if ltb limit (length body)
    then refused too_large
    else with_request codec headers allow_headerless_legacy body (parse_jsonrpc_request codec body)

-- what a declared length is refused for
abbrev pub check_declared : ℕ → Option ℤ → Option BodyRefusal
check_declared limit none = some bad_content_length
check_declared limit (some (negsuc n)) = some bad_content_length
check_declared limit (some (pos n)) = if ltb limit n then some too_large else none

abbrev pub check_content_length : ℕ → Option String → Option BodyRefusal
check_content_length limit none = none
check_content_length limit (some text) = check_declared limit (parse_int text)

-- `_read_post_body`; the chunks are those of `request.stream()`
unfoldable pub read_post_body : Codec → ℕ → Headers → Bool → List (List ℕ) → PostBody
unfolding is_json_content_type parse_int read_chunks parse_jsonrpc_request validate_protocol_request
    find_folded
read_post_body codec limit headers allow_headerless_legacy chunks =
    if not (is_json_content_type (find_folded "content-type" headers))
    then refused not_json_type
    else elim (check_content_length limit (find_folded "content-length" headers)) [
      | some refusal ↦ refused refusal
      | none ↦ with_body codec headers allow_headerless_legacy limit (read_chunks limit [] chunks)
    ]

-- `_is_stale_json_body`; the length of the body, and the headers of the response
abbrev pub is_below : ℕ → Option ℤ → Bool
is_below size none = false
is_below size (some (negsuc n)) = false
is_below size (some (pos n)) = ltb 0 n && ltb size n

unfoldable pub is_stale_json_body : ℕ → Headers → Bool
unfolding find_folded parse_int
is_stale_json_body size headers = elim (find_folded "content-length" headers) [
  | none ↦ false
  | some declared ↦ is_below size (parse_int declared)
]
