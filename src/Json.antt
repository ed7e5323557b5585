-- ===== src/Json.antt =====
-- JSON values as `json.loads` returns them (mcp_router/core/protocol.py, parse_strict_json_text,
-- and mcp_router/core/policy.py, project_json_text). Floating-point numbers keep their text. The
-- codecs between bytes, text and values belong to Python's runtime, and are a parameter.
use mcp_mux_2_0_dev.Base.{
  ℕ, String, Option, none, some, List, Bool, ◌==◌, ◌≡◌, eq_iff, arith, if◌then◌else◌,
}
use mcp_mux_2_0_dev.Base.Int.{ℤ}

mutual
  pub data Json : Type 0 where
    null : Json
    bool : Bool → Json
    int : ℤ → Json
    float : String → Json
    str : String → Json
    arr : Items → Json
    obj : Fields → Json

  pub data Items : Type 0 where
    nil : Items
    cons : Json → Items → Items

  -- an object's members, in insertion order, each key once
  pub data Fields : Type 0 where
    end : Fields
    field : String → Json → Fields → Fields

-- `d.get(key)`
unfoldable pub get : String → Fields → Option Json
get key end = none
get key (field k v fs) = if k == key then some v else get key fs

-- `d[key] = v` at a key that is there
unfoldable pub put : String → Json → Fields → Fields
put key v end = end
put key v (field k w fs) = if k == key then field k v fs else field k w (put key v fs)

-- `isinstance(v, str) and v`: a non-empty text
abbrev pub name_of : Option Json → Option String
name_of (some (str s)) = if s == "" then none else some s
name_of _ = none

pub record Codec : Type 0 where
  -- `body.decode("utf-8")`
  pub decode_utf8 : List ℕ → Option String
  -- `json.loads`, with the constants `NaN` and `Infinity` refused
  pub loads_strict : String → Option Json
  -- `json.loads`
  pub loads : String → Option Json
  -- `json.dumps` with compact separators
  pub dumps : Json → String
  -- `base64.b64decode(s, validate=True).decode("utf-8")`
  pub decode_base64 : String → Option String

-- an item stands in an array
pub data Occurs (j : Json) : Items → Type 0 where
  first : {k : Json} {items : Items} → k ≡ j → Occurs j (cons k items)
  later : {k : Json} {items : Items} → Occurs j items → Occurs j (cons k items)

-- a new value for a key that may be there
abbrev pub replaced : Option Json → Json → Option Json
replaced none v = none
replaced (some w) v = some v

pub get-put :
    (key k : String) (v : Json) (fs : Fields)
    → get k (put key v fs) ≡ (if key == k then replaced (get k fs) v else get k fs)
unfolding get put
get-put key k v end = ground arith
get-put key k v (field i w fs) =
    ground (arith, eq_iff i k, eq_iff i key, eq_iff key k, get-put key k v fs)
