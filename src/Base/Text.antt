-- ===== src/Base/Text.antt =====
-- The methods of Python's `str` that the gateway uses, by recursion over the characters.
use Prim.Native.Nat.{ℕ, zero, suc, ◌-◌, ◌*◌}
use Prim.Native.Char.{Char, code}
use Prim.Native.String.{String, [], ◌∷◌, ◌++◌, char_at}
use mathlib.Core.Bool.{Bool, true, false, ◌&&◌, ◌||◌}
use mathlib.Core.Option.{Option, none, some}
use mathlib.Core.List.{List}
use text.Mathlib.Text.{◌==◌}
use mcp_mux_2_0_dev.Base.Tests.{leb, nat_beq, if◌then◌else◌}

-- `len(s)`
unfoldable pub str_len : String → ℕ
str_len [] = 0
str_len (c ∷ s) = suc (str_len s)

-- `not s`
unfoldable pub is_empty : String → Bool
is_empty [] = true
is_empty (c ∷ s) = false

-- `c.isspace()`
unfoldable pub is_space : Char → Bool
is_space ch =
    let c = code ch in
    (leb 9 c && leb c 13)
    || (leb 28 c && leb c 32)
    || nat_beq c 0x85
    || nat_beq c 0xa0
    || nat_beq c 0x1680
    || (leb 0x2000 c && leb c 0x200a)
    || nat_beq c 0x2028
    || nat_beq c 0x2029
    || nat_beq c 0x202f
    || nat_beq c 0x205f
    || nat_beq c 0x3000

unfoldable pub lstrip : String → String
unfolding is_space
lstrip [] = []
lstrip (c ∷ s) = let rest = lstrip s in if is_space c then rest else c ∷ s

unfoldable pub rstrip : String → String
unfolding is_space is_empty
rstrip [] = []
rstrip (c ∷ s) = let rest = rstrip s in if is_space c && is_empty rest then [] else c ∷ rest

-- `s.strip()`
unfoldable pub strip : String → String
unfolding lstrip rstrip
strip s = rstrip (lstrip s)

-- `s.casefold()` of one character: exact on Latin-1, which is what header names are decoded
-- from, and on the two other characters that fold to an ASCII letter.
unfoldable pub fold_char : Char → String
fold_char ch =
    let c = code ch in
    if leb 65 c && leb c 90
    then char_at "abcdefghijklmnopqrstuvwxyz" (c - 65) ∷ []
    else if leb 0xc0 c && leb c 0xd6
    then char_at "àáâãäåæçèéêëìíîïðñòóôõö" ((c - 0xc0) * 2) ∷ []
    else if leb 0xd8 c && leb c 0xde
    then char_at "øùúûüýþ" ((c - 0xd8) * 2) ∷ []
    else if nat_beq c 0xdf
    then "ss"
    else if nat_beq c 0xb5
    then "μ"
    else if nat_beq c 0x212a
    then "k"
    else if nat_beq c 0x17f
    then "s"
    else ch ∷ []

unfoldable pub casefold : String → String
unfolding fold_char
casefold [] = []
casefold (c ∷ s) = fold_char c ++ casefold s

-- `s.startswith(p)`
unfoldable pub starts_with : String → String → Bool
starts_with s [] = true
starts_with [] (d ∷ p) = false
starts_with (c ∷ s) (d ∷ p) = nat_beq (code c) (code d) && starts_with s p

-- `s.removeprefix(p)`, and `s[len(p):]` where `s` starts with `p`
unfoldable pub remove_prefix : String → String → Option String
remove_prefix s [] = some s
remove_prefix [] (d ∷ p) = none
remove_prefix (c ∷ s) (d ∷ p) = if nat_beq (code c) (code d) then remove_prefix s p else none

-- `s.partition(sep)` at a separator of one character: the text before it, and the text after it
-- if it occurs.
abbrev pub with_head : Char → String × Option String → String × Option String
with_head c (before, after) = (c ∷ before, after)

unfoldable pub partition : ℕ → String → String × Option String
partition sep [] = ([], none)
partition sep (c ∷ s) =
    let rest = partition sep s in if nat_beq (code c) sep then ([], some s) else with_head c rest

-- `s.split(sep)` at a separator of one character
abbrev pub prepend : Char → List String → List String
prepend c List.[] = List.◌∷◌ (c ∷ []) List.[]
prepend c (List.◌∷◌ w ws) = List.◌∷◌ (c ∷ w) ws

unfoldable pub split : ℕ → String → List String
split sep [] = List.◌∷◌ [] List.[]
split sep (c ∷ s) =
    let rest = split sep s in if nat_beq (code c) sep then List.◌∷◌ [] rest else prepend c rest

-- `sep.join(parts)`
unfoldable pub join : String → List String → String
join sep List.[] = []
join sep (List.◌∷◌ w List.[]) = w
join sep (List.◌∷◌ w (List.◌∷◌ v ws)) = w ++ (sep ++ join sep (List.◌∷◌ v ws))

-- `all(test(c) for c in s)`
unfoldable pub all_chars : (Char → Bool) → String → Bool
all_chars p [] = true
all_chars p (c ∷ s) = p c && all_chars p s

-- `x in s` for one character
unfoldable pub has_char : ℕ → String → Bool
has_char n [] = false
has_char n (c ∷ s) = nat_beq (code c) n || has_char n s

-- `s.endswith(p)`
unfoldable pub ends_with : String → String → Bool
unfolding is_empty
ends_with [] p = is_empty p
ends_with (c ∷ s) p = (c ∷ s) == p || ends_with s p

-- `s[n:]`
unfoldable pub str_drop : ℕ → String → String
str_drop zero s = s
str_drop (suc n) [] = []
str_drop (suc n) (c ∷ s) = str_drop n s

-- `s[:n]`
unfoldable pub str_take : ℕ → String → String
str_take zero s = []
str_take (suc n) [] = []
str_take (suc n) (c ∷ s) = c ∷ str_take n s

-- `s.rpartition(sep)` at a separator of one character: the texts around its last occurrence
abbrev pub before_last : ℕ → Char → String → Option (String × String) → Option (String × String)
before_last sep c s none = if nat_beq (code c) sep then some ([], s) else none
before_last sep c s (some (before, after)) = some (c ∷ before, after)

unfoldable pub rpartition : ℕ → String → Option (String × String)
rpartition sep [] = none
rpartition sep (c ∷ s) = before_last sep c s (rpartition sep s)

-- `s.isdigit()`, exact on Latin-1
unfoldable pub is_digits : String → Bool
unfolding all_chars
is_digits [] = false
is_digits (c ∷ s) =
    all_chars
      (λ (d : Char).
        (leb 48 (code d) && leb (code d) 57)
        || nat_beq (code d) 0xb2
        || nat_beq (code d) 0xb3
        || nat_beq (code d) 0xb9)
      (c ∷ s)

-- `s.isascii()`
unfoldable pub is_ascii : String → Bool
unfolding all_chars
is_ascii s = all_chars (λ (c : Char). leb (code c) 127) s

-- `s.upper()` of one character, exact where the result is ASCII
unfoldable pub upper_char : Char → Char
upper_char ch =
    let c = code ch in
    if leb 97 c && leb c 122
    then char_at "ABCDEFGHIJKLMNOPQRSTUVWXYZ" (c - 97)
    else if nat_beq c 0x131
    then char_at "I" 0
    else if nat_beq c 0x17f
    then char_at "S" 0
    else ch

unfoldable pub upper : String → String
unfolding upper_char
upper [] = []
upper (c ∷ s) = upper_char c ∷ upper s

-- `p in s`
unfoldable pub contains : String → String → Bool
unfolding starts_with is_empty
contains [] p = is_empty p
contains (c ∷ s) p = starts_with (c ∷ s) p || contains s p

-- the characters that end a line for `s.splitlines()`
unfoldable pub is_line_end : Char → Bool
is_line_end c =
    (leb 10 (code c) && leb (code c) 13)
    || (leb 28 (code c) && leb (code c) 30)
    || nat_beq (code c) 133
    || (leb 8232 (code c) && leb (code c) 8233)

-- a line feed after a carriage return belongs to the line end before it
unfoldable pub split_lines : Bool → String → List String
unfolding is_line_end
split_lines after_return [] = List.[]
split_lines after_return (c ∷ s) =
    let rest = split_lines (nat_beq (code c) 13) s in
    if after_return && nat_beq (code c) 10
    then rest
    else if is_line_end c
    then List.◌∷◌ [] rest
    else prepend c rest

-- `s.splitlines()`
unfoldable pub splitlines : String → List String
unfolding split_lines
splitlines s = split_lines false s
