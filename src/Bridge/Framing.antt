-- ===== src/Bridge/Framing.antt =====
-- legacy_sse.py, `_message_event`: what a client reads of a message, by the rules of sse.py.

use Prim.Native.Char.{Char, code}
use mcp_mux_2_0_dev.Base.{
  String, ◌≡◌, ◌==◌, ◌∙◌, refl, some, List, [], ◌∷◌, map, Bool, true, false, ◌&&◌, not, nat_beq,
  ◌++◌, ap, eq_iff, ◌≢◌, false≢true, sym, append-nil, append_assoc, arith, All, Bool-cases, inl,
  inr,
}
use mcp_mux_2_0_dev.Base.Text.{
  all_chars, is_empty, partition, starts_with, str_drop, is_line_end, prepend, split_lines,
  splitlines,
}
use mcp_mux_2_0_dev.Sse.{data_value, iter_sse_events, read_events}
use mcp_mux_2_0_dev.Sse.Shape.{values}
use mcp_mux_2_0_dev.Sse.Payload.{data_prefix}
use mcp_mux_2_0_dev.Bridge.{in_data, message_lines, or_blank}

-- a text on one line
abbrev pub IsLine : String → Type 0
IsLine s = all_chars (λ c. not (is_line_end c)) s ≡ true

prepend-IsLine :
    (c : Char) (lines : List String)
    → is_line_end c ≡ false
    → All IsLine lines
    → All IsLine (prepend c lines)
unfolding all_chars
prepend-IsLine c [] h a = ground arith
prepend-IsLine c (l ∷ ls) h a = ground arith

split_lines-IsLine : (b : Bool) (s : String) → All IsLine (split_lines b s)
unfolding split_lines all_chars
split_lines-IsLine b String.[] = tt
split_lines-IsLine b (String.◌∷◌ c s) =
    let rest = split_lines (nat_beq (code c) 13) s in
    let ih : All IsLine rest = split_lines-IsLine (nat_beq (code c) 13) s in
    elim (Bool-cases (b && nat_beq (code c) 10)) [
      | inl skipped ↦ rw skipped ih
      | inr kept ↦ rw kept (elim (Bool-cases (is_line_end c)) [
        | inl ends ↦ rw ends (refl, ih)
        | inr inside ↦ rw inside (prepend-IsLine c rest inside ih)
      ])
    ]

data_value-in_data : (line : String) → data_value (in_data line) ≡ some line
unfolding data_value starts_with partition str_drop
data_value-in_data line = rw (data_prefix line) refl

values-map-in_data : (lines : List String) → values (map in_data lines) ≡ lines
unfolding values
values-map-in_data [] = refl
values-map-in_data (l ∷ ls) = ground (arith, data_value-in_data l, values-map-in_data ls)

in_data-IsLine : (lines : List String) → All IsLine lines → All IsLine (map in_data lines)
unfolding all_chars is_line_end
in_data-IsLine [] h = tt
in_data-IsLine (l ∷ ls) (h, hs) = (rw (data_prefix l) h, in_data-IsLine ls hs)

or_blank-IsLine : (lines : List String) → All IsLine lines → All IsLine (or_blank lines)
unfolding all_chars
or_blank-IsLine [] h = (refl, tt)
or_blank-IsLine (l ∷ ls) h = h

in_data-ne-blank : (line : String) → in_data line ≢ ""
unfolding is_empty
in_data-ne-blank line p = false≢true (sym some_text ∙ ap is_empty p)
  where
    some_text : is_empty (in_data line) ≡ false
    some_text = rw (data_prefix line) refl

-- an event that is being read goes on over lines that are not blank
read_events-map :
    (e : String) (seen lines : List String)
    → read_events (e ∷ seen) (map in_data lines ++ "" ∷ []) ≡ (e ∷ seen ++ map in_data lines) ∷ []
unfolding read_events
read_events-map e seen [] = simp append-nil
read_events-map e seen (l ∷ ls) =
    rw not_blank (read_events-map e (seen ++ in_data l ∷ []) ls ∙ simp append_assoc)
  where
    not_blank : (in_data l == "") ≡ false
    not_blank = ground (arith, eq_iff (in_data l) "", in_data-ne-blank l)

-- The lines of a message event hold no line end, a reader finds exactly one event in them, and its
-- data lines are the lines of the text, or one empty line for an empty text.
pub message_lines-framed :
    (text : String)
    → All IsLine (message_lines text)
      × (iter_sse_events (message_lines text ++ "" ∷ []) ≡ message_lines text ∷ [])
      × (values (message_lines text) ≡ or_blank (splitlines text))
unfolding message_lines splitlines iter_sse_events read_events all_chars is_line_end values
    data_value starts_with partition
message_lines-framed text =
    let lines = or_blank (split_lines false text) in
    (
      (
        refl,
        in_data-IsLine lines
            (or_blank-IsLine (split_lines false text) (split_lines-IsLine false text)),
      ),
      read_events-map "event: message" [] lines,
      values-map-in_data lines,
    )
