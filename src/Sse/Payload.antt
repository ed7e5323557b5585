-- ===== src/Sse/Payload.antt =====
-- `transform_sse_event` of sse.py: the payload of an event is transformed, and nothing else of it.
use Prim.Native.Char.{Char, code}
use Prim.Native.String
use text.Mathlib.TextEquality.{Char-path}
use text.Mathlib.TextLemmas.{cons-append, nil-append}
use mcp_mux_2_0_dev.Base.{
  ℕ, suc, String, ◌≡◌, ◌≢◌, refl, sym, ap, subst, ◌∙◌, some, List, [], ◌∷◌, ◌++◌, map, Bool, true,
  arith, nat_beq, nat_beq_iff, length, inl, inr, ◌==◌, eq_iff, Bool-cases, append-nil,
}
use mcp_mux_2_0_dev.Base.Text.{split, join, is_empty, prepend, starts_with, partition, str_drop}
use mcp_mux_2_0_dev.Sse.{
  data_value, data_line, find_data, rewrite_data, transform_sse_event, set_lines, splice, has_index,
}
use mcp_mux_2_0_dev.Sse.Shape.{
  indexes, values, others, fill, gather, find_data-values, set_lines-eq-fill, splice-eq-gather,
}

-- splitting at line feeds and joining again gives the text back
join-prepend :
    (c : Char) (ws : List String) → ws ≢ [] → join "\n" (prepend c ws) ≡ String.◌∷◌ c (join "\n" ws)
unfolding join
join-prepend c [] h = absurd (h refl)
join-prepend c (w ∷ []) h = refl
join-prepend c (w ∷ v ∷ ws) h = cons-append c w _

prepend-ne-nil : (c : Char) (ws : List String) → prepend c ws ≢ []
prepend-ne-nil c [] h = cc
prepend-ne-nil c (w ∷ ws) h = cc

split-ne-nil : (s : String) → split b'\n' s ≢ []
unfolding split
split-ne-nil String.[] = λ h. cc
split-ne-nil (String.◌∷◌ c s) = elim (Bool-cases (nat_beq (code c) b'\n')) [
  | inl newline ↦ rw newline (λ h. cc)
  | inr other ↦ rw other (prepend-ne-nil c (split b'\n' s))
]

join-newline :
    (c : Char) (ws : List String)
    → code c ≡ b'\n'
    → ws ≢ []
    → join "\n" ("" ∷ ws) ≡ String.◌∷◌ c (join "\n" ws)
unfolding join
join-newline c [] e h = absurd (h refl)
join-newline c (w ∷ ws) e h =
    nil-append _
    ∙ cons-append "\n" "" (join "\n" (w ∷ ws))
    ∙ ap (String.◌∷◌ "\n") (nil-append (join "\n" (w ∷ ws)))
    ∙ ap (λ d. String.◌∷◌ d (join "\n" (w ∷ ws))) (sym (Char-path c "\n" e))

pub join-split : (s : String) → join "\n" (split b'\n' s) ≡ s
unfolding split join
join-split String.[] = refl
join-split (String.◌∷◌ c s) =
    let kept = ap (String.◌∷◌ c) (join-split s) in
    elim (Bool-cases (nat_beq (code c) b'\n')) [
      | inl newline ↦ rw newline (
          join-newline c (split b'\n' s) ((nat_beq_iff (code c) b'\n').0 newline) (split-ne-nil s)
          ∙ kept)
      | inr other ↦ rw other (join-prepend c (split b'\n' s) (split-ne-nil s) ∙ kept)
    ]

pub data_prefix :
    (v : String)
    → String.◌++◌ "data: " v
      ≡ String.◌∷◌ "d"
          (String.◌∷◌ "a" (String.◌∷◌ "t" (String.◌∷◌ "a" (String.◌∷◌ ":" (String.◌∷◌ " " v)))))
data_prefix v =
    cons-append "d" "ata: " v
    ∙ ap (String.◌∷◌ "d") (
        cons-append "a" "ta: " v
        ∙ ap (String.◌∷◌ "a") (
            cons-append "t" "a: " v
            ∙ ap (String.◌∷◌ "t") (
                cons-append "a" ": " v
                ∙ ap (String.◌∷◌ "a") (
                    cons-append ":" " " v
                    ∙ ap (String.◌∷◌ ":")
                        (cons-append " " "" v ∙ ap (String.◌∷◌ " ") (nil-append v))))))

data_value-data_line : (v : String) → data_value (data_line v) ≡ some v
unfolding data_value data_line is_empty starts_with partition str_drop
data_value-data_line String.[] = refl
data_value-data_line (String.◌∷◌ c s) = rw (data_prefix (String.◌∷◌ c s)) refl

values-map : (ws : List String) → values (map data_line ws) ≡ ws
unfolding values
values-map [] = refl
values-map (w ∷ ws) = ground (arith, data_value-data_line w, values-map ws)

others-map : (ws : List String) → others (map data_line ws) ≡ []
unfolding others
others-map [] = refl
others-map (w ∷ ws) = ground (arith, data_value-data_line w, others-map ws)

values-append : (xs ys : List String) → values (xs ++ ys) ≡ values xs ++ values ys
unfolding values
values-append [] ys = refl
values-append (x ∷ xs) ys = ground (arith, values-append xs ys)

others-append : (xs ys : List String) → others (xs ++ ys) ≡ others xs ++ others ys
unfolding others
others-append [] ys = refl
others-append (x ∷ xs) ys = ground (arith, others-append xs ys)

values-others : (xs : List String) → values (others xs) ≡ []
unfolding values others
values-others [] = refl
values-others (x ∷ xs) = ground (arith, values-others xs)

others-others : (xs : List String) → others (others xs) ≡ others xs
unfolding others
others-others [] = refl
others-others (x ∷ xs) = ground (arith, others-others xs)

-- `gather` and `fill` keep the other lines, and put the new values in
values-gather :
    (lines ws : List String) → values lines ≢ [] → values (gather lines (map data_line ws)) ≡ ws
unfolding values gather
values-gather [] ws h = absurd (h refl)
values-gather (line ∷ lines) ws h = ground (
  arith,
  values-gather lines ws,
  values-append (map data_line ws) (others lines),
  values-map ws,
  values-others lines,
  append-nil ws,
)

others-gather : (lines ws : List String) → others (gather lines (map data_line ws)) ≡ others lines
unfolding others gather
others-gather [] ws = refl
others-gather (line ∷ lines) ws = ground (
  arith,
  others-gather lines ws,
  others-append (map data_line ws) (others lines),
  others-map ws,
  others-others lines,
)

values-fill :
    (lines ws : List String)
    → length ws ≡ length (values lines)
    → values (fill lines (map data_line ws)) ≡ ws
unfolding values fill
values-fill [] [] h = refl
values-fill [] (w ∷ ws) h = absurd (omega arith)
values-fill (line ∷ lines) [] h = ground (arith, values-fill lines [])
values-fill (line ∷ lines) (w ∷ ws) h =
    ground (arith, values-fill lines (w ∷ ws), values-fill lines ws, data_value-data_line w)

others-fill : (lines ws : List String) → others (fill lines (map data_line ws)) ≡ others lines
unfolding others fill
others-fill [] ws = refl
others-fill (line ∷ lines) [] = ground (arith, others-fill lines [])
others-fill (line ∷ lines) (w ∷ ws) =
    ground (arith, others-fill lines (w ∷ ws), others-fill lines ws, data_value-data_line w)

length-indexes : (k : ℕ) (lines : List String) → length (indexes k lines) ≡ length (values lines)
unfolding find_data values
length-indexes k [] = refl
length-indexes k (line ∷ lines) = ground (arith, length-indexes (suc k) lines)

length-map : (ws : List String) → length (map data_line ws) ≡ length ws
length-map [] = refl
length-map (w ∷ ws) = ap suc (length-map ws)

length-zero : (xs : List String) → length xs ≡ 0 → xs ≡ []
length-zero [] h = refl
length-zero (x ∷ xs) h = absurd (omega arith)

-- what an event becomes: its other lines as they were, its payload transformed
record IsTransformed (transform_data : String → String) (lines output : List String) : Type 0 where
  kept : others output ≡ others lines
  payload :
      values lines ≢ [] → join "\n" (values output) ≡ transform_data (join "\n" (values lines))

module _ (transform_data : String → String) (lines : List String) where
  abbrev new_values : List String
  new_values = split b'\n' (transform_data (join "\n" (values lines)))

  filled-IsTransformed :
      length new_values ≡ length (values lines)
      → IsTransformed transform_data lines (fill lines (map data_line new_values))
  filled-IsTransformed h = record {
    kept = others-fill lines new_values;
    payload = λ _. ap (join "\n") (values-fill lines new_values h) ∙ join-split _;
  }

  gathered-IsTransformed :
      IsTransformed transform_data lines (gather lines (map data_line new_values))
  gathered-IsTransformed = record {
    kept = others-gather lines new_values;
    payload = λ some_data. ap (join "\n") (values-gather lines new_values some_data) ∙ join-split _;
  }

  rewrite_data-IsTransformed :
      (found : List ℕ × List String)
      → found.0 ≡ indexes 0 lines
      → found.1 ≡ values lines
      → IsTransformed transform_data lines (rewrite_data transform_data lines found)
  rewrite_data-IsTransformed ([], vs) is_found vs_found = record {
    kept = refl;
    payload = λ some_data. absurd (
        some_data
          (length-zero (values lines) (sym (length-indexes 0 lines) ∙ ap length (sym is_found))));
  }
  rewrite_data-IsTransformed (first ∷ rest, vs) is_found vs_found =
      subst
        (λ v.
          IsTransformed transform_data lines (rewrite_data transform_data lines (first ∷ rest, v)))
        (sym vs_found)
        (elim (Bool-cases (transform_data original == original)) [
          | inl same ↦ rw same (record {
            kept = refl;
            payload = λ _. sym ((eq_iff (transform_data original) original).0 same);
          })
          | inr changed ↦ rw changed (elim (Bool-cases fits) [
            | inl equal ↦ rw equal (
                subst (IsTransformed transform_data lines) (sym is_filled)
                  (filled-IsTransformed (same_length equal)))
            | inr unequal ↦ rw unequal (
                subst (IsTransformed transform_data lines) (sym is_gathered) gathered-IsTransformed)
          ])
        ])
    where
      original : String
      original = join "\n" (values lines)

      replacement : List String
      replacement = map data_line new_values

      fits : Bool
      fits = nat_beq (length replacement) (length (first ∷ rest))

      same_length : fits ≡ true → length new_values ≡ length (values lines)
      same_length equal =
          sym (length-map new_values)
          ∙ (nat_beq_iff (length replacement) (length (first ∷ rest))).0 equal
          ∙ ap length is_found
          ∙ length-indexes 0 lines

      is_filled : set_lines (first ∷ rest) replacement lines ≡ fill lines replacement
      is_filled =
          ap (λ is. set_lines is replacement lines) is_found ∙ set_lines-eq-fill lines replacement

      is_gathered : splice 0 first (first ∷ rest) replacement lines ≡ gather lines replacement
      is_gathered =
          splice-eq-gather 0 first (first ∷ rest) rest replacement lines (sym is_found)
            (λ i _. ap (has_index i) is_found)

  -- The lines of an event that are no data lines come out as they were and in their order.
  pub transform_sse_event-others : others (transform_sse_event lines transform_data) ≡ others lines
  unfolding transform_sse_event
  transform_sse_event-others =
      (rewrite_data-IsTransformed (find_data 0 lines) refl (find_data-values 0 lines)).kept

  -- An event that has a data line comes out with the transformed payload: what its data lines say,
  -- joined by line feeds, is the transformation of what they said before, whether or not the number
  -- of lines changes.
  pub transform_sse_event-payload :
      values lines ≢ []
      → join "\n" (values (transform_sse_event lines transform_data))
        ≡ transform_data (join "\n" (values lines))
  unfolding transform_sse_event
  transform_sse_event-payload =
      (rewrite_data-IsTransformed (find_data 0 lines) refl (find_data-values 0 lines)).payload
