-- ===== src/Redaction.antt =====
-- mcp_router/core/redaction.py: the secrets that are known, their replacement in a text, and the
-- replacement in a text that arrives in chunks.
pub mod Cutoff
pub mod Names
pub mod Sources
mod Tests
use Prim.Native.String
use Prim.Native.String.{[], ◌∷◌, ◌++◌}
use mcp_mux_2_0_dev.Base.{
  ℕ, zero, suc, ◌+◌, ◌-◌, String, Option, none, some, List, Bool, true, false, ◌&&◌, ◌||◌, not, leb,
  ltb, nat_beq, min, max, elem, ◌==◌, if◌then◌else◌,
}
use mcp_mux_2_0_dev.Base.Text.{
  str_len, is_empty, strip, casefold, starts_with, partition, str_drop, str_take,
}

abbrev pub redacted : String
redacted = "[REDACTED]"

-- `s.replace(value, "[REDACTED]")` for a value that is not empty; `skip` characters belong to an
-- occurrence that has been replaced
unfoldable pub replace_from : ℕ → String → String → String
unfolding starts_with str_len
replace_from skip value [] = []
replace_from (suc skip) value (c ∷ s) = replace_from skip value s
replace_from zero value (c ∷ s) =
    let matched = redacted ++ replace_from (str_len value - 1) value s in
    let kept = c ∷ replace_from zero value s in if starts_with (c ∷ s) value then matched else kept

-- the token of a value that is written as a bearer or basic credential
abbrev pub token_of : String × Option String → List String
token_of (scheme, none) = List.[]
token_of (scheme, some token) =
    if (casefold scheme == "bearer" || casefold scheme == "basic") && not (is_empty (strip token))
    then List.◌∷◌ (strip token) List.[]
    else List.[]

-- a value joins a set of texts
abbrev pub join_set : String → List String → List String
join_set value values = if elem value values then values else List.◌∷◌ value values

abbrev pub join_all : List String → List String → List String
join_all List.[] values = values
join_all (List.◌∷◌ new rest) values = join_set new (join_all rest values)

-- `expanded`: the values that are not empty, and the tokens of credentials
unfoldable pub expand : List String → List String
unfolding elem partition casefold strip is_empty
expand List.[] = List.[]
expand (List.◌∷◌ value values) =
    let rest = expand values in
    if is_empty value then rest else join_set value (join_all (token_of (partition 32 value)) rest)

-- into a list that is sorted by length, the longest first
unfoldable pub insert_by_length : String → List String → List String
unfolding str_len
insert_by_length value List.[] = List.◌∷◌ value List.[]
insert_by_length value (List.◌∷◌ v values) =
    let rest = insert_by_length value values in
    if leb (str_len v) (str_len value) then List.◌∷◌ value (List.◌∷◌ v values) else List.◌∷◌ v rest

unfoldable pub sort_by_length : List String → List String
unfolding insert_by_length
sort_by_length List.[] = List.[]
sort_by_length (List.◌∷◌ value values) = insert_by_length value (sort_by_length values)

-- `SecretRedactor(values)._values`
unfoldable pub known_values : List String → List String
unfolding expand sort_by_length
known_values values = sort_by_length (expand values)

unfoldable pub redact_known_secrets : List String → String → String
unfolding replace_from
redact_known_secrets List.[] text = text
redact_known_secrets (List.◌∷◌ value values) text =
    redact_known_secrets values (replace_from zero value text)

-- `max((len(value) for value in values), default=0)`
unfoldable pub max_literal_length : List String → ℕ
unfolding str_len
max_literal_length List.[] = 0
max_literal_length (List.◌∷◌ value values) = max (str_len value) (max_literal_length values)

-- Every start that repeated `find` from the next position gives, counted from `i`.
unfoldable pub occurrences : String → String → ℕ → List ℕ
unfolding starts_with
occurrences value [] i = List.[]
occurrences value (c ∷ s) i =
    let rest = occurrences value s (i + 1) in
    if starts_with (c ∷ s) value then List.◌∷◌ i rest else rest

-- `start < cutoff < end`
abbrev pub straddles : ℕ → ℕ → ℕ → Bool
straddles cutoff size start = ltb start cutoff && ltb cutoff (start + size)

unfoldable pub adjust_at : ℕ → ℕ → List ℕ → ℕ → ℕ
adjust_at cutoff size List.[] adjusted = adjusted
adjust_at cutoff size (List.◌∷◌ start starts) adjusted =
    adjust_at cutoff size starts
      (if straddles cutoff size start then min adjusted start else adjusted)

-- the loop over the values
unfoldable pub adjust : ℕ → String → List String → ℕ → ℕ
unfolding adjust_at occurrences str_len
adjust cutoff combined List.[] adjusted = adjusted
adjust cutoff combined (List.◌∷◌ value values) adjusted =
    adjust cutoff combined values
      (adjust_at cutoff (str_len value) (occurrences value combined 0) adjusted)

-- `while True`, on fuel; `none` is want of fuel
unfoldable pub settle : ℕ → String → List String → ℕ → Option ℕ
unfolding adjust
settle zero combined values cutoff = none
settle (suc fuel) combined values cutoff =
    let adjusted = adjust cutoff combined values cutoff in
    let again = settle fuel combined values adjusted in
    if nat_beq adjusted cutoff then some cutoff else again

-- what is emitted and what is carried over
abbrev pub cut : List String → String → Option ℕ → Option (String × String)
cut values combined none = none
cut values combined (some cutoff) =
    some (redact_known_secrets values (str_take cutoff combined), str_drop cutoff combined)

-- `StreamingSecretRedactor.feed`, on the carry and the text
unfoldable pub feed : List String → String → String → Option (String × String)
unfolding max_literal_length redact_known_secrets settle str_len is_empty str_take str_drop
feed values carry text =
    let keep = max_literal_length values - 1 in
    let combined = carry ++ text in
    let cutoff = str_len combined - keep in
    if is_empty text
    then some ("", carry)
    else if leb (max_literal_length values) 1
    then some (redact_known_secrets values text, carry)
    else if leb (str_len combined) keep
    then some ("", combined)
    else cut values combined (settle (suc cutoff) combined values cutoff)

-- `StreamingSecretRedactor.finish`
unfoldable pub finish : List String → String → String × String
unfolding redact_known_secrets
finish values carry = (redact_known_secrets values carry, "")
