-- ===== src/Config/Environment/Pieces.antt =====
-- config_loader.py: texts with variables of the environment, piece by piece.
use Prim.Native.String.{[], ◌∷◌, ◌++◌}
use Prim.Native.Char.{Char, code}
use text.Mathlib.TextLemmas.{cons-append, nil-append}
use mcp_mux_2_0_dev.Base.{
  ℕ, zero, suc, ◌+◌, ◌-◌, String, Option, none, some, List, true, false, nat_beq, ◌≡◌, refl, ap,
  ◌∙◌, sym, arith, All, Bool-cases, inl, inr,
}
use mcp_mux_2_0_dev.Base.Dict.{Dict, lookup}
use mcp_mux_2_0_dev.Base.Text.{str_len, has_char, all_chars}
use mcp_mux_2_0_dev.Config.Fields.{is_env_name}
use mcp_mux_2_0_dev.Config.Environment.{
  Variable, is_name_char, span_name, with_first, up_to_brace, variable_at, or_default, value_of,
  append_value, replace_at, expand_text,
}

-- a piece of a text: one without `$`, or a variable, with or without a default
pub data Piece : Type 0 where
  plain : String → Piece
  required : String → Piece
  defaulted : String → String → Piece

abbrev pub IsPiece : Piece → Type 0
IsPiece (plain text) = has_char 36 text ≡ false
IsPiece (required name) = is_env_name name ≡ true
IsPiece (defaulted name default) = (is_env_name name ≡ true) × (has_char 125 default ≡ false)

-- how a piece is written in the file, before the rest of the text
abbrev pub written : Piece → String → String
written (plain text) rest = text ++ rest
written (required name) rest = "$" ∷ ("{" ∷ (name ++ ("}" ∷ rest)))
written (defaulted name default) rest =
    "$" ∷ ("{" ∷ (name ++ (":" ∷ ("-" ∷ (default ++ ("}" ∷ rest))))))

abbrev pub write_all : List Piece → String
write_all List.[] = []
write_all (List.◌∷◌ p ps) = written p (write_all ps)

-- what the environment makes of them
abbrev pub meaning : Dict String → Piece → Option String
meaning env (plain text) = some text
meaning env (required name) = lookup name env
meaning env (defaulted name default) = or_default (lookup name env) (some default)

abbrev pub meanings : Dict String → List Piece → Option String
meanings env List.[] = some []
meanings env (List.◌∷◌ p ps) = append_value (meaning env p) (meanings env ps)

zero_plus : (n : ℕ) → 0 + n ≡ n
zero_plus n = omega arith

suc_plus : (m n : ℕ) → suc m + n ≡ suc (m + n)
suc_plus m n = omega arith

-- a replaced name is skipped
skipped :
    (env : Dict String) (n : ℕ) (a s : String)
    → expand_text env (str_len a + n) (a ++ s) ≡ expand_text env n s
unfolding expand_text str_len
skipped env n [] s = rw (nil-append s) (ap (λ k. expand_text env k s) (zero_plus n))
skipped env n (c ∷ a) s =
    rw (cons-append c a s)
      (ap (λ k. expand_text env k (c ∷ (a ++ s))) (suc_plus (str_len a) n) ∙ skipped env n a s)

span_name-end :
    (name : String) (c : Char) (s : String)
    → all_chars is_name_char name ≡ true
    → is_name_char c ≡ false
    → span_name (name ++ (c ∷ s)) ≡ (name, c ∷ s)
unfolding span_name all_chars
span_name-end [] c s h e = rw (nil-append (c ∷ s)) (rw e refl)
span_name-end (d ∷ name) c s h e =
    rw (cons-append d name (c ∷ s)) (elim (Bool-cases (is_name_char d)) [
      | inl g ↦ ground (arith, g, h, span_name-end name c s)
      | inr g ↦ ground (arith, g, h)
    ])

up_to_brace-end : (d s : String) → has_char 125 d ≡ false → up_to_brace (d ++ ("}" ∷ s)) ≡ some d
unfolding up_to_brace has_char
up_to_brace-end [] s h = rw (nil-append ("}" ∷ s)) refl
up_to_brace-end (c ∷ d) s h =
    rw (cons-append c d ("}" ∷ s)) (ground (arith, h, up_to_brace-end d s))

is_env_name-chars : (name : String) → is_env_name name ≡ true → all_chars is_name_char name ≡ true
unfolding is_env_name all_chars
is_env_name-chars [] h = refl
is_env_name-chars (c ∷ name) h = ground (arith, h)

variable_at-required :
    (name rest : String)
    → is_env_name name ≡ true
    → variable_at (written (required name) rest)
      ≡ some (record { name = name; default = none; size = str_len name + 3 })
unfolding variable_at
variable_at-required name rest h =
    rw (span_name-end name "}" rest (is_env_name-chars name h) refl) (rw h refl)

variable_at-defaulted :
    (name default rest : String)
    → is_env_name name ≡ true
    → has_char 125 default ≡ false
    → variable_at (written (defaulted name default) rest)
      ≡ some (record {
        name = name;
        default = some default;
        size = str_len name + str_len default + 5;
      })
unfolding variable_at
variable_at-defaulted name default rest h g =
    rw (span_name-end name ":" ("-" ∷ (default ++ ("}" ∷ rest))) (is_env_name-chars name h) refl)
      (rw (h, up_to_brace-end default rest g) refl)

append_value-nil : (o : Option String) → append_value (some []) o ≡ o
append_value-nil none = refl
append_value-nil (some s) = ap some (nil-append s)

append_value-cons :
    (c : Char) (text : String) (o : Option String)
    → with_first c (append_value (some text) o) ≡ append_value (some (c ∷ text)) o
append_value-cons c text none = refl
append_value-cons c text (some s) = ap some (sym (cons-append c text s))

no_variable : (c : Char) (s : String) → nat_beq (code c) 36 ≡ false → variable_at (c ∷ s) ≡ none
unfolding variable_at
no_variable c s e = rw e refl

or_none : (o : Option String) → or_default o none ≡ o
or_none none = refl
or_none (some v) = refl

expand_text-at :
    (env : Dict String) (c : Char) (s : String) (o : Option Variable)
    → variable_at (c ∷ s) ≡ o
    → expand_text env zero (c ∷ s) ≡ replace_at env c (λ skip. expand_text env skip s) o
unfolding expand_text
expand_text-at env c s o h = ap (replace_at env c (λ skip. expand_text env skip s)) h

expand_text-plain :
    (env : Dict String) (text rest : String)
    → has_char 36 text ≡ false
    → expand_text env zero (text ++ rest) ≡ append_value (some text) (expand_text env zero rest)
unfolding has_char
expand_text-plain env [] rest h =
    rw (nil-append rest) (sym (append_value-nil (expand_text env zero rest)))
expand_text-plain env (c ∷ text) rest h = rw (cons-append c text rest) (
    expand_text-at env c (text ++ rest) none (no_variable c (text ++ rest) (ground (arith, h)))
    ∙ (ap (with_first c) (expand_text-plain env text rest (ground (arith, h)))
        ∙ append_value-cons c text (expand_text env zero rest)))

-- the closing brace is skipped
past_brace : (env : Dict String) (s : String) → expand_text env 1 ("}" ∷ s) ≡ expand_text env zero s
unfolding expand_text
past_brace env s = refl

past_name :
    (env : Dict String) (name rest : String)
    → expand_text env (str_len name + 3 - 1) ("{" ∷ (name ++ ("}" ∷ rest)))
      ≡ expand_text env zero rest
unfolding expand_text
past_name env name rest =
    ap (λ k. expand_text env k ("{" ∷ (name ++ ("}" ∷ rest))))
      (let e : str_len name + 3 - 1 ≡ suc (str_len name + 1) = omega arith in e)
    ∙ (skipped env 1 name ("}" ∷ rest) ∙ past_brace env rest)

past_default :
    (env : Dict String) (name default rest : String)
    → expand_text env
        (str_len name + str_len default + 5 - 1)
        ("{" ∷ (name ++ (":" ∷ ("-" ∷ (default ++ ("}" ∷ rest))))))
      ≡ expand_text env zero rest
unfolding expand_text
past_default env name default rest =
    ap (λ k. expand_text env k ("{" ∷ (name ++ (":" ∷ ("-" ∷ (default ++ ("}" ∷ rest)))))))
      (let e : str_len name + str_len default + 5 - 1
            ≡ suc (str_len name + suc (suc (str_len default + 1))) =
          omega arith in
        e)
    ∙ (skipped env (suc (suc (str_len default + 1))) name (":" ∷ ("-" ∷ (default ++ ("}" ∷ rest))))
        ∙ (skipped env 1 default ("}" ∷ rest) ∙ past_brace env rest))

-- one piece, before any rest
expand_text-written :
    (env : Dict String) (p : Piece) (rest : String)
    → IsPiece p
    → expand_text env zero (written p rest)
      ≡ append_value (meaning env p) (expand_text env zero rest)
unfolding value_of
expand_text-written env (plain text) rest h = expand_text-plain env text rest h
expand_text-written env (required name) rest h =
    expand_text-at env "$" ("{" ∷ (name ++ ("}" ∷ rest))) _ (variable_at-required name rest h)
    ∙ rw (past_name env name rest)
        (ap (λ o. append_value o (expand_text env zero rest)) (or_none (lookup name env)))
expand_text-written env (defaulted name default) rest (h, g) =
    expand_text-at env "$" ("{" ∷ (name ++ (":" ∷ ("-" ∷ (default ++ ("}" ∷ rest)))))) _
      (variable_at-defaulted name default rest h g)
    ∙ rw (past_default env name default rest) refl

-- A text of the configuration file expands piece by piece: text without `$` stays, `${NAME}`
-- becomes the variable's value and is an error where it has none, and `${NAME:-default}` becomes
-- the value, or else the default, for names of the grammar and defaults without `}`; what a
-- variable's value contains is not expanded again.
pub expand_text-write_all :
    (env : Dict String) (ps : List Piece)
    → All IsPiece ps
    → expand_text env zero (write_all ps) ≡ meanings env ps
unfolding expand_text
expand_text-write_all env List.[] h = refl
expand_text-write_all env (List.◌∷◌ p ps) (h, hs) =
    expand_text-written env p (write_all ps) h
    ∙ ap (append_value (meaning env p)) (expand_text-write_all env ps hs)
