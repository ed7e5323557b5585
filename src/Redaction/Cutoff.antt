-- ===== src/Redaction/Cutoff.antt =====
-- redaction.py: where the streaming redactor cuts its text.
use Prim.Native.String
use mcp_mux_2_0_dev.Base.{
  is_some, ◌-◌, ℕ, zero, suc, ◌≤◌, ◌<◌, String, ◌≡◌, refl, some, List, [], ◌∷◌, true, false,
  nat_beq, min, arith, All, Bool-cases, inl, inr,
}
use mcp_mux_2_0_dev.Base.Text.{str_len}
use mcp_mux_2_0_dev.Redaction.{
  occurrences, straddles, adjust_at, adjust, settle, feed, max_literal_length,
}

-- no start is such that an occurrence lies across the cut
abbrev pub Uncut : ℕ → ℕ → List ℕ → Type 0
Uncut cutoff size = All (λ start. straddles cutoff size start ≡ false)

adjust_at-le :
    (cutoff size : ℕ) (starts : List ℕ) (adjusted : ℕ)
    → adjust_at cutoff size starts adjusted ≤ adjusted
unfolding adjust_at
adjust_at-le cutoff size [] adjusted = omega arith
adjust_at-le cutoff size (start ∷ starts) adjusted = ground (
  arith,
  adjust_at-le cutoff size starts adjusted,
  adjust_at-le cutoff size starts (min adjusted start),
)

too_early :
    (start cutoff size result adjusted : ℕ)
    → straddles cutoff size start ≡ true
    → cutoff ≤ result
    → result ≤ min adjusted start
    → ⊥
too_early start cutoff size result adjusted e h h' = ground arith

adjust_at-Uncut :
    (cutoff size : ℕ) (starts : List ℕ) (adjusted : ℕ)
    → cutoff ≤ adjust_at cutoff size starts adjusted
    → Uncut cutoff size starts
unfolding adjust_at
adjust_at-Uncut cutoff size [] adjusted h = tt
adjust_at-Uncut cutoff size (start ∷ starts) adjusted h =
    elim (Bool-cases (straddles cutoff size start)) [
      | inl e ↦
          elim (too_early start cutoff size (adjust_at cutoff size starts (min adjusted start))
            adjusted e (rw e at h) (adjust_at-le cutoff size starts (min adjusted start))) [ ]
      | inr e ↦ (e, adjust_at-Uncut cutoff size starts adjusted (rw e at h))
    ]

-- no occurrence of a value lies across the cut
abbrev pub Whole : ℕ → String → List String → Type 0
Whole cutoff combined = All (λ value. Uncut cutoff (str_len value) (occurrences value combined 0))

adjust-le :
    (cutoff : ℕ) (combined : String) (values : List String) (adjusted : ℕ)
    → adjust cutoff combined values adjusted ≤ adjusted
unfolding adjust
adjust-le cutoff combined [] adjusted = omega arith
adjust-le cutoff combined (value ∷ values) adjusted = omega (
  arith,
  adjust-le cutoff combined values
      (adjust_at cutoff (str_len value) (occurrences value combined 0) adjusted),
  adjust_at-le cutoff (str_len value) (occurrences value combined 0) adjusted,
)

adjust-Whole :
    (cutoff : ℕ) (combined : String) (values : List String) (adjusted : ℕ)
    → cutoff ≤ adjust cutoff combined values adjusted
    → Whole cutoff combined values
unfolding adjust
adjust-Whole cutoff combined [] adjusted h = tt
adjust-Whole cutoff combined (value ∷ values) adjusted h =
    let starts = occurrences value combined 0 in
    let first = adjust_at cutoff (str_len value) starts adjusted in
    (
      adjust_at-Uncut cutoff (str_len value) starts adjusted
          (omega (arith, h, adjust-le cutoff combined values first)),
      adjust-Whole cutoff combined values first h,
    )

not_below_zero : (n : ℕ) → n < 0 → ⊥
not_below_zero n h = omega arith

-- The search for a place to cut ends, on one unit of fuel more than the first cut-off, at a cut-off
-- that is no later and that no occurrence of a known secret lies across: what is emitted and what
-- is carried over never share a secret between them.
pub settle-Whole :
    (combined : String) (values : List String) (fuel cutoff : ℕ)
    → cutoff < fuel
    → (c : ℕ) × (settle fuel combined values cutoff ≡ some c)
      × (c ≤ cutoff)
      × Whole c combined values
unfolding settle
settle-Whole combined values zero cutoff h = elim (not_below_zero cutoff h) [ ]
settle-Whole combined values (suc fuel) cutoff h =
    let adjusted = adjust cutoff combined values cutoff in
    let less = adjust-le cutoff combined values cutoff in
    elim (Bool-cases (nat_beq adjusted cutoff)) [
      | inl e ↦
          rw e
            (cutoff, refl, omega arith, adjust-Whole cutoff combined values cutoff (ground arith))
      | inr e ↦
          let (c, found, before, whole) =
            settle-Whole combined values fuel adjusted (ground arith) in
          rw e (c, found, omega (arith, before, less), whole)
    ]

-- Feeding a chunk to the streaming redactor always returns, on the fuel that it is given.
pub is_some-feed :
    (values : List String) (carry text : String) → is_some (feed values carry text) ≡ true
unfolding feed
is_some-feed values carry text =
    let combined = String.◌++◌ carry text in
    let cutoff = str_len combined - (max_literal_length values - 1) in
    let (c, found, before, whole) =
      settle-Whole combined values (suc cutoff) cutoff (omega arith) in
    ground (arith, found)
