-- ===== src/Sse/Shape.antt =====
-- sse.py: the two rewriting loops over indexes are the plain recursions `fill` and `gather` over
-- the lines.
use mcp_mux_2_0_dev.Base.{
  ℕ, suc, ◌≤◌, ◌<◌, String, ◌≡◌, refl, Option, none, some, List, [], ◌∷◌, ◌++◌, false, arith,
  is_some, Option-cases, inl, inr,
}
use mcp_mux_2_0_dev.Sse.{data_value, find_data, set_line, set_lines, has_index, splice}

-- the indexes and the values of the data lines
abbrev pub indexes : ℕ → List String → List ℕ
indexes k lines = (find_data k lines).0

unfoldable pub values : List String → List String
values [] = []
values (line ∷ lines) = elim (data_value line) [ none ↦ values lines | some v ↦ v ∷ values lines ]

-- the lines that are no data lines
unfoldable pub others : List String → List String
others [] = []
others (line ∷ lines) = elim (data_value line) [
  | none ↦ line ∷ others lines
  | some v ↦ others lines
]

-- each data line replaced by the next replacement
abbrev fill_at : Option String → String → (List String → List String) → List String → List String
fill_at none line rest reps = line ∷ rest reps
fill_at (some v) line rest [] = line ∷ rest []
fill_at (some v) line rest (r ∷ reps) = r ∷ rest reps

unfoldable pub fill : List String → List String → List String
fill [] reps = []
fill (line ∷ lines) reps = fill_at (data_value line) line (fill lines) reps

-- the first data line replaced by all replacements, and the other data lines left out
unfoldable pub gather : List String → List String → List String
gather [] reps = []
gather (line ∷ lines) reps = elim (data_value line) [
  | none ↦ line ∷ gather lines reps
  | some v ↦ reps ++ others lines
]

pub find_data-values : (k : ℕ) (lines : List String) → (find_data k lines).1 ≡ values lines
unfolding find_data values
find_data-values k [] = refl
find_data-values k (line ∷ lines) = ground (arith, find_data-values (suc k) lines)

set_lines-shift :
    (k : ℕ) (lines : List String) (x : String) (reps ys : List String)
    → set_lines (indexes (suc k) lines) reps (x ∷ ys) ≡ x ∷ set_lines (indexes k lines) reps ys
unfolding find_data set_lines
set_lines-shift k [] x reps ys = refl
set_lines-shift k (line ∷ lines) x [] ys = ground (arith, set_lines-shift (suc k) lines x [] ys)
set_lines-shift k (line ∷ lines) x (r ∷ reps) ys = ground (
  arith,
  set_lines-shift (suc k) lines x (r ∷ reps) ys,
  set_lines-shift (suc k) lines x reps (set_line k r ys),
)

set_lines-nil : (is : List ℕ) (ys : List String) → set_lines is [] ys ≡ ys
unfolding set_lines
set_lines-nil [] ys = refl
set_lines-nil (i ∷ is) ys = refl

pub set_lines-eq-fill :
    (lines reps : List String) → set_lines (indexes 0 lines) reps lines ≡ fill lines reps
unfolding find_data set_lines fill
set_lines-eq-fill [] reps = refl
set_lines-eq-fill (line ∷ lines) [] = ground (
  arith,
  set_lines-shift 0 lines line [] lines,
  set_lines-nil (indexes 0 lines) lines,
  set_lines-eq-fill lines [],
)
set_lines-eq-fill (line ∷ lines) (r ∷ reps) = ground (
  arith,
  set_lines-shift 0 lines line (r ∷ reps) lines,
  set_lines-shift 0 lines r reps lines,
  set_lines-eq-fill lines (r ∷ reps),
  set_lines-eq-fill lines reps,
)

-- an index below the start is not found
has_index_below : (i k : ℕ) (lines : List String) → i < k → has_index i (indexes k lines) ≡ false
unfolding has_index find_data
has_index_below i k [] h = refl
has_index_below i k (line ∷ lines) h = ground (arith, has_index_below i (suc k) lines)

-- from here on, a set of indexes is that of the data lines
abbrev Marks : List ℕ → ℕ → List String → Type 0
Marks is k lines = (i : ℕ) → k ≤ i → has_index i is ≡ has_index i (indexes k lines)

Marks-tail :
    (is : List ℕ) (k : ℕ) (line : String) (lines : List String)
    → Marks is k (line ∷ lines)
    → Marks is (suc k) lines
unfolding has_index find_data
Marks-tail is k line lines h i le = ground (arith, h i)

Marks-head :
    (is : List ℕ) (k : ℕ) (line : String) (lines : List String)
    → Marks is k (line ∷ lines)
    → has_index k is ≡ is_some (data_value line)
unfolding has_index find_data
Marks-head is k line lines h = ground (arith, h k, has_index_below k (suc k) lines)

-- Past the first data line the other data lines are left out.
splice_after :
    (k first : ℕ) (is : List ℕ) (reps lines : List String)
    → first < k
    → Marks is k lines
    → splice k first is reps lines ≡ others lines
unfolding splice others
splice_after k first is reps [] lt h = refl
splice_after k first is reps (line ∷ lines) lt h = ground (
  arith,
  Marks-head is k line lines h,
  splice_after (suc k) first is reps lines (omega arith) (Marks-tail is k line lines h),
)

indexes_from :
    (k first : ℕ) (rest : List ℕ) (lines : List String) → indexes k lines ≡ first ∷ rest → k ≤ first
unfolding find_data
indexes_from k first rest [] e = cc
indexes_from k first rest (line ∷ lines) e = ground (arith, indexes_from (suc k) first rest lines)

pub splice-eq-gather :
    (k first : ℕ) (is rest : List ℕ) (reps lines : List String)
    → indexes k lines ≡ first ∷ rest
    → Marks is k lines
    → splice k first is reps lines ≡ gather lines reps
unfolding splice gather find_data
splice-eq-gather k first is rest reps [] e h = cc
splice-eq-gather k first is rest reps (line ∷ lines) e h = elim (Option-cases (data_value line)) [
  | inl plain ↦
      let e' : indexes (suc k) lines ≡ first ∷ rest = ground arith in
      ground (
        arith,
        Marks-head is k line lines h,
        indexes_from (suc k) first rest lines e',
        splice-eq-gather (suc k) first is rest reps lines e' (Marks-tail is k line lines h),
      )
  | inr (v, found) ↦
      let at_k : first ≡ k = ground arith in
      ground (
        arith,
        at_k,
        Marks-head is k line lines h,
        splice_after (suc k) first is reps lines (omega arith) (Marks-tail is k line lines h),
      )
]
