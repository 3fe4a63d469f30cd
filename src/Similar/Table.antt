-- ===== src/Similar/Table.antt =====
-- The table of levenshteinDistance holds the least numbers of edits, and no index is out of range.
use native.Mathlib.Numerals.{sub-one}
use health_monitor_sre_engin.Common.{
  ℕ, zero, suc, ◌+◌, ◌≤◌, ◌<◌, List, ◌≡◌, ◌⊎◌, inl, inr, refl, subst, some, ◌==◌, Bool-cases,
  length, arith,
}
use health_monitor_sre_engin.Similar.Loops.{
  Returns, Returns-bind, Returns-loop, Returns-some, Matrix, cell_at, set_cell, cell_at_inside,
  set_cell_inside, byte_inside,
}
use health_monitor_sre_engin.Similar.Distance.{
  fill_cell, fill_row, fill_matrix, levenshtein_distance,
}
use health_monitor_sre_engin.Similar.Edits.{
  Edits, least_edits, least_edits-zero, least_edits_reached, least_edits_least, least_edits_comm,
}

module _ (s1 s2 : List ℕ) where
  -- Rows up to `i` are filled, and row `i` is filled up to `j`.
  record IsFilled (i j : ℕ) (t : Matrix) : Type 0 where
    rows_fit : t.rows ≡ length s1 + 1
    cols_fit : t.cols ≡ length s2 + 1
    above : (p q : ℕ) → p < i → q ≤ length s2 → t.cell p q ≡ least_edits s1 s2 p q
    left : (q : ℕ) → q < j → t.cell i q ≡ least_edits s1 s2 i q
    first : (p : ℕ) → p ≤ length s1 → t.cell p 0 ≡ p

  -- the cell that the loops fill next
  set_cell-IsFilled :
      (i j v : ℕ) (t : Matrix)
      → i ≤ length s1
      → j ≤ length s2
      → v ≡ least_edits s1 s2 i j
      → IsFilled i j t
      → v ≡ i ⊎ 0 < j
      → Returns (IsFilled i (suc j)) (set_cell i j v t)
  set_cell-IsFilled i j v t hi hj e h edge =
      rw (set_cell_inside i j v t (omega (arith, h.rows_fit)) (omega (arith, h.cols_fit))) (record {
        rows_fit = h.rows_fit;
        cols_fit = h.cols_fit;
        above = λ p q below inside. ground (arith, h.above p q);
        left = λ q below. ground (arith, h.left q, e);
        first = λ p inside. ground (arith, h.first p, edge);
      })

  IsFilled-start :
      (t : Matrix) (i : ℕ)
      → suc i ≤ length s1
      → IsFilled i (suc (length s2)) t
      → IsFilled (suc i) 1 t
  unfolding least_edits
  IsFilled-start t i hi h = record {
    rows_fit = h.rows_fit;
    cols_fit = h.cols_fit;
    above = λ p q below inside. ground (arith, h.above p q, h.left q);
    left = λ q below. ground (arith, h.first (suc i));
    first = h.first;
  }

  fill_cell-IsFilled :
      (i j : ℕ) (t : Matrix)
      → i < length s1
      → j < length s2
      → IsFilled (suc i) (suc j) t
      → Returns (IsFilled (suc i) (suc (suc j))) (fill_cell s1 s2 (suc i) (suc j) t)
  unfolding fill_cell least_edits
  fill_cell-IsFilled i j t hi hj h =
      simp
        (
          sub-one,
          byte_inside s1 i hi,
          byte_inside s2 j hj,
          cell_at_inside t i (suc j) (omega (arith, h.rows_fit)) (omega (arith, h.cols_fit)),
          cell_at_inside t (suc i) j (omega (arith, h.rows_fit)) (omega (arith, h.cols_fit)),
          cell_at_inside t i j (omega (arith, h.rows_fit)) (omega (arith, h.cols_fit)),
          h.above i (suc j) (omega arith) (omega arith),
          h.left j (omega arith),
          h.above i j (omega arith) (omega arith),
        )
        (set_cell-IsFilled (suc i) (suc j) _ t (omega arith) (omega arith) refl h
          (inr (omega arith)))

  fill_row-IsFilled :
      (i : ℕ) (t : Matrix)
      → i < length s1
      → IsFilled (suc i) 1 t
      → Returns (IsFilled (suc i) (suc (length s2))) (fill_row s1 s2 (suc i) t)
  unfolding fill_row
  fill_row-IsFilled i t hi h =
      Returns-loop (IsFilled (suc i)) (suc (length s2)) (fill_cell s1 s2 (suc i)) (length s2) 1 t
        (omega arith) step h
    where
      step :
          (j : ℕ) (u : Matrix)
          → 1 ≤ j
          → j < suc (length s2)
          → IsFilled (suc i) j u
          → Returns (IsFilled (suc i) (suc j)) (fill_cell s1 s2 (suc i) j u)
      step zero u lo below k = absurd (omega arith)
      step (suc j) u lo below k = fill_cell-IsFilled i j u hi (omega arith) k

  -- The first `k` rows begin with their numbers.
  record IsNumbered (k : ℕ) (t : Matrix) : Type 0 where
    rows_fit : t.rows ≡ length s1 + 1
    cols_fit : t.cols ≡ length s2 + 1
    numbered : (p : ℕ) → p < k → t.cell p 0 ≡ p

  number_row :
      (i : ℕ) (t : Matrix)
      → 0 ≤ i
      → i < length s1 + 1
      → IsNumbered i t
      → Returns (IsNumbered (suc i)) (set_cell i 0 i t)
  number_row i t lo hi h =
      rw (set_cell_inside i 0 i t (omega (arith, h.rows_fit)) (omega (arith, h.cols_fit))) (record {
        rows_fit = h.rows_fit;
        cols_fit = h.cols_fit;
        numbered = λ p below. ground (arith, h.numbered p);
      })

  number_column :
      (j : ℕ) (t : Matrix)
      → 0 ≤ j
      → j < length s2 + 1
      → IsFilled 0 j t
      → Returns (IsFilled 0 (suc j)) (set_cell 0 j j t)
  unfolding least_edits
  number_column j t lo hi h =
      set_cell-IsFilled 0 j j t (omega arith) (omega arith) refl h (ground arith)

  -- Before the round of an index the rows below it are filled.
  Before : ℕ → Matrix → Type 0
  Before zero t = ⊥
  Before (suc i) t = IsFilled i (suc (length s2)) t

  next_row :
      (i : ℕ) (t : Matrix)
      → 1 ≤ i
      → i < suc (length s1)
      → Before i t
      → Returns (Before (suc i)) (fill_row s1 s2 i t)
  unfolding Before
  next_row zero t lo hi h = absurd h
  next_row (suc i) t lo hi h =
      fill_row-IsFilled i t (omega arith) (IsFilled-start t i (omega arith) h)

  -- The rows are numbered, and nothing of row 0 is known.
  IsNumbered-IsFilled : (t : Matrix) → IsNumbered (length s1 + 1) t → IsFilled 0 0 t
  IsNumbered-IsFilled t h = record {
    rows_fit = h.rows_fit;
    cols_fit = h.cols_fit;
    above = λ p q below inside. absurd (omega arith);
    left = λ q below. absurd (omega arith);
    first = λ p inside. h.numbered p (omega arith);
  }

  last_cell :
      (t : Matrix)
      → Before (suc (length s1)) t
      → Returns
          (λ d. d ≡ least_edits s1 s2 (length s1) (length s2))
          (cell_at t (length s1) (length s2))
  unfolding Before
  last_cell t h =
      rw
        (cell_at_inside t (length s1) (length s2) (omega (arith, h.rows_fit))
          (omega (arith, h.cols_fit)))
        (h.left (length s2) (omega arith))

  fill_matrix-least_edits :
      Returns (λ d. d ≡ least_edits s1 s2 (length s1) (length s2)) (fill_matrix s1 s2)
  unfolding fill_matrix Before
  fill_matrix-least_edits =
      Returns-bind (IsNumbered (length s1 + 1)) _ _ _
        (Returns-loop IsNumbered (length s1 + 1) _ (length s1 + 1) 0 _ (omega arith) number_row
          (record { rows_fit = refl; cols_fit = refl; numbered = λ p below. absurd (omega arith) }))
        λ first_column a.
          Returns-bind (IsFilled 0 (length s2 + 1)) _ _ _
            (Returns-loop (IsFilled 0) (length s2 + 1) _ (length s2 + 1) 0 _ (omega arith)
              number_column (IsNumbered-IsFilled first_column a))
            λ edges b.
              Returns-bind (Before (suc (length s1))) _ _ _
                (Returns-loop Before (suc (length s1)) _ (length s1) 1 _ (omega arith) next_row
                  (subst (λ j. IsFilled 0 j edges) (omega arith) b))
                last_cell

  -- levenshteinDistance never reads or writes outside its table, and returns the least number of edits.
  pub levenshtein_distance-least_edits :
      levenshtein_distance s1 s2 ≡ some (least_edits s1 s2 (length s1) (length s2))
  unfolding levenshtein_distance least_edits
  levenshtein_distance-least_edits = elim (Bool-cases (length s1 == 0)) [
    | inl empty ↦ ground (arith, empty)
    | inr full ↦ elim (Bool-cases (length s2 == 0)) [
      | inl empty ↦ ground (arith, empty, least_edits-zero s1 s2 (length s1))
      | inr wide ↦ rw full (rw wide (Returns-some _ fill_matrix-least_edits))
    ]
  ]

-- levenshteinDistance always returns, and what it returns is the least number of insertions, deletions
-- and replacements of single bytes that turn the one string into the other: some edits are that few, and
-- no edits are fewer.
pub levenshtein_distance_least :
    (s1 s2 : List ℕ) (n : ℕ)
    → Edits s1 s2 (length s1) (length s2) n
    → (d : ℕ) × (levenshtein_distance s1 s2 ≡ some d)
      × Edits s1 s2 (length s1) (length s2) d
      × (d ≤ n)
levenshtein_distance_least s1 s2 n edits = (
  least_edits s1 s2 (length s1) (length s2),
  levenshtein_distance-least_edits s1 s2,
  least_edits_reached s1 s2 (length s1) (length s2),
  least_edits_least s1 s2 edits,
)

pub levenshtein_distance_comm :
    (s1 s2 : List ℕ) → levenshtein_distance s1 s2 ≡ levenshtein_distance s2 s1
levenshtein_distance_comm s1 s2 =
    rw
      (
        levenshtein_distance-least_edits s1 s2,
        levenshtein_distance-least_edits s2 s1,
        least_edits_comm s1 s2 (length s1) (length s2),
      )
      refl
