-- ===== src/Similar/Distance.antt =====
-- levenshteinDistance of internal/incident/similarity.go on strings given as their bytes. `none`
-- stands for a run that Go stops for an index out of range.
use health_monitor_sre_engin.Common.{
  ℕ, ◌+◌, ◌-◌, Option, some, List, ltb, ◌==◌, if◌then◌else◌, length,
}
use health_monitor_sre_engin.Similar.Loops.{◌>>=◌, loop, Matrix, cell_at, set_cell, byte_at}

-- min
unfoldable pub min3 : ℕ → ℕ → ℕ → ℕ
min3 a b c = if ltb a b then if ltb a c then a else c else if ltb b c then b else c

module _ (s1 s2 : List ℕ) where
  -- make([][]int, len(s1)+1), each row make([]int, len(s2)+1)
  abbrev blank : Matrix
  blank = record { rows = length s1 + 1; cols = length s2 + 1; cell = λ i j. 0 }

  -- the body of the inner loop; both indices start at 1
  unfoldable pub fill_cell : ℕ → ℕ → Matrix → Option Matrix
  fill_cell i j t = do
    x ← byte_at s1 (i - 1)
    y ← byte_at s2 (j - 1)
    let price = if x == y then 0 else 1
    above ← cell_at t (i - 1) j
    left ← cell_at t i (j - 1)
    corner ← cell_at t (i - 1) (j - 1)
    set_cell i j (min3 (above + 1) (left + 1) (corner + price)) t

  unfoldable pub fill_row : ℕ → Matrix → Option Matrix
  fill_row i = loop (length s2) 1 (fill_cell i)

  unfoldable pub fill_matrix : Option ℕ
  fill_matrix = do
    first_column ← loop (length s1 + 1) 0 (λ i t. set_cell i 0 i t) blank
    edges ← loop (length s2 + 1) 0 (λ j t. set_cell 0 j j t) first_column
    full ← loop (length s1) 1 fill_row edges
    cell_at full (length s1) (length s2)

  unfoldable pub levenshtein_distance : Option ℕ
  levenshtein_distance =
      let filled = fill_matrix in
      if length s1 == 0
      then some (length s2)
      else if length s2 == 0
      then some (length s1)
      else filled
