-- ===== src/Levenshtein/Matrix.antt =====
-- The loops of damerau_levenshtein_restricted (ase/levenshtein.cc) fill the matrix with least costs.
use anklang.Prelude.{
  ℕ, zero, suc, ◌+◌, ◌*◌, ◌<◌, ◌≡◌, sym, ◌∙◌, List, arith, ℕ_discrete, length, set, replicate,
  length-set, get_or-set_self, get_or-set_ne, length-replicate,
}
use mathlib.Core.Path.{subst}
use anklang.Levenshtein.Restricted.{Weights, fill_first, fill_row, fill_rows, fill_matrix}
use anklang.Levenshtein.Scripts.{IsLeast}
use anklang.Levenshtein.Reversal.{before}
use anklang.Levenshtein.Cells.{IsLeast-insertions, IsLeast-deletions}
use anklang.Levenshtein.Rows.{IsRow, Corner, cell-IsLeast}

module _ (w : Weights) (a b : List ℕ) (width : ℕ) where
  -- A cell more
  set-IsRow :
      (i j : ℕ) (row : List ℕ) (v : ℕ)
      → j < width
      → IsRow w a b width i j row
      → IsLeast w (before a i) (before b j) v
      → IsRow w a b width i (suc j) (set row j v)
  set-IsRow i j row v inside r l = record {
    size = length-set row j v ∙ r.size;
    cells = λ k h. elim (ℕ_discrete j k) [
      | yes e ↦ rw (sym e, get_or-set_self row j v 0 (omega arith)) l
      | no n ↦ rw (get_or-set_ne row j k v 0 n) (r.cells k (omega arith))
    ];
  }

  fill_first-IsRow :
      (k j : ℕ) (row : List ℕ)
      → j + k ≡ width
      → IsRow w a b width 0 j row
      → IsRow w a b width 0 width (fill_first w k j row)
  unfolding fill_first
  fill_first-IsRow zero j row e r =
      subst (λ n. IsRow w a b width 0 n row) (let g : j ≡ width = omega arith in g) r
  fill_first-IsRow (suc k) j row e r =
      fill_first-IsRow k (suc j) _ (omega arith)
        (set-IsRow 0 j row _ (omega arith) r (IsLeast-insertions w b j))

  -- The row before the last one, where there is one
  abbrev CornerRow : ℕ → List ℕ → Type 0
  CornerRow zero row2 = Unit
  CornerRow (suc i) row2 = IsRow w a b width i width row2

  CornerRow-Corner :
      (i j : ℕ) (row2 : List ℕ) → j < width → CornerRow i row2 → Corner w a b i j row2
  CornerRow-Corner zero j row2 h r = tt
  CornerRow-Corner (suc i) zero row2 h r = tt
  CornerRow-Corner (suc i) (suc j) row2 h r = r.cells j (omega arith)

  fill_row-IsRow :
      (k i j : ℕ) (row2 row1 row0 : List ℕ)
      → suc j + k ≡ width
      → CornerRow i row2
      → IsRow w a b width i width row1
      → IsRow w a b width (suc i) (suc j) row0
      → IsRow w a b width (suc i) width (fill_row w a b k (suc i) (suc j) row2 row1 row0)
  unfolding fill_row
  fill_row-IsRow zero i j row2 row1 row0 e c p r =
      subst (λ n. IsRow w a b width (suc i) n row0) (let g : suc j ≡ width = omega arith in g) r
  fill_row-IsRow (suc k) i j row2 row1 row0 e c p r =
      let l =
        cell-IsLeast w a b i j row2 row1 row0 (p.cells (suc j) (omega arith))
          (r.cells j (omega arith)) (p.cells j (omega arith))
          (CornerRow-Corner i j row2 (omega arith) c) in
      fill_row-IsRow k i (suc j) row2 row1 _ (omega arith) c p
        (set-IsRow (suc i) (suc j) row0 _ (omega arith) r l)

  fill_rows-IsRow :
      (k m i : ℕ) (row2 row1 row0 : List ℕ)
      → suc m ≡ width
      → CornerRow i row2
      → length row2 ≡ width
      → IsRow w a b width i width row1
      → length row0 ≡ width
      → IsRow w a b width (i + k) width (fill_rows w a b k m (suc i) row2 row1 row0)
  unfolding fill_rows
  fill_rows-IsRow zero m i row2 row1 row0 e c size2 p size0 =
      subst (λ n. IsRow w a b width n width row1) (let g : i ≡ i + 0 = omega arith in g) p
  fill_rows-IsRow (suc k) m i row2 row1 row0 e c size2 p size0 =
      let first =
        set-IsRow (suc i) 0 row0 _ (omega arith)
          (record { size = size0; cells = λ j h. absurd (omega arith) })
          (IsLeast-deletions w a (suc i)) in
      let row = fill_row-IsRow m i 0 row2 row1 _ (omega arith) c p first in
      let last = fill_rows-IsRow k m (suc i) row1 _ row2 e p p.size row size2 in
      subst
        (λ n. IsRow w a b width n width (
          fill_rows w a b k m (suc (suc i)) row1
            (fill_row w a b m (suc i) 1 row2 row1 (set row0 0 (suc i * w.cd))) row2))
        (let g : suc i + k ≡ i + suc k = omega arith in g) last

pub fill_matrix-IsLeast :
    (w : Weights) (a b : List ℕ) (n m : ℕ)
    → IsLeast w (before a n) (before b m) (fill_matrix w a b n m)
unfolding fill_matrix
fill_matrix-IsLeast w a b n m =
    let row : List ℕ = replicate (m + 1) 0 in
    let size : length row ≡ m + 1 = length-replicate (m + 1) 0 in
    let empty : IsRow w a b (m + 1) 0 0 row = record {
      size = size;
      cells = λ j h. absurd (omega arith);
    } in
    let first = fill_first-IsRow w a b (m + 1) (m + 1) 0 row (omega arith) empty in
    let last = fill_rows-IsRow w a b (m + 1) n m 0 row _ row (omega arith) tt size first size in
    subst (λ i. IsLeast w (before a i) (before b m) (fill_matrix w a b n m))
      (let g : 0 + n ≡ n = omega arith in g) (last.cells m (omega arith))
