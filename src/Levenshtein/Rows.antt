-- ===== src/Levenshtein/Rows.antt =====
-- The rows of damerau_levenshtein_restricted (ase/levenshtein.cc) hold least costs.
use anklang.Prelude.{
  ℕ, zero, suc, ◌+◌, ◌-◌, ◌≤◌, ◌<◌, min, ◌≡◌, refl, sym, ◌∙◌, ◌≢◌, inl, inr, true, false, not, ◌&&◌,
  List, arith, ◌==◌, Bool-cases, length, get_or,
}
use anklang.Levenshtein.Restricted.{Weights, min3, substitution, is_transposed, cell}
use anklang.Levenshtein.Scripts.{replacing, IsLeast}
use anklang.Levenshtein.Reversal.{before}
use anklang.Levenshtein.Cells.{Transposed, IsLeast-three, IsLeast-four_equal}

module _ (w : Weights) (a b : List ℕ) where
  -- `width` cells, of which those below `upto` are least costs for the first `i` characters of the source
  pub record IsRow (width i upto : ℕ) (row : List ℕ) : Type 0 where
    pub size : length row ≡ width
    pub cells : (j : ℕ) → j < upto → IsLeast w (before a i) (before b j) (get_or row j 0)

  -- The cell that a transposition leads to, where there is one
  abbrev pub Corner : ℕ → ℕ → List ℕ → Type 0
  Corner zero j row2 = Unit
  Corner (suc i) zero row2 = Unit
  Corner (suc i) (suc j) row2 = IsLeast w (before a i) (before b j) (get_or row2 j 0)

  -- The tests and sums of a cell, with the indices worked out
  is_transposed_lem :
      (i j : ℕ)
      → is_transposed w a b (suc (suc i)) (suc (suc j)) ≡ (
          not (get_or a (suc i) 0 == get_or b (suc j) 0)
          && ((get_or a (suc i) 0 == get_or b j 0) && (get_or a i 0 == get_or b (suc j) 0)))
  unfolding is_transposed
  is_transposed_lem i j =
      let i1 : suc (suc i) - 1 ≡ suc i = omega arith in
      let j1 : suc (suc j) - 1 ≡ suc j = omega arith in
      let i2 : suc (suc i) - 2 ≡ i = omega arith in
      let j2 : suc (suc j) - 2 ≡ j = omega arith in rw (i1, j1, i2, j2) (ground arith)

  three_at : ℕ → ℕ → List ℕ → List ℕ → ℕ
  three_at i j row1 row0 =
      min3 (get_or row1 (suc j) 0 + w.cd) (get_or row0 j 0 + w.ci)
        (get_or row1 j 0 + replacing w (get_or a i 0) (get_or b j 0))

  substitution_lem :
      (i j : ℕ) (row1 row0 : List ℕ)
      → substitution w a b (suc i) (suc j) row1 row0 ≡ three_at i j row1 row0
  unfolding substitution three_at
  substitution_lem i j row1 row0 =
      let i1 : suc i - 1 ≡ i = omega arith in
      let j1 : suc j - 1 ≡ j = omega arith in rw (i1, j1) refl

  no_transposition :
      (v i j : ℕ)
      → is_transposed w a b (suc i) (suc j) ≡ false
      → Transposed w v (get_or a i 0) (get_or b j 0) (before a i) (before b j)
  no_transposition v zero j e = tt
  no_transposition v (suc i) zero e = tt
  no_transposition v (suc i) (suc j) e =
      λ p q n s. ground (arith, sym (is_transposed_lem i j) ∙ e, p, q, n)

  cell-plain :
      (i j : ℕ) (row2 row1 row0 : List ℕ)
      → is_transposed w a b (suc i) (suc j) ≡ false
      → cell w a b (suc i) (suc j) row2 row1 row0 ≡ three_at i j row1 row0
  unfolding cell
  cell-plain i j row2 row1 row0 e = rw e (substitution_lem i j row1 row0)

  cell-transposed :
      (i j : ℕ) (row2 row1 row0 : List ℕ)
      → is_transposed w a b (suc (suc i)) (suc (suc j)) ≡ true
      → cell w a b (suc (suc i)) (suc (suc j)) row2 row1 row0
        ≡ min (three_at (suc i) (suc j) row1 row0) (get_or row2 j 0 + w.ct)
  unfolding cell
  cell-transposed i j row2 row1 row0 e =
      let j2 : suc (suc j) - 2 ≡ j = omega arith in
      rw (e, j2, substitution_lem (suc i) (suc j) row1 row0) refl

  not_at_edge : (i j : ℕ) → is_transposed w a b (suc i) (suc j) ≡ true → (1 ≤ i) × (1 ≤ j)
  unfolding is_transposed
  not_at_edge i j e = (ground (arith, e), ground (arith, e))

  plain-IsLeast :
      (i j : ℕ) (row2 row1 row0 : List ℕ)
      → IsLeast w (before a i) (before b (suc j)) (get_or row1 (suc j) 0)
      → IsLeast w (before a (suc i)) (before b j) (get_or row0 j 0)
      → IsLeast w (before a i) (before b j) (get_or row1 j 0)
      → is_transposed w a b (suc i) (suc j) ≡ false
      → IsLeast w (before a (suc i)) (before b (suc j)) (cell w a b (suc i) (suc j) row2 row1 row0)
  unfolding three_at
  plain-IsLeast i j row2 row1 row0 d n r e =
      rw (cell-plain i j row2 row1 row0 e) (IsLeast-three w d n r (no_transposition _ i j e))

  transposed-IsLeast :
      (i j : ℕ) (row2 row1 row0 : List ℕ)
      → IsLeast w (before a (suc i)) (before b (suc (suc j))) (get_or row1 (suc (suc j)) 0)
      → IsLeast w (before a (suc (suc i))) (before b (suc j)) (get_or row0 (suc j) 0)
      → IsLeast w (before a (suc i)) (before b (suc j)) (get_or row1 (suc j) 0)
      → IsLeast w (before a i) (before b j) (get_or row2 j 0)
      → is_transposed w a b (suc (suc i)) (suc (suc j)) ≡ true
      → IsLeast w
          (before a (suc (suc i)))
          (before b (suc (suc j)))
          (cell w a b (suc (suc i)) (suc (suc j)) row2 row1 row0)
  unfolding three_at
  transposed-IsLeast i j row2 row1 row0 d n r c e =
      let t = sym (is_transposed_lem i j) ∙ e in
      let x : get_or a (suc i) 0 ≢ get_or b (suc j) 0 = ground (arith, t) in
      let y : get_or b j 0 ≡ get_or a (suc i) 0 = ground (arith, t) in
      let z : get_or a i 0 ≡ get_or b (suc j) 0 = ground (arith, t) in
      rw (cell-transposed i j row2 row1 row0 e) (IsLeast-four_equal w y z x d n r c)

  pub cell-IsLeast :
      (i j : ℕ) (row2 row1 row0 : List ℕ)
      → IsLeast w (before a i) (before b (suc j)) (get_or row1 (suc j) 0)
      → IsLeast w (before a (suc i)) (before b j) (get_or row0 j 0)
      → IsLeast w (before a i) (before b j) (get_or row1 j 0)
      → Corner i j row2
      → IsLeast w (before a (suc i)) (before b (suc j)) (cell w a b (suc i) (suc j) row2 row1 row0)
  cell-IsLeast zero j row2 row1 row0 d n r c = elim (Bool-cases (is_transposed w a b 1 (suc j))) [
    | inl e ↦ absurd (let h = not_at_edge 0 j e in omega arith)
    | inr e ↦ plain-IsLeast 0 j row2 row1 row0 d n r e
  ]
  cell-IsLeast (suc i) zero row2 row1 row0 d n r c =
      elim (Bool-cases (is_transposed w a b (suc (suc i)) 1)) [
        | inl e ↦ absurd (let h = not_at_edge (suc i) 0 e in omega arith)
        | inr e ↦ plain-IsLeast (suc i) 0 row2 row1 row0 d n r e
      ]
  cell-IsLeast (suc i) (suc j) row2 row1 row0 d n r c =
      elim (Bool-cases (is_transposed w a b (suc (suc i)) (suc (suc j)))) [
        | inl e ↦ transposed-IsLeast i j row2 row1 row0 d n r c e
        | inr e ↦ plain-IsLeast (suc i) (suc j) row2 row1 row0 d n r e
      ]
