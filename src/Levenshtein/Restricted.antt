-- ===== src/Levenshtein/Restricted.antt =====
-- damerau_levenshtein_restricted (ase/levenshtein.cc) on strings as lists of bytes, for weights that are whole
-- numbers, with no rounding.
use anklang.Prelude.{
  ℕ, zero, suc, ◌+◌, ◌-◌, ◌*◌, min, Bool, not, ◌&&◌, List, ◌∷◌, ltb, ◌==◌, if◌then◌else◌, length,
  set, get_or, replicate,
}

pub record Weights : Type 0 where
  pub ci : ℕ
  pub cd : ℕ
  pub cs : ℕ
  pub ct : ℕ

-- The strings behind their common prefix
unfoldable pub strip_prefix : List ℕ → List ℕ → List ℕ × List ℕ
strip_prefix (x ∷ a) (y ∷ b) =
    let rest = strip_prefix a b in if x == y then rest else (x ∷ a, y ∷ b)
strip_prefix a b = (a, b)

-- The lengths without the common suffix
unfoldable pub strip_suffix : List ℕ → List ℕ → ℕ → ℕ → ℕ × ℕ
strip_suffix a b (suc n) (suc m) =
    let rest = strip_suffix a b n m in if get_or a n 0 == get_or b m 0 then rest else (suc n, suc m)
strip_suffix a b n m = (n, m)

abbrev pub min3 : ℕ → ℕ → ℕ → ℕ
min3 a b c = min a (min b c)

module _ (w : Weights) where
  -- row1 from index `j` on, for `k` cells
  unfoldable pub fill_first : ℕ → ℕ → List ℕ → List ℕ
  fill_first zero j row1 = row1
  fill_first (suc k) j row1 = fill_first k (suc j) (set row1 j (j * w.ci))

  module _ (a b : List ℕ) where
    unfoldable pub substitution : ℕ → ℕ → List ℕ → List ℕ → ℕ
    substitution i j row1 row0 =
        min3 (get_or row1 j 0 + w.cd) (get_or row0 (j - 1) 0 + w.ci)
          (get_or row1 (j - 1) 0 + (if get_or a (i - 1) 0 == get_or b (j - 1) 0 then 0 else w.cs))

    unfoldable pub is_transposed : ℕ → ℕ → Bool
    is_transposed i j =
        not (get_or a (i - 1) 0 == get_or b (j - 1) 0)
        && (ltb 1 i
            && (ltb 1 j
                && ((get_or a (i - 1) 0 == get_or b (j - 2) 0)
                    && (get_or a (i - 2) 0 == get_or b (j - 1) 0))))

    -- row0[j]
    unfoldable pub cell : ℕ → ℕ → List ℕ → List ℕ → List ℕ → ℕ
    cell i j row2 row1 row0 =
        let value = substitution i j row1 row0 in
        if is_transposed i j then min value (get_or row2 (j - 2) 0 + w.ct) else value

    -- row0 from index `j` on, for `k` cells
    unfoldable pub fill_row : ℕ → ℕ → ℕ → List ℕ → List ℕ → List ℕ → List ℕ
    fill_row zero i j row2 row1 row0 = row0
    fill_row (suc k) i j row2 row1 row0 =
        fill_row k i (suc j) row2 row1 (set row0 j (cell i j row2 row1 row0))

    -- The rows from index `i` on, for `k` rows with `m` cells each behind the first; the result is row1.
    unfoldable pub fill_rows : ℕ → ℕ → ℕ → List ℕ → List ℕ → List ℕ → List ℕ
    fill_rows zero m i row2 row1 row0 = row1
    fill_rows (suc k) m i row2 row1 row0 =
        fill_rows k m (suc i) row1 (fill_row m i 1 row2 row1 (set row0 0 (i * w.cd))) row2

    unfoldable pub fill_matrix : ℕ → ℕ → ℕ
    fill_matrix n m =
        let row = replicate (m + 1) 0 in
        get_or (fill_rows n m 1 row (fill_first (m + 1) 0 row) row) m 0

    unfoldable pub distance_at : ℕ → ℕ → ℕ
    distance_at n m = if n == 0 then m * w.ci else if m == 0 then n * w.cd else fill_matrix n m

  -- For a target that is not longer than the source
  unfoldable pub restricted_ordered : List ℕ → List ℕ → ℕ
  restricted_ordered source target =
      let s = strip_prefix source target in
      let l = strip_suffix s.0 s.1 (length s.0) (length s.1) in distance_at s.0 s.1 l.0 l.1

unfoldable pub damerau_levenshtein_restricted : List ℕ → List ℕ → Weights → ℕ
damerau_levenshtein_restricted source target w =
    if ltb (length source) (length target)
    then restricted_ordered (record { ci = w.cd; cd = w.ci; cs = w.cs; ct = w.ct }) target source
    else restricted_ordered w source target
