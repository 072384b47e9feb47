-- ===== src/Levenshtein/Optimal.antt =====
-- damerau_levenshtein_restricted (ase/levenshtein.cc) gives the least cost of an edit script.
use anklang.Prelude.{ℕ, zero, suc, ◌≡◌, inl, inr, false, List, arith, ltb, ◌==◌, Bool-cases, length}
use anklang.Levenshtein.Restricted.{
  Weights, strip_prefix, strip_suffix, distance_at, restricted_ordered,
  damerau_levenshtein_restricted,
}
use anklang.Levenshtein.Scripts.{IsLeast}
use anklang.Levenshtein.Common.{flipped, IsLeast-flip}
use anklang.Levenshtein.Reversal.{
  before, IsLeast-before, IsLeast-strip_prefix, IsLeast-strip_suffix,
}
use anklang.Levenshtein.Cells.{IsLeast-insertions, IsLeast-deletions}
use anklang.Levenshtein.Matrix.{fill_matrix-IsLeast}

distance_at-IsLeast :
    (w : Weights) (a b : List ℕ) (n m : ℕ)
    → IsLeast w (before a n) (before b m) (distance_at w a b n m)
unfolding distance_at
distance_at-IsLeast w a b zero m = IsLeast-insertions w b m
distance_at-IsLeast w a b (suc n) zero =
    let e : (suc n == 0) ≡ false = ground arith in rw e (IsLeast-deletions w a (suc n))
distance_at-IsLeast w a b (suc n) (suc m) =
    let e : (suc n == 0) ≡ false = ground arith in
    let f : (suc m == 0) ≡ false = ground arith in
    rw (e, f) (fill_matrix-IsLeast w a b (suc n) (suc m))

restricted_ordered-IsLeast :
    (w : Weights) (source target : List ℕ)
    → IsLeast w source target (restricted_ordered w source target)
unfolding restricted_ordered
restricted_ordered-IsLeast w source target =
    let s = strip_prefix source target in
    let l = strip_suffix s.0 s.1 (length s.0) (length s.1) in
    IsLeast-strip_prefix w source target _ (
      IsLeast-before w s.0 s.1 _ (
        IsLeast-strip_suffix w s.0 s.1 (length s.0) (length s.1) _
          (distance_at-IsLeast w s.0 s.1 l.0 l.1)))

-- For any two strings and any weights that are natural numbers: an edit script from the source to
-- the target has the cost that the function returns, and none has a lower one. A script deletes,
-- inserts and replaces characters and transposes two neighbours that differ, which it does not
-- edit again.
pub damerau_levenshtein_restricted-IsLeast :
    (w : Weights) (source target : List ℕ)
    → IsLeast w source target (damerau_levenshtein_restricted source target w)
unfolding damerau_levenshtein_restricted
damerau_levenshtein_restricted-IsLeast w source target =
    elim (Bool-cases (ltb (length source) (length target))) [
      | inl e ↦
          rw e
            (IsLeast-flip w source target _ (restricted_ordered-IsLeast (flipped w) target source))
      | inr e ↦ rw e (restricted_ordered-IsLeast w source target)
    ]
