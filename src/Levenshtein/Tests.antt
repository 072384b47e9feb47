-- ===== src/Levenshtein/Tests.antt =====
-- Runs of ase/levenshtein.cc, after its own tests.
use anklang.Prelude.{ℕ, ◌≡◌, refl, List, [], ◌∷◌}
use anklang.Levenshtein.Restricted.{
  Weights, strip_prefix, strip_suffix, fill_first, substitution, is_transposed, cell, fill_row,
  fill_rows, fill_matrix, distance_at, restricted_ordered, damerau_levenshtein_restricted,
}
use anklang.Levenshtein.Scripts.{IsLeast}
use anklang.Levenshtein.Optimal.{damerau_levenshtein_restricted-IsLeast}

abbrev unit : Weights
unit = record { ci = 1; cd = 1; cs = 1; ct = 1 }

abbrev kitten : List ℕ
kitten = b'k' ∷ b'i' ∷ b't' ∷ b't' ∷ b'e' ∷ b'n' ∷ []

abbrev sitting : List ℕ
sitting = b's' ∷ b'i' ∷ b't' ∷ b't' ∷ b'i' ∷ b'n' ∷ b'g' ∷ []

abbrev a_cat : List ℕ
a_cat = b'a' ∷ b' ' ∷ b'c' ∷ b'a' ∷ b't' ∷ []

abbrev an_act : List ℕ
an_act = b'a' ∷ b'n' ∷ b' ' ∷ b'a' ∷ b'c' ∷ b't' ∷ []

test_kitten : damerau_levenshtein_restricted kitten sitting unit ≡ 3
unfolding strip_prefix strip_suffix fill_first substitution is_transposed cell fill_row fill_rows
    fill_matrix distance_at restricted_ordered damerau_levenshtein_restricted
test_kitten = refl

test_cat : damerau_levenshtein_restricted a_cat an_act unit ≡ 2
unfolding strip_prefix strip_suffix fill_first substitution is_transposed cell fill_row fill_rows
    fill_matrix distance_at restricted_ordered damerau_levenshtein_restricted
test_cat = refl

damerau_levenshtein_restricted-IsLeast_example :
    IsLeast unit a_cat an_act (damerau_levenshtein_restricted a_cat an_act unit)
damerau_levenshtein_restricted-IsLeast_example =
    damerau_levenshtein_restricted-IsLeast unit a_cat an_act
