-- ===== src/SortNet/Tests.antt =====
-- fixed_sort (ase/sortnet.hh) at lists of numbers.
use anklang.Prelude.{ℕ, ◌≡◌, refl, List, [], ◌∷◌}
use anklang.EventList.Order.{compare_lesser, compare_lesser-IsOrder}
use anklang.EventList.List.{stable_sort}
use anklang.SortNet.Sort.{run, sort_by, fixed_sort}
use anklang.SortNet.Fixed.{IsSortOf, fixed_sort-IsSortOf}
use anklang.SortNet.Stable.{stable_sort-IsSortOf}

abbrev numbers : List ℕ
numbers = 5 ∷ 3 ∷ 9 ∷ 1 ∷ 5 ∷ 7 ∷ 2 ∷ []

sorted_numbers :
    fixed_sort (stable_sort compare_lesser) compare_lesser numbers ≡ 1 ∷ 2 ∷ 3 ∷ 5 ∷ 5 ∷ 7 ∷ 9 ∷ []
unfolding fixed_sort sort_by run
sorted_numbers = refl

fixed_sort-IsSortOf_example :
    IsSortOf compare_lesser numbers (fixed_sort (stable_sort compare_lesser) compare_lesser numbers)
fixed_sort-IsSortOf_example =
    fixed_sort-IsSortOf (stable_sort compare_lesser) compare_lesser-IsOrder
      (stable_sort-IsSortOf compare_lesser-IsOrder) numbers
