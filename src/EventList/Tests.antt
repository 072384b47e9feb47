-- ===== src/EventList/Tests.antt =====
-- The theorems about ase/eventlist.hh at a list of numbers.
use anklang.Prelude.{ℕ, ◌≡◌, refl, arith, [], ◌∷◌, none, some, inl}
use anklang.EventList.Order.{compare_lesser, compare_lesser-IsOrder}
use anklang.EventList.Lookup.{
  search_loop, binary_lookup_fuzzy, binary_lookup, or_end, insertion_pos,
  binary_lookup_insertion_pos,
}
use anklang.EventList.Sorted.{cmp_at, IsSorted-range}
use anklang.EventList.Lookup.Laws.{InsertsAt, binary_lookup_insertion_pos-InsertsAt}
use anklang.EventList.List.{EventList, insert, remove, remove_by, lookup_after, stable_sort}
use anklang.EventList.Insert.{Inserted, insert-Inserted}
use anklang.EventList.Remove.{Removed, remove-Removed}
use mathlib.Core.List.{Perm}
use anklang.EventList.Sort.{stable_sort-perm}
use anklang.EventList.Run.{IsValid, inserts, removes, orders, run, run-IsValid}

abbrev numbers : EventList ℕ
numbers = record { events = 2 ∷ 4 ∷ 6 ∷ 8 ∷ []; ordered = none }

lookup_after_five : lookup_after compare_lesser numbers 5 ≡ some 6
unfolding lookup_after binary_lookup_insertion_pos insertion_pos binary_lookup_fuzzy search_loop
lookup_after_five = refl

-- 5 is not there, and 8 goes.
remove_five : (remove compare_lesser numbers 5).list.events ≡ 2 ∷ 4 ∷ 6 ∷ []
unfolding remove remove_by binary_lookup or_end binary_lookup_fuzzy search_loop
remove_five = refl

insert-Inserted_example : Inserted compare_lesser numbers.events 5 (insert compare_lesser numbers 5)
insert-Inserted_example = insert-Inserted compare_lesser-IsOrder numbers 5 (ground arith)

remove-Removed_example : Removed compare_lesser numbers.events 4 (remove compare_lesser numbers 4)
remove-Removed_example = remove-Removed compare_lesser-IsOrder numbers 4 4 (ground arith) refl

run-IsValid_example :
    IsValid compare_lesser compare_lesser
      (run compare_lesser compare_lesser numbers (orders ∷ inserts 5 ∷ removes 7 ∷ orders ∷ []))
run-IsValid_example =
    run-IsValid compare_lesser compare_lesser-IsOrder numbers
      (orders ∷ inserts 5 ∷ removes 7 ∷ orders ∷ [])
      (record { sorted = ground arith; cached = inl refl })

stable_sort-perm_example :
    Perm (stable_sort compare_lesser (5 ∷ 3 ∷ 1 ∷ 3 ∷ [])) (5 ∷ 3 ∷ 1 ∷ 3 ∷ [])
stable_sort-perm_example = stable_sort-perm compare_lesser (5 ∷ 3 ∷ 1 ∷ 3 ∷ [])

binary_lookup_insertion_pos-InsertsAt_example :
    InsertsAt
      (cmp_at compare_lesser numbers.events 5)
      4
      (binary_lookup_insertion_pos (cmp_at compare_lesser numbers.events 5) 4)
binary_lookup_insertion_pos-InsertsAt_example =
    binary_lookup_insertion_pos-InsertsAt (cmp_at compare_lesser numbers.events 5) 4
      (IsSorted-range compare_lesser-IsOrder numbers.events 5 (ground arith))
