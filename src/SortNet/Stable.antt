-- ===== src/SortNet/Stable.antt =====
-- An insertion sort is a sort as fixed_sort (ase/sortnet.hh) needs it for long inputs.
use anklang.Prelude.{
  ℕ, ◌+◌, ◌≡◌, refl, arith, Ordering, false, List, [], ◌∷◌, inl, inr, Bool-cases, ◌≢◌,
}
use anklang.Prelude.Totals.{total}
use anklang.EventList.Order.{Compare, IsOrder}
use anklang.EventList.List.{is_gt, insert_before, stable_sort}
use anklang.EventList.Sort.{IsAscending, stable_sort-IsAscending}
use anklang.SortNet.Sort.{lesser}
use anklang.SortNet.ZeroOne.{Ascends}
use anklang.SortNet.Fixed.{IsSortOf}

module _ {E : Type 0} {cmp : Compare E} (o : IsOrder cmp) where
  not_gt-not_lesser : (a b : E) → cmp a b ≢ Ordering.gt → lesser cmp b a ≡ false
  not_gt-not_lesser a b n = ground (arith, o.swap a b)

  IsAscending-Ascends : (v : List E) → IsAscending cmp v → Ascends cmp v
  IsAscending-Ascends [] a = tt
  IsAscending-Ascends (x ∷ []) a = tt
  IsAscending-Ascends (x ∷ y ∷ v) a = (not_gt-not_lesser x y a.0.0, IsAscending-Ascends (y ∷ v) a.1)

  total-insert_before :
      (g : E → ℕ) (e : E) (v : List E) → total g (insert_before cmp e v) ≡ g e + total g v
  unfolding insert_before
  total-insert_before g e [] = refl
  total-insert_before g e (x ∷ v) = elim (Bool-cases (is_gt (cmp e x))) [
    | inl q ↦ rw q (omega (arith, total-insert_before g e v))
    | inr q ↦ rw q refl
  ]

  total-stable_sort : (g : E → ℕ) (v : List E) → total g (stable_sort cmp v) ≡ total g v
  unfolding stable_sort
  total-stable_sort g [] = refl
  total-stable_sort g (x ∷ v) =
      omega (arith, total-insert_before g x (stable_sort cmp v), total-stable_sort g v)

  pub stable_sort-IsSortOf : (v : List E) → IsSortOf cmp v (stable_sort cmp v)
  stable_sort-IsSortOf v = record {
    ascends = IsAscending-Ascends _ (stable_sort-IsAscending o v);
    keeps = λ g. total-stable_sort g v;
  }
