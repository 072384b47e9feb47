-- ===== src/EventList/Sort.antt =====
-- The stable sort of OrderedEventList (ase/eventlist.hh).
use mathlib.Core.List.{Perm}
use mathlib.Core.List.Perm
use anklang.Prelude.{
  ◌≡◌, ◌≢◌, refl, sym, ap, ◌∙◌, Ordering, arith, if◌then◌else◌, inl, inr, List, [], ◌∷◌, Bool-cases,
}
use anklang.EventList.Order.{Compare, IsOrder, Ordering-cases}
use anklang.EventList.Sorted.{is_eq}
use anklang.EventList.List.{is_gt, insert_before, stable_sort}

module _ {ℓ} {E : Type ℓ} (cmp : Compare E) where
  -- No element of the list is below `x`.
  abbrev pub NoneBelow : E → List E → Type 0
  NoneBelow x [] = Unit
  NoneBelow x (y ∷ ys) = (cmp x y ≢ Ordering.gt) × NoneBelow x ys

  abbrev pub IsAscending : List E → Type 0
  IsAscending [] = Unit
  IsAscending (x ∷ xs) = NoneBelow x xs × IsAscending xs

  -- The elements that equal `k`, in their order.
  abbrev pub equals : E → List E → List E
  equals k [] = []
  equals k (x ∷ xs) = if is_eq (cmp k x) then x ∷ equals k xs else equals k xs

  insert_before-perm : (e : E) (xs : List E) → Perm (insert_before cmp e xs) (e ∷ xs)
  unfolding insert_before
  insert_before-perm e [] = Perm.refl _
  insert_before-perm e (x ∷ xs) = elim (Bool-cases (is_gt (cmp e x))) [
    | inl g ↦ rw g (Perm.trans (Perm.cons x (insert_before-perm e xs)) (Perm.swap e x xs))
    | inr n ↦ rw n (Perm.refl _)
  ]

  -- Sorting gives a permutation of the events.
  pub stable_sort-perm : (xs : List E) → Perm (stable_sort cmp xs) xs
  unfolding stable_sort
  stable_sort-perm [] = Perm.refl _
  stable_sort-perm (x ∷ xs) =
      Perm.trans (insert_before-perm x (stable_sort cmp xs)) (Perm.cons x (stable_sort-perm xs))

module _ {ℓ} {E : Type ℓ} {cmp : Compare E} (o : IsOrder cmp) where
  not_gt_trans : (a b c : E) → cmp a b ≢ Ordering.gt → cmp b c ≢ Ordering.gt → cmp a c ≢ Ordering.gt
  not_gt_trans a b c h k g = elim (Ordering-cases (cmp a b)) [
    | inr (inr q) ↦ h q
    | inr (inl q) ↦ k (sym (o.eq_left a b c q) ∙ g)
    | inl q ↦ elim (Ordering-cases (cmp b c)) [
      | inr (inr r) ↦ k r
      | inl r ↦ cc (o.lt_trans a b c q r)
      | inr (inl r) ↦ ground (arith, o.eq_left b c a r, o.swap a b, o.swap a c)
    ]
  ]

  NoneBelow-trans :
      (x y : E) (zs : List E) → cmp x y ≢ Ordering.gt → NoneBelow cmp y zs → NoneBelow cmp x zs
  NoneBelow-trans x y [] h a = tt
  NoneBelow-trans x y (z ∷ zs) h a = (not_gt_trans x y z h a.0, NoneBelow-trans x y zs h a.1)

  NoneBelow-insert_before :
      (x e : E) (xs : List E)
      → NoneBelow cmp x xs
      → cmp x e ≢ Ordering.gt
      → NoneBelow cmp x (insert_before cmp e xs)
  unfolding insert_before
  NoneBelow-insert_before x e [] a h = (h, tt)
  NoneBelow-insert_before x e (y ∷ ys) a h = elim (Bool-cases (is_gt (cmp e y))) [
    | inl g ↦ rw g (a.0, NoneBelow-insert_before x e ys a.1 h)
    | inr n ↦ rw n (h, a)
  ]

  insert_before-IsAscending :
      (e : E) (xs : List E) → IsAscending cmp xs → IsAscending cmp (insert_before cmp e xs)
  unfolding insert_before
  insert_before-IsAscending e [] a = (tt, tt)
  insert_before-IsAscending e (x ∷ xs) a = elim (Bool-cases (is_gt (cmp e x))) [
    | inl g ↦ rw g (
      NoneBelow-insert_before x e xs a.0 (λ q. ground (arith, o.swap e x)),
      insert_before-IsAscending e xs a.1,
    )
    | inr n ↦ rw n ((λ q. ground arith, NoneBelow-trans e x xs (λ q. ground arith) a.0), a)
  ]

  -- Sorting by an order puts the events in ascending order.
  pub stable_sort-IsAscending : (xs : List E) → IsAscending cmp (stable_sort cmp xs)
  unfolding stable_sort
  stable_sort-IsAscending [] = tt
  stable_sort-IsAscending (x ∷ xs) = insert_before-IsAscending x _ (stable_sort-IsAscending xs)

  equals-insert_before :
      (k e : E) (xs : List E) → equals cmp k (insert_before cmp e xs) ≡ equals cmp k (e ∷ xs)
  unfolding insert_before
  equals-insert_before k e [] = refl
  equals-insert_before k e (x ∷ xs) =
      ground (arith, equals-insert_before k e xs, o.eq_left k e x, o.swap k e)

  -- Sorting by an order is stable: the events that compare equal to any key keep their number
  -- and their order.
  equals-stable_sort : (k : E) (xs : List E) → equals cmp k (stable_sort cmp xs) ≡ equals cmp k xs
  unfolding stable_sort
  equals-stable_sort k [] = refl
  equals-stable_sort k (x ∷ xs) =
      equals-insert_before k x (stable_sort cmp xs)
      ∙ ap (λ t. if is_eq (cmp k x) then x ∷ t else t) (equals-stable_sort k xs)
