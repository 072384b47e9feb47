-- ===== src/EventList/Sorted.antt =====
-- Lists sorted by a comparison, and the search from the front that the binary lookups of
-- ase/eventlist.hh stand for.
use anklang.Prelude.{
  ℕ, zero, suc, ◌<◌, ◌≡◌, ◌≢◌, refl, Bool, true, false, Ordering, arith, if◌then◌else◌, List, [],
  ◌∷◌, Option, none, some, length, get_or, insert_at,
}
use anklang.EventList.Order.{Compare, IsOrder, lt_of_ne-gt}
use anklang.EventList.Lookup.Laws.{IsSortedRange, Splits}

abbrev pub is_eq : Ordering → Bool
is_eq Ordering.eq = true
is_eq _ = false

module _ {ℓ} {E : Type ℓ} (cmp : Compare E) where
  -- The first element that compares equal, looked for from the front.
  abbrev pub find : E → List E → Option E
  find e [] = none
  find e (x ∷ xs) = if is_eq (cmp e x) then some x else find e xs

  abbrev pub AllAbove : E → List E → Type 0
  AllAbove x [] = Unit
  AllAbove x (y ∷ ys) = (cmp x y ≡ Ordering.lt) × AllAbove x ys

  -- Ascending, with no two equal.
  abbrev pub IsSorted : List E → Type 0
  IsSorted [] = Unit
  IsSorted (x ∷ xs) = AllAbove x xs × IsSorted xs

  -- `cmp_elements (arg, begin[i])`
  abbrev pub cmp_at : List E → E → ℕ → Ordering
  cmp_at xs e i = cmp e (get_or xs i e)

module _ {ℓ} {E : Type ℓ} {cmp : Compare E} (o : IsOrder cmp) where
  pub AllAbove-at :
      (x d : E) (ys : List E) (j : ℕ)
      → AllAbove cmp x ys
      → j < length ys
      → cmp x (get_or ys j d) ≡ Ordering.lt
  AllAbove-at x d [] j a h = absurd (omega arith)
  AllAbove-at x d (y ∷ ys) zero a h = a.0
  AllAbove-at x d (y ∷ ys) (suc j) a h = AllAbove-at x d ys j a.1 (omega arith)

  AllAbove-trans :
      (x y : E) (zs : List E) → cmp x y ≢ Ordering.gt → AllAbove cmp y zs → AllAbove cmp x zs
  AllAbove-trans x y [] h a = tt
  AllAbove-trans x y (z ∷ zs) h a = (lt_of_ne-gt o x y z h a.0, AllAbove-trans x y zs h a.1)

  pub IsSorted-range :
      (xs : List E) (e : E) → IsSorted cmp xs → IsSortedRange (cmp_at cmp xs e) (length xs)
  IsSorted-range [] e s i j p q h = absurd (omega arith)
  IsSorted-range (x ∷ xs) e s zero zero p q h = absurd (omega arith)
  IsSorted-range (x ∷ xs) e s zero (suc j) p q h =
      lt_of_ne-gt o e x _ h (AllAbove-at x e xs j s.0 (omega arith))
  IsSorted-range (x ∷ xs) e s (suc i) zero p q h = absurd (omega arith)
  IsSorted-range (x ∷ xs) e s (suc i) (suc j) p q h =
      IsSorted-range xs e s.1 i j (omega arith) (omega arith) h

  -- Where nothing equals `e` there is nothing to find.
  pub find-none :
      (xs : List E) (e : E)
      → ((j : ℕ) → j < length xs → cmp_at cmp xs e j ≢ Ordering.eq)
      → find cmp e xs ≡ none
  find-none [] e h = refl
  find-none (x ∷ xs) e h = ground (arith, h 0, find-none xs e (λ j p. h (suc j) (omega arith)))

  -- An equal element of a sorted list is the one found.
  pub find-some :
      (xs : List E) (e : E) (p : ℕ)
      → IsSorted cmp xs
      → p < length xs
      → cmp_at cmp xs e p ≡ Ordering.eq
      → find cmp e xs ≡ some (get_or xs p e)
  find-some [] e p s h q = absurd (omega arith)
  find-some (x ∷ xs) e zero s h q = rw q refl
  find-some (x ∷ xs) e (suc p) s h q =
      let above : cmp x (get_or xs p e) ≡ Ordering.lt = AllAbove-at x e xs p s.0 (omega arith) in
      let ne : cmp e x ≢ Ordering.eq =
        λ r. cc (lt_of_ne-gt o e x (get_or xs p e) (λ g. cc) above) in
      ground (arith, find-some xs e p s.1 (omega arith) q)

  -- Insertion at the place that splits the list.
  pub insert_at-IsSorted :
      (xs : List E) (e : E) (p : ℕ)
      → IsSorted cmp xs
      → Splits (cmp_at cmp xs e) (length xs) p
      → IsSorted cmp (insert_at xs p e)
  insert_at-IsSorted [] e zero s h = (tt, tt)
  insert_at-IsSorted [] e (suc p) s h = absurd (omega (arith, h.in_range))
  insert_at-IsSorted (x ∷ xs) e zero s h =
      let first : cmp e x ≡ Ordering.lt = h.below 0 (omega arith) (omega arith) in
      ((first, AllAbove-trans e x xs (λ g. cc) s.0), s)
  insert_at-IsSorted (x ∷ xs) e (suc p) s h = (
    AllAbove-insert_at x xs e p s.0 (ground (arith, h.above 0, o.swap e x)),
    insert_at-IsSorted xs e p s.1 (Splits-tail x xs e p h),
  )
    where
      AllAbove-insert_at :
          (x : E) (xs : List E) (e : E) (p : ℕ)
          → AllAbove cmp x xs
          → cmp x e ≡ Ordering.lt
          → AllAbove cmp x (insert_at xs p e)
      AllAbove-insert_at x xs e zero a h = (h, a)
      AllAbove-insert_at x [] e (suc p) a h = (h, tt)
      AllAbove-insert_at x (y ∷ ys) e (suc p) a h = (a.0, AllAbove-insert_at x ys e p a.1 h)

      Splits-tail :
          (x : E) (xs : List E) (e : E) (p : ℕ)
          → Splits (cmp_at cmp (x ∷ xs) e) (suc (length xs)) (suc p)
          → Splits (cmp_at cmp xs e) (length xs) p
      Splits-tail x xs e p h = record {
        in_range = omega (arith, h.in_range);
        above = λ j q. h.above (suc j) (omega arith);
        below = λ j q r. h.below (suc j) (omega arith) (omega arith);
      }
