-- ===== src/EventList/Update.antt =====
-- Insertion, replacement and removal in a sorted list (ase/eventlist.hh), seen through `find`.
use anklang.Prelude.{
  ℕ, zero, suc, ◌<◌, ◌≡◌, ◌≢◌, refl, Ordering, arith, if◌then◌else◌, List, [], ◌∷◌, none, some,
  length, get_or, set, erase_at, insert_at,
}
use anklang.EventList.Order.{Compare, IsOrder, lt_of_ne-gt, eq_right}
use anklang.EventList.Sorted.{is_eq, find, AllAbove, IsSorted, cmp_at, AllAbove-at}

module _ {ℓ} {E : Type ℓ} {cmp : Compare E} (o : IsOrder cmp) where
  -- An element that nothing before `p` equals is found after an insertion at `p`; others are found
  -- as before.
  pub find-insert_at :
      (k : E) (xs : List E) (e : E) (p : ℕ)
      → ((j : ℕ) → j < p → j < length xs → cmp_at cmp xs e j ≢ Ordering.eq)
      → find cmp k (insert_at xs p e) ≡ (if is_eq (cmp k e) then some e else find cmp k xs)
  find-insert_at k xs e zero h = refl
  find-insert_at k [] e (suc p) h = refl
  find-insert_at k (x ∷ xs) e (suc p) h = ground (
    arith,
    find-insert_at k xs e p (λ j q r. h (suc j) (omega arith) (omega arith)),
    h 0,
    o.swap k e,
    o.eq_left k e x,
  )

  AllAbove-set :
      (x : E) (xs : List E) (p : ℕ) (e : E)
      → AllAbove cmp x xs
      → cmp x e ≡ Ordering.lt
      → AllAbove cmp x (set xs p e)
  AllAbove-set x [] p e a h = a
  AllAbove-set x (y ∷ ys) zero e a h = (h, a.1)
  AllAbove-set x (y ∷ ys) (suc p) e a h = (a.0, AllAbove-set x ys p e a.1 h)

  AllAbove-eq :
      (x y : E) (zs : List E) → cmp x y ≡ Ordering.eq → AllAbove cmp y zs → AllAbove cmp x zs
  AllAbove-eq x y [] h a = tt
  AllAbove-eq x y (z ∷ zs) h a = (ground (arith, o.eq_left x y z), AllAbove-eq x y zs h a.1)

  pub set-IsSorted :
      (xs : List E) (e : E) (p : ℕ)
      → IsSorted cmp xs
      → p < length xs
      → cmp_at cmp xs e p ≡ Ordering.eq
      → IsSorted cmp (set xs p e)
  set-IsSorted [] e p s h q = s
  set-IsSorted (x ∷ xs) e zero s h q = (AllAbove-eq e x xs q s.0, s.1)
  set-IsSorted (x ∷ xs) e (suc p) s h q =
      let y = get_or xs p e in
      let above : cmp x y ≡ Ordering.lt = AllAbove-at o x e xs p s.0 (omega arith) in
      (
        AllAbove-set x xs p e s.0 (ground (arith, o.swap e y, eq_right o x y e)),
        set-IsSorted xs e p s.1 (omega arith) q,
      )

  pub find-set :
      (k : E) (xs : List E) (e : E) (p : ℕ)
      → IsSorted cmp xs
      → p < length xs
      → cmp_at cmp xs e p ≡ Ordering.eq
      → find cmp k (set xs p e) ≡ (if is_eq (cmp k e) then some e else find cmp k xs)
  find-set k [] e p s h q = absurd (omega arith)
  find-set k (x ∷ xs) e zero s h q = ground (arith, eq_right o k e x q)
  find-set k (x ∷ xs) e (suc p) s h q =
      let y = get_or xs p e in
      let above : cmp x y ≡ Ordering.lt = AllAbove-at o x e xs p s.0 (omega arith) in
      ground (arith, find-set k xs e p s.1 (omega arith) q, o.eq_left k x y, eq_right o k e y q)

  pub erase_at-IsSorted : (xs : List E) (p : ℕ) → IsSorted cmp xs → IsSorted cmp (erase_at xs p)
  erase_at-IsSorted [] p s = s
  erase_at-IsSorted (x ∷ xs) zero s = s.1
  erase_at-IsSorted (x ∷ xs) (suc p) s = (AllAbove-erase_at x xs p s.0, erase_at-IsSorted xs p s.1)
    where
      AllAbove-erase_at :
          (x : E) (xs : List E) (p : ℕ) → AllAbove cmp x xs → AllAbove cmp x (erase_at xs p)
      AllAbove-erase_at x [] p a = a
      AllAbove-erase_at x (y ∷ ys) zero a = a.1
      AllAbove-erase_at x (y ∷ ys) (suc p) a = (a.0, AllAbove-erase_at x ys p a.1)

  -- Nothing equals the first element of a sorted list but that one.
  find-above :
      (k x : E) (xs : List E) → cmp k x ≢ Ordering.gt → AllAbove cmp x xs → find cmp k xs ≡ none
  find-above k x [] h a = refl
  find-above k x (y ∷ ys) h a =
      let lt : cmp k y ≡ Ordering.lt = lt_of_ne-gt o k x y h a.0 in rw lt (find-above k x ys h a.1)

  pub find-erase_at :
      (k : E) (xs : List E) (p : ℕ) (d : E)
      → IsSorted cmp xs
      → p < length xs
      → find cmp k (erase_at xs p) ≡ (if is_eq (cmp k (get_or xs p d)) then none else find cmp k xs)
  find-erase_at k [] p d s h = absurd (omega arith)
  find-erase_at k (x ∷ xs) zero d s h = ground (arith, find-above k x xs)
  find-erase_at k (x ∷ xs) (suc p) d s h =
      let y = get_or xs p d in
      let above : cmp x y ≡ Ordering.lt = AllAbove-at o x d xs p s.0 (omega arith) in
      ground (arith, find-erase_at k xs p d s.1 (omega arith), o.eq_left k x y)
