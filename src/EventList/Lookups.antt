-- ===== src/EventList/Lookups.antt =====
-- replace, lookup and lookup_after of EventList (ase/eventlist.hh).
use anklang.Prelude.{
  ℕ, zero, suc, ◌≤◌, ◌<◌, ◌≡◌, ◌≢◌, refl, sym, ◌∙◌, Bool, true, false, Ordering, arith,
  if◌then◌else◌, ◌⊎◌, inl, inr, List, [], ◌∷◌, Option, none, some, length, get_or, get_elem?,
}
use anklang.EventList.Order.{Compare, IsOrder, Ordering-cases}
use anklang.EventList.Lookup.{binary_lookup, binary_lookup_insertion_pos}
use anklang.EventList.Lookup.Laws.{
  InsertsAt, LooksUp, binary_lookup_insertion_pos-InsertsAt, binary_lookup-LooksUp,
}
use anklang.EventList.Sorted.{find, IsSorted, cmp_at, IsSorted-range, find-none, find-some}
use anklang.EventList.List.{
  EventList, Result, is_gt, insert_found, replace_found, replace, lookup, lookup_after,
}
use anklang.EventList.Insert.{Inserted, insert_found-Inserted, split-ne}

-- A replacement does the same where something equals `e`, and else nothing at all.
abbrev pub Replaced {ℓ} : {E : Type ℓ} → Compare E → EventList E → E → Result E → Type ℓ
Replaced cmp l e r =
    (Inserted cmp l.events e r × (r.result ≡ true))
    ⊎ ((find cmp e l.events ≡ none)
        × (r ≡ record { list = l; result = false; stored = none; notified = none }))

module _ {ℓ} {E : Type ℓ} {cmp : Compare E} (o : IsOrder cmp) where
  replace_found-Replaced :
      (l : EventList E) (e : E) (at : ℕ × Bool)
      → IsSorted cmp l.events
      → InsertsAt (cmp_at cmp l.events e) (length l.events) at
      → Replaced cmp l e (replace_found cmp l e at)
  unfolding replace_found insert_found
  replace_found-Replaced l e (p, true) s h =
      inl (insert_found-Inserted o l.events e (p, true) s h, refl)
  replace_found-Replaced l e (p, false) s h =
      inr (find-none o l.events e (split-ne o l.events e p h), refl)

  -- `replace` on a sorted list does what `insert` does where an event equals the new one, and
  -- nothing otherwise.
  pub replace-Replaced :
      (l : EventList E) (e : E) → IsSorted cmp l.events → Replaced cmp l e (replace cmp l e)
  unfolding replace
  replace-Replaced l e s =
      replace_found-Replaced l e _ s
        (binary_lookup_insertion_pos-InsertsAt _ _ (IsSorted-range o l.events e s))

  get_elem?-some :
      (xs : List E) (i : ℕ) (d : E) → i < length xs → get_elem? xs i ≡ some (get_or xs i d)
  get_elem?-some [] i d h = absurd (omega arith)
  get_elem?-some (x ∷ xs) zero d h = refl
  get_elem?-some (x ∷ xs) (suc i) d h = get_elem?-some xs i d (omega arith)

  pub get_elem?-end : (xs : List E) → get_elem? xs (length xs) ≡ none
  get_elem?-end [] = refl
  get_elem?-end (x ∷ xs) = get_elem?-end xs

  -- On a sorted list the binary lookup answers what a search from the front finds.
  lookup-eq-find :
      (l : EventList E) (e : E) → IsSorted cmp l.events → lookup cmp l e ≡ find cmp e l.events
  unfolding lookup
  lookup-eq-find l e s =
      go (binary_lookup (cmp_at cmp l.events e) (length l.events))
        (binary_lookup-LooksUp _ _ (IsSorted-range o l.events e s))
    where
      go :
          (p : ℕ)
          → LooksUp (cmp_at cmp l.events e) (length l.events) p
          → get_elem? l.events p ≡ find cmp e l.events
      go p (inl (h, q)) = get_elem?-some l.events p e h ∙ sym (find-some o l.events e p s h q)
      go p (inr (h, q)) = rw h (get_elem?-end l.events ∙ sym (find-none o l.events e q))

-- The first element that is not below `e`, looked for from the front.
abbrev pub find_after {ℓ} : {E : Type ℓ} → Compare E → E → List E → Option E
find_after cmp e [] = none
find_after cmp e (x ∷ xs) = if is_gt (cmp e x) then find_after cmp e xs else some x

module _ {ℓ} {E : Type ℓ} {cmp : Compare E} (o : IsOrder cmp) where
  find_after-at :
      (xs : List E) (e : E) (p : ℕ)
      → ((j : ℕ) → j < p → cmp_at cmp xs e j ≡ Ordering.gt)
      → (p < length xs → cmp_at cmp xs e p ≢ Ordering.gt)
      → p ≤ length xs
      → get_elem? xs p ≡ find_after cmp e xs
  find_after-at [] e zero h k q = refl
  find_after-at [] e (suc p) h k q = absurd (omega arith)
  find_after-at (x ∷ xs) e zero h k q = ground (arith, k (omega arith))
  find_after-at (x ∷ xs) e (suc p) h k q =
      rw (h 0 (omega arith))
        (find_after-at xs e p (λ j r. h (suc j) (omega arith)) (λ r. k (omega arith)) (omega arith))

  pub before-eq-gt :
      (xs : List E) (e : E) (p : ℕ)
      → IsSorted cmp xs
      → p < length xs
      → cmp_at cmp xs e p ≡ Ordering.eq
      → (j : ℕ) → j < p
      → cmp_at cmp xs e j ≡ Ordering.gt
  before-eq-gt xs e p s h q j r = elim (Ordering-cases (cmp_at cmp xs e j)) [
    | inr (inr g) ↦ g
    | inr (inl g) ↦ absurd (cc (IsSorted-range o xs e s j p r h (λ k. cc)))
    | inl g ↦ absurd (cc (IsSorted-range o xs e s j p r h (λ k. cc)))
  ]

  -- On a sorted list lookup_after answers the first event that is not below the one asked for,
  -- or none.
  lookup_after-eq-find_after :
      (l : EventList E) (e : E)
      → IsSorted cmp l.events
      → lookup_after cmp l e ≡ find_after cmp e l.events
  unfolding lookup_after
  lookup_after-eq-find_after l e s =
      go (binary_lookup_insertion_pos (cmp_at cmp l.events e) (length l.events))
        (binary_lookup_insertion_pos-InsertsAt _ _ (IsSorted-range o l.events e s))
    where
      go :
          (at : ℕ × Bool)
          → InsertsAt (cmp_at cmp l.events e) (length l.events) at
          → get_elem? l.events at.0 ≡ find_after cmp e l.events
      go (p, true) (h, q) =
          find_after-at l.events e p (before-eq-gt l.events e p s h q) (λ r g. cc) (omega arith)
      go (p, false) h =
          find_after-at l.events e p h.above (λ r g. cc (h.below p (omega arith) r)) h.in_range
