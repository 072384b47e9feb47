-- ===== src/EventList/Remove.antt =====
-- remove of EventList (ase/eventlist.hh).
use anklang.Prelude.{
  ℕ, suc, ◌-◌, ◌<◌, ◌≡◌, ◌≢◌, refl, sym, ap, ◌∙◌, true, false, Ordering, arith, ltb, ◌==◌,
  if◌then◌else◌, ◌⊎◌, inl, inr, List, [], ◌∷◌, none, some, length, get_or, Bool-cases,
}
use anklang.EventList.Order.{Compare, IsOrder, Ordering-cases, eq_right}
use anklang.EventList.Lookup.{binary_lookup}
use anklang.EventList.Lookup.Laws.{IsSortedRange, binary_lookup-LooksUp}
use anklang.EventList.Sorted.{is_eq, find, IsSorted, cmp_at, IsSorted-range, find-some}
use anklang.EventList.Update.{erase_at-IsSorted, find-erase_at}
use anklang.EventList.List.{
  EventList, removed, Result, cmp_back, remove_at, remove_none, remove_by, remove,
}

-- The removal of the one event that equals `e`.
pub record Removed {ℓ} {E : Type ℓ} (cmp : Compare E) (es : List E) (e : E) (r : Result E)
    : Type ℓ where
  pub sorted : IsSorted cmp r.list.events
  pub finds : (k : E) → find cmp k r.list.events ≡ (if is_eq (cmp k e) then none else find cmp k es)
  pub stores : r.stored ≡ find cmp e es
  pub result_is : r.result ≡ true
  pub notifies : r.notified ≡ some (e, removed)

module _ {ℓ} {E : Type ℓ} {cmp : Compare E} (o : IsOrder cmp) where
  remove_at-Removed :
      (xs : List E) (e : E) (p : ℕ)
      → IsSorted cmp xs
      → p < length xs
      → cmp_at cmp xs e p ≡ Ordering.eq
      → Removed cmp xs e (remove_at cmp xs e p)
  remove_at-Removed xs e p s h q = record {
    sorted = erase_at-IsSorted o xs p s;
    finds = λ k.
        find-erase_at o k xs p e s h
        ∙ ap (λ t. if is_eq t then none else find cmp k xs)
            (sym (eq_right o k e (get_or xs p e) q));
    stores = sym (find-some o xs e p s h q);
    result_is = refl;
    notifies = refl;
  }

  -- The same range without its last element.
  shorter : (f : ℕ → Ordering) (n : ℕ) → IsSortedRange f n → IsSortedRange f (n - 1)
  shorter f n s i j p q h = s i j p (omega arith) h

  -- The position of the element that a search from the front finds.
  position :
      (xs : List E) (e x : E)
      → find cmp e xs ≡ some x
      → (p : ℕ) × (p < length xs) × (cmp_at cmp xs e p ≡ Ordering.eq)
  position [] e x h = absurd (cc)
  position (y ∷ xs) e x h = elim (Ordering-cases (cmp e y)) [
    | inr (inl q) ↦ (0, omega arith, q)
    | inl q ↦ let (p, r, t) = position xs e x (rw q at h) in (suc p, omega arith, t)
    | inr (inr q) ↦ let (p, r, t) = position xs e x (rw q at h) in (suc p, omega arith, t)
  ]

  remove_lt-Removed :
      (xs : List E) (e : E) (p : ℕ)
      → IsSorted cmp xs
      → p < length xs
      → cmp_at cmp xs e p ≡ Ordering.eq
      → cmp_back cmp xs e ≡ Ordering.lt
      → Removed cmp xs e (remove_by cmp Ordering.lt xs e)
  unfolding remove_by
  remove_lt-Removed xs e p s h q b =
      let it = binary_lookup (cmp_at cmp xs e) (length xs - 1) in
      elim (binary_lookup-LooksUp _ (length xs - 1) (shorter _ _ (IsSorted-range o xs e s))) [
        | inl (r, t) ↦
            let ne : (it == length xs) ≡ false = ground arith in
            rw ne (remove_at-Removed xs e it s (omega arith) t)
        | inr (r, t) ↦ elim (Bool-cases (ltb p (length xs - 1))) [
          | inl lt ↦ absurd (t p (ground arith) q)
          | inr ge ↦ let same : p ≡ length xs - 1 = ground arith in absurd (cc)
        ]
      ]

  remove_eq-Removed :
      (xs : List E) (e : E)
      → IsSorted cmp xs
      → 0 < length xs
      → cmp_back cmp xs e ≡ Ordering.eq
      → Removed cmp xs e (remove_by cmp Ordering.eq xs e)
  unfolding remove_by
  remove_eq-Removed xs e s h b = remove_at-Removed xs e (length xs - 1) s (omega arith) b

  -- An event above the last equals none.
  not_above :
      (xs : List E) (e : E) (p : ℕ)
      → IsSorted cmp xs
      → p < length xs
      → cmp_at cmp xs e p ≡ Ordering.eq
      → cmp_back cmp xs e ≢ Ordering.gt
  not_above xs e p s h q g = elim (Bool-cases (ltb p (length xs - 1))) [
    | inl lt ↦ cc (IsSorted-range o xs e s p (length xs - 1) (ground arith) (omega arith) (λ k. cc))
    | inr ge ↦ let same : p ≡ length xs - 1 = ground arith in cc
  ]

  -- Removing an event that a sorted list holds leaves a sorted list in which that event is not
  -- found and every other search is answered as before; it reports success and notifies the
  -- removal.
  pub remove-Removed :
      (l : EventList E) (e x : E)
      → IsSorted cmp l.events
      → find cmp e l.events ≡ some x
      → Removed cmp l.events e (remove cmp l e)
  unfolding remove
  remove-Removed l e x s f =
      let (p, h, q) = position l.events e x f in
      let filled : (length l.events == 0) ≡ false = ground arith in
      rw filled (elim (Ordering-cases (cmp_back cmp l.events e)) [
        | inl b ↦ rw b (remove_lt-Removed l.events e p s h q b)
        | inr (inl b) ↦ rw b (remove_eq-Removed l.events e s (omega arith) b)
        | inr (inr b) ↦ absurd (not_above l.events e p s h q b)
      ])

  -- Nothing is removed where the list is empty or the event is above the last.
  pub remove_above :
      (l : EventList E) (e : E)
      → (length l.events ≡ 0) ⊎ (cmp_back cmp l.events e ≡ Ordering.gt)
      → remove cmp l e ≡ remove_none cmp l.events
  unfolding remove remove_by
  remove_above l e (inl h) = rw h
  remove_above l e (inr h) = elim (Bool-cases (length l.events == 0)) [
    | inl empty ↦ rw empty
    | inr filled ↦ rw (filled, h)
  ]

  -- On a sorted list that is not empty, for an event that is below the last one and not in the
  -- list, `remove` erases the last event and reports success.
  remove_missing_takes_last :
      (l : EventList E) (e : E)
      → IsSorted cmp l.events
      → 0 < length l.events
      → find cmp e l.events ≡ none
      → cmp_back cmp l.events e ≡ Ordering.lt
      → remove cmp l e ≡ remove_at cmp l.events e (length l.events - 1)
  unfolding remove remove_by
  remove_missing_takes_last l e s h f b =
      let it = binary_lookup (cmp_at cmp l.events e) (length l.events - 1) in
      let filled : (length l.events == 0) ≡ false = ground arith in
      elim (binary_lookup-LooksUp _ _ (shorter _ _ (IsSorted-range o l.events e s))) [
        | inl (r, t) ↦ absurd (cc (find-some o l.events e it s (omega arith) t))
        | inr (r, t) ↦
            let ne : (length l.events - 1 == length l.events) ≡ false = ground arith in
            rw (filled, b, remove_by, r, ne) refl
      ]
