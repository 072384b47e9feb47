-- ===== src/EventList/Insert.antt =====
-- insert of EventList (ase/eventlist.hh).
use anklang.Prelude.{
  ℕ, ◌-◌, ◌<◌, ◌≡◌, ◌≢◌, refl, sym, ap, Bool, true, false, Ordering, arith, ltb, ◌==◌, not, ◌&&◌,
  if◌then◌else◌, inl, inr, List, [], ◌∷◌, ◌++◌, Option, none, some, length, get_or, insert_at,
  Bool-cases,
}
use anklang.EventList.Order.{Compare, IsOrder, Ordering-cases}
use anklang.EventList.Lookup.Laws.{Splits, InsertsAt, binary_lookup_insertion_pos-InsertsAt}
use anklang.EventList.Sorted.{
  is_eq, find, IsSorted, cmp_at, IsSorted-range, find-none, find-some, insert_at-IsSorted,
}
use anklang.EventList.Update.{find-insert_at, set-IsSorted, find-set}
use anklang.EventList.List.{
  EventList, inserted, changed, Result, with_events, is_gt, cmp_back, insert_found, insert,
}

abbrev pub is_some {ℓ} : {A : Type ℓ} → Option A → Bool
is_some none = false
is_some (some a) = true

-- What an insertion of `e` leaves and reports.
pub record Inserted {ℓ} {E : Type ℓ} (cmp : Compare E) (es : List E) (e : E) (r : Result E)
    : Type ℓ where
  pub sorted : IsSorted cmp r.list.events
  pub finds :
      (k : E) → find cmp k r.list.events ≡ (if is_eq (cmp k e) then some e else find cmp k es)
  pub stores : r.stored ≡ find cmp e es
  pub result_is : r.result ≡ is_some (find cmp e es)
  pub notifies : r.notified ≡ some (e, if is_some (find cmp e es) then changed else inserted)
  pub uncached : r.list.ordered ≡ none

module _ {ℓ} {E : Type ℓ} {cmp : Compare E} (o : IsOrder cmp) where
  insert_at_end : (xs : List E) (e : E) → insert_at xs (length xs) e ≡ xs ++ e ∷ []
  insert_at_end [] e = refl
  insert_at_end (x ∷ xs) e = ap (◌∷◌ x) (insert_at_end xs e)

  -- An event above the last one is above all.
  back_gt-Splits :
      (xs : List E) (e : E)
      → IsSorted cmp xs
      → 0 < length xs
      → cmp_back cmp xs e ≡ Ordering.gt
      → Splits (cmp_at cmp xs e) (length xs) (length xs)
  back_gt-Splits xs e s pos g = record {
    in_range = omega arith;
    above = λ j q. elim (Ordering-cases (cmp_at cmp xs e j)) [
      | inr (inr h) ↦ h
      | inr (inl h) ↦ contra j q (λ k. cc)
      | inl h ↦ contra j q (λ k. cc)
    ];
    below = λ j q r. absurd (omega arith);
  }
    where
      contra :
          (j : ℕ)
          → j < length xs
          → cmp_at cmp xs e j ≢ Ordering.gt
          → cmp_at cmp xs e j ≡ Ordering.gt
      contra j q ne = elim (Bool-cases (ltb j (length xs - 1))) [
        | inl lt ↦ cc (IsSorted-range o xs e s j (length xs - 1) (ground arith) (omega arith) ne)
        | inr ge ↦ let same : j ≡ length xs - 1 = ground arith in absurd (ne (rw same g))
      ]

  pub split-ne :
      (xs : List E) (e : E) (p : ℕ)
      → Splits (cmp_at cmp xs e) (length xs) p
      → (j : ℕ) → j < length xs
      → cmp_at cmp xs e j ≢ Ordering.eq
  split-ne xs e p s j h q = elim (Bool-cases (ltb j p)) [
    | inl lt ↦ cc (s.above j (ground arith))
    | inr ge ↦ cc (s.below j (ground arith) h)
  ]

  place-Inserted :
      (xs : List E) (e : E) (p : ℕ)
      → IsSorted cmp xs
      → Splits (cmp_at cmp xs e) (length xs) p
      → Inserted cmp xs e (record {
        list = with_events (insert_at xs p e);
        result = false;
        stored = none;
        notified = some (e, inserted);
      })
  place-Inserted xs e p s h =
      let missing : find cmp e xs ≡ none = find-none o xs e (split-ne xs e p h) in
      record {
        sorted = insert_at-IsSorted o xs e p s h;
        finds = λ k. find-insert_at o k xs e p (λ j q r. split-ne xs e p h j r);
        stores = sym missing;
        result_is = rw missing refl;
        notifies = rw missing refl;
        uncached = refl;
      }

  pub insert_found-Inserted :
      (xs : List E) (e : E) (at : ℕ × Bool)
      → IsSorted cmp xs
      → InsertsAt (cmp_at cmp xs e) (length xs) at
      → Inserted cmp xs e (insert_found cmp xs e at)
  unfolding insert_found
  insert_found-Inserted xs e (p, true) s h =
      let there : find cmp e xs ≡ some (get_or xs p e) = find-some o xs e p s h.0 h.1 in
      record {
        sorted = set-IsSorted o xs e p s h.0 h.1;
        finds = λ k. find-set o k xs e p s h.0 h.1;
        stores = sym there;
        result_is = rw there refl;
        notifies = rw there refl;
        uncached = refl;
      }
  insert_found-Inserted xs e (p, false) s h = place-Inserted xs e p s h

  -- `insert` into a sorted list leaves a sorted one in which the event is found and every other
  -- search is answered as before; it reports the element that was replaced, if any, notifies an
  -- insertion or a change, and drops the cache.
  pub insert-Inserted :
      (l : EventList E) (e : E) → IsSorted cmp l.events → Inserted cmp l.events e (insert cmp l e)
  unfolding insert
  insert-Inserted l e s =
      elim (Bool-cases (not (length l.events == 0) && is_gt (cmp_back cmp l.events e))) [
        | inl fast ↦
            rw (fast, ← insert_at_end l.events e)
              (place-Inserted l.events e (length l.events) s
                (back_gt-Splits l.events e s (ground arith) (ground arith)))
        | inr slow ↦ rw slow (
            insert_found-Inserted l.events e _ s
              (binary_lookup_insertion_pos-InsertsAt _ _ (IsSorted-range o l.events e s)))
      ]
