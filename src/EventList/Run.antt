-- ===== src/EventList/Run.antt =====
-- Any run of operations on an EventList (ase/eventlist.hh): the events stay sorted by the comparison
-- of the list, and the cached list is the events in the order of the OrderedEventList.
use anklang.Prelude.{
  ◌≡◌, refl, List, [], ◌∷◌, none, some, ◌⊎◌, inl, inr, Bool-cases, Ordering, length, ◌==◌, not, ◌-◌,
}
use anklang.EventList.Order.{Compare, IsOrder}
use anklang.EventList.Lookup.{binary_lookup}
use anklang.EventList.Sorted.{IsSorted, cmp_at}
use anklang.EventList.Update.{erase_at-IsSorted}
use anklang.EventList.Insert.{insert-Inserted}
use anklang.EventList.Lookups.{replace-Replaced}
use anklang.EventList.List.{
  EventList, insert, replace, remove, remove_by, clear_silently, stable_sort, ordered_events,
}

module _ {ℓ} {E : Type ℓ} (cmp order : Compare E) where
  pub record IsValid (l : EventList E) : Type ℓ where
    pub sorted : IsSorted cmp l.events
    pub cached : (l.ordered ≡ none) ⊎ (l.ordered ≡ some (stable_sort order l.events))

pub data Op {ℓ} (E : Type ℓ) : Type ℓ where
  inserts replaces removes : E → Op E
  clears orders : Op E

module _ {ℓ} {E : Type ℓ} (cmp order : Compare E) where
  pub step : EventList E → Op E → EventList E
  step l (inserts e) = (insert cmp l e).list
  step l (replaces e) = (replace cmp l e).list
  step l (removes e) = (remove cmp l e).list
  step l clears = clear_silently l
  step l orders = (ordered_events order l).0

  pub run : EventList E → List (Op E) → EventList E
  run l [] = l
  run l (c ∷ cs) = run (step l c) cs

module _ {ℓ} {E : Type ℓ} {cmp : Compare E} (order : Compare E) (o : IsOrder cmp) where
  remove_by-IsValid :
      (c : Ordering) (es : List E) (e : E)
      → IsSorted cmp es
      → IsValid cmp order (remove_by cmp c es e).list
  unfolding remove_by
  remove_by-IsValid Ordering.eq es e s = record {
    sorted = erase_at-IsSorted o es _ s;
    cached = inl refl;
  }
  remove_by-IsValid Ordering.gt es e s = record { sorted = s; cached = inl refl }
  remove_by-IsValid Ordering.lt es e s =
      elim (Bool-cases (not (binary_lookup (cmp_at cmp es e) (length es - 1) == length es))) [
        | inl h ↦ rw h (record { sorted = erase_at-IsSorted o es _ s; cached = inl refl })
        | inr h ↦ rw h (record { sorted = s; cached = inl refl })
      ]

  replace-IsValid :
      (l : EventList E) (e : E) → IsValid cmp order l → IsValid cmp order (replace cmp l e).list
  replace-IsValid l e v = elim (replace-Replaced o l e v.sorted) [
    | inl (i, _) ↦ record { sorted = i.sorted; cached = inl i.uncached }
    | inr (_, q) ↦ rw q v
  ]

  -- On a valid list ordered_events answers the sorted events, whether cached or not, keeps the
  -- events, and leaves a valid list.
  ordered_events_lem :
      (l : EventList E)
      → IsValid cmp order l
      → ((ordered_events order l).1 ≡ stable_sort order l.events)
        × ((ordered_events order l).0.events ≡ l.events)
        × IsValid cmp order (ordered_events order l).0
  unfolding ordered_events
  ordered_events_lem l v = elim v.cached [
    | inl e ↦ rw (e, ordered_events) (refl, refl, record { sorted = v.sorted; cached = inr refl })
    | inr e ↦ rw (e, ordered_events) (refl, refl, v)
  ]

  step-IsValid :
      (l : EventList E) (c : Op E) → IsValid cmp order l → IsValid cmp order (step cmp order l c)
  unfolding step remove clear_silently
  step-IsValid l (inserts e) v =
      let i = insert-Inserted o l e v.sorted in
      record { sorted = i.sorted; cached = inl i.uncached }
  step-IsValid l (replaces e) v = replace-IsValid l e v
  step-IsValid l (removes e) v = remove_by-IsValid _ l.events e v.sorted
  step-IsValid l clears v = record { sorted = tt; cached = inl refl }
  step-IsValid l orders v = (ordered_events_lem l v).2

  -- From a valid list no history of insertions, replacements, removals, clears and ordered
  -- views breaks the order of the events or leaves a stale cache.
  pub run-IsValid :
      (l : EventList E) (cs : List (Op E))
      → IsValid cmp order l
      → IsValid cmp order (run cmp order l cs)
  unfolding run
  run-IsValid l [] v = v
  run-IsValid l (c ∷ cs) v = run-IsValid (step cmp order l c) cs (step-IsValid l c v)
