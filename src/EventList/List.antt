-- ===== src/EventList/List.antt =====
-- ase/eventlist.hh: EventList and OrderedEventList. A list is its events and the cache of
-- ordered_events, `ordered_`. An operation returns the new list, its result, what it stores through
-- `replaced` or `removed`, and the call of `notify_`: the event with +1, 0 or -1.
use anklang.Prelude.{
  ℕ, ◌-◌, Bool, true, false, Ordering, ◌==◌, not, ◌&&◌, if◌then◌else◌, List, [], ◌∷◌, ◌++◌, Option,
  none, some, length, get_elem?, get_or, set, erase_at, insert_at,
}
use anklang.EventList.Order.{Compare}
use anklang.EventList.Lookup.{binary_lookup, binary_lookup_insertion_pos}
use anklang.EventList.Sorted.{cmp_at}

pub record EventList {ℓ} (E : Type ℓ) : Type ℓ where
  pub events : List E
  pub ordered : Option (List E)

pub data Mod : Type 0 where
  inserted changed removed : Mod

pub record Result {ℓ} (E : Type ℓ) : Type ℓ where
  pub list : EventList E
  pub result : Bool
  pub stored : Option E
  pub notified : Option (E × Mod)

abbrev pub is_gt : Ordering → Bool
is_gt Ordering.gt = true
is_gt _ = false

module _ {ℓ} {E : Type ℓ} where
  -- uncache, and the assignment of new events behind it
  abbrev pub with_events : List E → EventList E
  with_events es = record { events = es; ordered = none }

  unfoldable pub clear_silently : EventList E → EventList E
  clear_silently l = with_events []

  unfoldable pub size : EventList E → ℕ
  size l = length l.events

  unfoldable pub first : EventList E → Option E
  first l = get_elem? l.events 0

  unfoldable pub last : EventList E → Option E
  last l = if length l.events == 0 then none else get_elem? l.events (length l.events - 1)

module _ {ℓ} {E : Type ℓ} (compare_ : Compare E) where
  -- compare_ (event, events_.back()), where there is a back
  abbrev pub cmp_back : List E → E → Ordering
  cmp_back es event = cmp_at compare_ es event (length es - 1)

  -- The part of `insert` behind the lookup
  unfoldable pub insert_found : List E → E → ℕ × Bool → Result E
  insert_found es event (it, true) = record {
    list = with_events (set es it event);
    result = true;
    stored = some (get_or es it event);
    notified = some (event, changed);
  }
  insert_found es event (it, false) = record {
    list = with_events (insert_at es it event);
    result = false;
    stored = none;
    notified = some (event, inserted);
  }

  unfoldable pub insert : EventList E → E → Result E
  insert l event =
      if not (length l.events == 0) && is_gt (cmp_back l.events event)
      then record {
        list = with_events (l.events ++ event ∷ []);
        result = false;
        stored = none;
        notified = some (event, inserted);
      }
      else insert_found l.events event
          (binary_lookup_insertion_pos (cmp_at compare_ l.events event) (length l.events))

  unfoldable pub replace_found : EventList E → E → ℕ × Bool → Result E
  replace_found l event (it, true) = record {
    list = with_events (set l.events it event);
    result = true;
    stored = some (get_or l.events it event);
    notified = some (event, changed);
  }
  replace_found l event (it, false) = record {
    list = l;
    result = false;
    stored = none;
    notified = none;
  }

  unfoldable pub replace : EventList E → E → Result E
  replace l event =
      replace_found l event
        (binary_lookup_insertion_pos (cmp_at compare_ l.events event) (length l.events))

  -- Removal of the event at `it`
  abbrev pub remove_at : List E → E → ℕ → Result E
  remove_at es event it = record {
    list = with_events (erase_at es it);
    result = true;
    stored = some (get_or es it event);
    notified = some (event, removed);
  }

  abbrev pub remove_none : List E → Result E
  remove_none es = record { list = with_events es; result = false; stored = none; notified = none }

  -- `remove` by the comparison with the last event. The lookup ends at `events_.end() - 1`, and what it
  -- answers is compared with `events_.end()`.
  unfoldable pub remove_by : Ordering → List E → E → Result E
  remove_by Ordering.eq es event = remove_at es event (length es - 1)
  remove_by Ordering.lt es event =
      let it = binary_lookup (cmp_at compare_ es event) (length es - 1) in
      if not (it == length es) then remove_at es event it else remove_none es
  remove_by Ordering.gt es event = remove_none es

  unfoldable pub remove : EventList E → E → Result E
  remove l event =
      remove_by (if length l.events == 0 then Ordering.gt else cmp_back l.events event) l.events
        event

  unfoldable pub lookup : EventList E → E → Option E
  lookup l event =
      get_elem? l.events (binary_lookup (cmp_at compare_ l.events event) (length l.events))

  unfoldable pub lookup_after : EventList E → E → Option E
  lookup_after l event =
      get_elem? l.events
        (binary_lookup_insertion_pos (cmp_at compare_ l.events event) (length l.events)).0

  -- std::stable_sort by `compare_ (a, b) < 0`: insertion from the back keeps equal events in order.
  unfoldable pub insert_before : E → List E → List E
  insert_before e [] = e ∷ []
  insert_before e (x ∷ xs) = if is_gt (compare_ e x) then x ∷ insert_before e xs else e ∷ x ∷ xs

  unfoldable pub stable_sort : List E → List E
  stable_sort [] = []
  stable_sort (x ∷ xs) = insert_before x (stable_sort xs)

  -- OrderedEventList (ve), and ordered_events with its cache: the list with the cache filled, and the
  -- ordered events.
  unfoldable pub ordered_events : EventList E → EventList E × List E
  ordered_events l = elim l.ordered [
    | some es ↦ (l, es)
    | none ↦ (record l { ordered = some (stable_sort l.events) }, stable_sort l.events)
  ]
