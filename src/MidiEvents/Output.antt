-- ===== src/MidiEvents/Output.antt =====
-- MidiEventOutput (ase/midievent.cc). `V` is what a MidiEvent holds besides its `frame` of 12 bits.
use anklang.Prelude.{
  ℕ, suc, ◌-◌, ◌%◌, ◌^◌, ◌≤◌, ◌<◌, ◌≡◌, refl, arith, compare, Bool, false, ltb, List, [], ◌∷◌, ◌++◌,
  length, get_elem?, none, some,
}
use anklang.Prelude.Int.{ℤ, pos_part}
use anklang.EventList.Order.{Compare, IsOrder, compare_lesser-IsOrder}
use anklang.SortNet.Sort.{fixed_sort, lesser}
use anklang.SortNet.ZeroOne.{Ascends}
use anklang.SortNet.Fixed.{IsSortOf, fixed_sort-IsSortOf}

pub record Event (V : Type 0) : Type 0 where
  pub frame : ℕ
  pub body : V

module _ {V : Type 0} where
  -- What a field of 12 bits holds
  abbrev pub frame_bits : Event V → ℕ
  frame_bits e = e.frame % 2 ^ 12

  -- `a.frame < b.frame`, by its sign
  abbrev pub by_frame : Compare (Event V)
  by_frame a b = compare (frame_bits a) (frame_bits b)

  unfoldable pub last_frame : List (Event V) → ℕ
  last_frame events = elim (get_elem? events (length events - 1)) [
    | none ↦ 0
    | some e ↦ frame_bits e
  ]

  -- The events behind it, and whether ensure_order() has to be called
  unfoldable pub append_unsorted : ℤ → Event V → List (Event V) → List (Event V) × Bool
  append_unsorted frame event events =
      let f = pos_part frame in
      (events ++ record event { frame = f } ∷ [], ltb f (last_frame events))

  -- Without the assertion that fails on an event that is out of order
  unfoldable pub append : ℤ → Event V → List (Event V) → List (Event V)
  append frame event events = (append_unsorted frame event events).0

  -- The parameter is std::sort, for more than 16 events.
  unfoldable pub ensure_order : (List (Event V) → List (Event V)) → List (Event V) → List (Event V)
  ensure_order std_sort events = fixed_sort std_sort by_frame events

  pub by_frame-IsOrder : IsOrder by_frame
  by_frame-IsOrder = record {
    swap = λ a b. compare_lesser-IsOrder.swap (frame_bits a) (frame_bits b);
    lt_trans =
        λ a b c. compare_lesser-IsOrder.lt_trans (frame_bits a) (frame_bits b) (frame_bits c);
    eq_left = λ a b c. compare_lesser-IsOrder.eq_left (frame_bits a) (frame_bits b) (frame_bits c);
  }

  last_frame-cons :
      (d e : Event V) (es : List (Event V)) → last_frame (d ∷ e ∷ es) ≡ last_frame (e ∷ es)
  unfolding last_frame
  last_frame-cons d e es =
      let outer : suc (suc (length es)) - 1 ≡ suc (length es) = omega arith in
      let inner : suc (length es) - 1 ≡ length es = omega arith in
      rw (last_frame, outer, inner) refl

  not_lesser : (d e : Event V) → last_frame (d ∷ []) ≤ frame_bits e → lesser by_frame e d ≡ false
  unfolding last_frame
  not_lesser d e h = ground arith

  Ascends-append :
      (es : List (Event V)) (e : Event V)
      → Ascends by_frame es
      → last_frame es ≤ frame_bits e
      → Ascends by_frame (es ++ e ∷ [])
  Ascends-append [] e a h = tt
  Ascends-append (d ∷ []) e a h = (not_lesser d e h, tt)
  Ascends-append (d ∷ x ∷ es) e a h =
      (a.0, Ascends-append (x ∷ es) e a.1 (rw (last_frame-cons d x es) at h))

  -- Where the events of an output are in the order of their frames and the new frame is
  -- negative or below 4096: when append_unsorted reports no event that is out of order, the
  -- events with the appended one are in order too.
  append-Ascends :
      (frame : ℤ) (event : Event V) (events : List (Event V))
      → Ascends by_frame events
      → pos_part frame < 2 ^ 12
      → (append_unsorted frame event events).1 ≡ false
      → Ascends by_frame (append frame event events)
  unfolding append append_unsorted
  append-Ascends frame event events a h k =
      let kept : pos_part frame % 2 ^ 12 ≡ pos_part frame = omega arith in
      Ascends-append events (record event { frame = pos_part frame }) a
        (rw kept (ground (arith, k)))

  pub ensure_order-IsSortOf :
      (std_sort : List (Event V) → List (Event V))
      → ((v : List (Event V)) → IsSortOf by_frame v (std_sort v))
      → (events : List (Event V)) → IsSortOf by_frame events (ensure_order std_sort events)
  unfolding ensure_order
  ensure_order-IsSortOf std_sort s events = fixed_sort-IsSortOf std_sort by_frame-IsOrder s events
