-- ===== src/MidiEvents/Reader.antt =====
-- MidiEventReader (ase/midievent.hh): the events of several outputs, read in the order of their frames.
use anklang.Prelude.{ℕ, ◌-◌, false, ◌^◌, ◌≡◌, refl, ◌∙◌, arith, List, [], ◌∷◌, Option, none, some}
use anklang.Prelude.Int.{ℤ, pos, ◌≤ℤ◌}
use anklang.Prelude.Totals.{total, total-append}
use anklang.SortNet.Sort.{lesser}
use anklang.SortNet.ZeroOne.{Ascends}
use anklang.SortNet.Fixed.{IsSortOf}
use anklang.QueueMux.Multiplexer.{Mux, assign, count_pending, drain}
use anklang.QueueMux.Drain.{AscendsFrom}
use anklang.QueueMux.Merge.{queued, EachAscends, assign-merges}
use anklang.MidiEvents.Output.{Event, frame_bits, by_frame, ensure_order, ensure_order-IsSortOf}

-- The largest `int`
abbrev pub max_int : ℤ
max_int = pos (2 ^ 31 - 1)

module _ {V : Type 0} where
  -- QueueMultiplexer_priority, an `int`
  unfoldable pub priority : Event V → ℤ
  priority e = pos (frame_bits e)

  -- The constructor and the loop from `begin` to `end`
  unfoldable pub read : List (Option (List (Event V))) → Mux (Event V) → List (Event V)
  read midi_event_vector_array m =
      let assigned = assign priority max_int midi_event_vector_array m in
      drain priority max_int (count_pending priority max_int assigned.ptrs) assigned

  -- The event vectors of outputs that ensure_order() was called on
  abbrev pub ordered :
      (List (Event V) → List (Event V))
      → List (Option (List (Event V)))
      → List (Option (List (Event V)))
  ordered std_sort [] = []
  ordered std_sort (none ∷ outputs) = none ∷ ordered std_sort outputs
  ordered std_sort (some events ∷ outputs) =
      some (ensure_order std_sort events) ∷ ordered std_sort outputs

  within_int : (e : Event V) → priority e ≤ℤ max_int
  unfolding priority
  within_int e = omega arith

  not_lesser_le : (d e : Event V) → lesser by_frame e d ≡ false → priority d ≤ℤ priority e
  unfolding priority
  not_lesser_le d e h = ground arith

  le-not_lesser : (d e : Event V) → priority d ≤ℤ priority e → lesser by_frame e d ≡ false
  unfolding priority
  le-not_lesser d e h = ground arith

  Ascends-AscendsFrom :
      (z : ℤ) (d : Event V) (events : List (Event V))
      → z ≤ℤ priority d
      → Ascends by_frame (d ∷ events)
      → AscendsFrom priority max_int z (d ∷ events)
  Ascends-AscendsFrom z d [] h a = (h, tt)
  Ascends-AscendsFrom z d (e ∷ events) h a =
      (h, Ascends-AscendsFrom (priority d) e events (not_lesser_le d e a.0) a.1)

  Ascends-AscendsFrom_zero :
      (events : List (Event V))
      → Ascends by_frame events
      → AscendsFrom priority max_int (pos 0) events
  unfolding priority
  Ascends-AscendsFrom_zero [] a = tt
  Ascends-AscendsFrom_zero (d ∷ events) a = Ascends-AscendsFrom (pos 0) d events (omega arith) a

  AscendsFrom-Ascends :
      (z : ℤ) (events : List (Event V))
      → AscendsFrom priority max_int z events
      → Ascends by_frame events
  AscendsFrom-Ascends z [] a = tt
  AscendsFrom-Ascends z (d ∷ []) a = tt
  AscendsFrom-Ascends z (d ∷ e ∷ events) a =
      (le-not_lesser d e a.1.0, AscendsFrom-Ascends (priority d) (e ∷ events) a.1)

  module _ (std_sort : List (Event V) → List (Event V))
      (sorts : (v : List (Event V)) → IsSortOf by_frame v (std_sort v)) where
    ordered-EachAscends :
        (outputs : List (Option (List (Event V))))
        → EachAscends priority max_int (pos 0) (ordered std_sort outputs)
    ordered-EachAscends [] = tt
    ordered-EachAscends (none ∷ outputs) = ordered-EachAscends outputs
    ordered-EachAscends (some events ∷ outputs) = (
      Ascends-AscendsFrom_zero _ (ensure_order-IsSortOf std_sort sorts events).ascends,
      ordered-EachAscends outputs,
    )

    total-ordered :
        (g : Event V → ℕ) (outputs : List (Option (List (Event V))))
        → total g (queued priority max_int (ordered std_sort outputs))
          ≡ total g (queued priority max_int outputs)
    total-ordered g [] = refl
    total-ordered g (none ∷ outputs) = total-ordered g outputs
    total-ordered g (some events ∷ outputs) = omega (
      arith,
      total-append g (ensure_order std_sort events)
          (queued priority max_int (ordered std_sort outputs)),
      total-append g events (queued priority max_int outputs),
      (ensure_order-IsSortOf std_sort sorts events).keeps g,
      total-ordered g outputs,
    )

    -- For any outputs, null pointers included, and a std::sort that sorts lists of events:
    -- when ensure_order() was called on each output, the reader yields all their events, each
    -- as often as the outputs hold it, in the order of their frames.
    pub read-IsSortOf :
        (outputs : List (Option (List (Event V)))) (m : Mux (Event V))
        → IsSortOf by_frame (queued priority max_int outputs) (read (ordered std_sort outputs) m)
    unfolding read
    read-IsSortOf outputs m =
        let (ascends, keeps) =
          assign-merges priority max_int within_int m (ordered std_sort outputs) (pos 0)
            (ordered-EachAscends outputs) in
        record {
          ascends = AscendsFrom-Ascends (pos 0) _ ascends;
          keeps = λ g. keeps g ∙ total-ordered g outputs;
        }
