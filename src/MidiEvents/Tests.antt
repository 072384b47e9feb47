-- ===== src/MidiEvents/Tests.antt =====
-- MIDI outputs and their reader (ase/midievent.cc, ase/midievent.hh) at a few events.
use anklang.Prelude.{ℕ, true, ◌≡◌, refl, List, [], ◌∷◌, Option, none, some}
use anklang.Prelude.Int.{pos, negsuc}
use anklang.EventList.List.{stable_sort}
use anklang.SortNet.Fixed.{IsSortOf}
use anklang.SortNet.Stable.{stable_sort-IsSortOf}
use anklang.QueueMux.Multiplexer.{Mux}
use anklang.QueueMux.Merge.{queued}
use anklang.MidiEvents.Output.{Event, by_frame, by_frame-IsOrder, append_unsorted, last_frame}
use anklang.MidiEvents.Reader.{max_int, priority, read, ordered, read-IsSortOf}

abbrev at_frame : ℕ → ℕ → Event ℕ
at_frame frame key = record { frame = frame; body = key }

abbrev played : List (Event ℕ)
played = at_frame 0 60 ∷ at_frame 9 64 ∷ []

abbrev outputs : List (Option (List (Event ℕ)))
outputs = some played ∷ none ∷ some (at_frame 9 67 ∷ at_frame 3 62 ∷ []) ∷ []

abbrev unread : Mux (Event ℕ)
unread = record { ptrs = []; current = 0; first = pos 0; next = pos 0 }

negative_frame :
    append_unsorted (negsuc 6) (at_frame 0 70) played
    ≡ (at_frame 0 60 ∷ at_frame 9 64 ∷ at_frame 0 70 ∷ [], true)
unfolding append_unsorted last_frame
negative_frame = refl

read-IsSortOf_example :
    IsSortOf by_frame
      (queued priority max_int outputs)
      (read (ordered (stable_sort by_frame) outputs) unread)
read-IsSortOf_example =
    read-IsSortOf (stable_sort by_frame) (stable_sort-IsSortOf by_frame-IsOrder) outputs unread
